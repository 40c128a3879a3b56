-- ===== src/Service/Published.antt =====
-- internal/service/notification.go: the messages that a loop over rows publishes.
use dreon_notification.Prelude.{
  ℕ, suc, ◌≡◌, refl, ◌∙◌, sym, ◌≤◌, String, List, [], ◌∷◌, ◌++◌, map, none, some, arith, length,
  inl, inr, Option-cases,
}
use mathlib.Core.List.{append-nil, append_assoc}
use dreon_notification.Go.Error.{Error, ok, err}
use dreon_notification.Go.Value.{marshal, marshals}
use dreon_notification.Model.{Notification}
use dreon_notification.World.{World, Env, Message}
use dreon_notification.Aggregate.Payload.{retry_value}
use dreon_notification.Service.{NotificationSvc, Publisher}
use dreon_notification.Service.Queue.{topic_retry, publish, accept}
use dreon_notification.Service.Poll.{publish_retry, for_each}

abbrev pub retry_message : Notification → Message
retry_message n = record { topic = topic_retry; uuid = n.id; payload = some (retry_value n.id) }

-- Messages for some of the rows, in the rows' order, one at most for each.
pub data MessagesOf : List Notification → List Message → Type 0 where
  none_left : MessagesOf [] []
  skipped :
      {r : Notification} {rs : List Notification} {ms : List Message}
      → MessagesOf rs ms
      → MessagesOf (r ∷ rs) ms
  sent :
      {r : Notification} {rs : List Notification} {ms : List Message}
      → MessagesOf rs ms
      → MessagesOf (r ∷ rs) (retry_message r ∷ ms)

pub length-MessagesOf :
    {rs : List Notification} {ms : List Message} → MessagesOf rs ms → length ms ≤ length rs
length-MessagesOf none_left = omega arith
length-MessagesOf (skipped h) = omega (arith, length-MessagesOf h)
length-MessagesOf (sent h) = omega (arith, length-MessagesOf h)

-- The second world is the first with messages for some of the rows.
pub record Publishes (rs : List Notification) (w v : World) : Type 0 where
  pub same_tables : v.tables ≡ w.tables
  pub new : List Message
  pub grown : v.published ≡ w.published ++ new
  pub messages : MessagesOf rs new

marshal-retry_value : (id : String) → marshal (retry_value id) ≡ some (retry_value id)
unfolding marshal marshals retry_value
marshal-retry_value id = refl

pub publish_up :
    (p : Publisher) (m : Message) (w : World)
    → p.publish w.calls m ≡ none
    → publish p m w ≡ (ok tt, accept m (record w { calls = suc w.calls }))
unfolding publish
publish_up p m w up = rw up refl

pub publish_down :
    (p : Publisher) (m : Message) (w : World) (e : Error)
    → p.publish w.calls m ≡ some e
    → publish p m w ≡ (err e, record w { calls = suc w.calls })
unfolding publish
publish_down p m w e down = rw down refl

module _ (env : Env) (svc : NotificationSvc) (p : Publisher) where
  publish_retry_up :
      (r : Notification) (w : World)
      → p.publish w.calls (retry_message r) ≡ none
      → publish_retry env svc p r w
        ≡ (ok tt, accept (retry_message r) (record w { calls = suc w.calls }))
  unfolding publish_retry
  publish_retry_up r w up = rw (marshal-retry_value r.id, publish_up p (retry_message r) w up) refl

  publish_retry_down :
      (r : Notification) (w : World) (e : Error)
      → p.publish w.calls (retry_message r) ≡ some e
      → publish_retry env svc p r w ≡ (err e, record w { calls = suc w.calls })
  unfolding publish_retry
  publish_retry_down r w e down =
      rw (marshal-retry_value r.id, publish_down p (retry_message r) w e down) refl

  pub for_each-Publishes :
      (rs : List Notification) (w : World)
      → Publishes rs w (for_each (publish_retry env svc p) rs w).1
  unfolding for_each
  for_each-Publishes [] w = record {
    same_tables = refl;
    new = [];
    grown = sym (append-nil w.published);
    messages = none_left;
  }
  for_each-Publishes (r ∷ rs) w = elim (Option-cases (p.publish w.calls (retry_message r))) [
    | inl up ↦
        let u = accept (retry_message r) (record w { calls = suc w.calls }) in
        let rest = for_each-Publishes rs u in
        rw (publish_retry_up r w up) (record {
          same_tables = rest.same_tables;
          new = retry_message r ∷ rest.new;
          grown = rest.grown ∙ append_assoc w.published (retry_message r ∷ []) rest.new;
          messages = sent rest.messages;
        })
    | inr (e, down) ↦
        let rest = for_each-Publishes rs (record w { calls = suc w.calls }) in
        rw (publish_retry_down r w e down) (record {
          same_tables = rest.same_tables;
          new = rest.new;
          grown = rest.grown;
          messages = skipped rest.messages;
        })
  ]

  -- A broker that accepts everything gets one message for each row, in order.
  pub for_each_up :
      (rs : List Notification) (w : World)
      → ((n : ℕ) (m : Message) → p.publish n m ≡ none)
      → (for_each (publish_retry env svc p) rs w).1.published ≡ w.published ++ map retry_message rs
  unfolding for_each
  for_each_up [] w up = sym (append-nil w.published)
  for_each_up (r ∷ rs) w up =
      let u = accept (retry_message r) (record w { calls = suc w.calls }) in
      rw (publish_retry_up r w (up w.calls (retry_message r))) (
        for_each_up rs u up
        ∙ append_assoc w.published (retry_message r ∷ []) (map retry_message rs))
