-- ===== src/Service/Outcome/Consumers.antt =====
-- internal/service/notification.go, `ProcessNotificationFromQueue` and
-- `ProcessNotificationRetryFromQueue`: a message is acknowledged always, and settles its row.
use mathlib.Core.Path.{subst}
use mathlib.Core.Option.{some-injective}
use dreon_notification.Prelude.{
  ℕ, ◌≡◌, refl, ap, ◌∙◌, inl, inr, true, ◌&&◌, String, ◌==◌, List, map, Option, none, some, find,
  Bool-cases, if◌then◌else◌,
}
use dreon_notification.Go.Error.{Result, ok, err}
use dreon_notification.Model.{Notification}
use dreon_notification.World.{World, Env, Message}
use dreon_notification.Repository.{is_live, has_id, find_one, find_one_by_id}
use dreon_notification.Repository.Schema.{notifications}
use dreon_notification.Repository.Sound.{IsSoundTable}
use dreon_notification.Aggregate.{SendNotificationReq, from_model}
use dreon_notification.Aggregate.Payload.{
  NotificationEnqueuePayload, enqueue_payload, retry_payload,
}
use dreon_notification.Service.{NotificationSvc}
use dreon_notification.Service.Send.{send_notification}
use dreon_notification.Service.Invariant.{send_notification-SendOnly}
use dreon_notification.Service.Outcome.{IsUp, initial_delay, InRangeFor, settled, after_send_lem}
use dreon_notification.Service.Queue.{
  completed_first, completed_retry, request_of, record_failure, after_send, process_payload,
  process_from_queue, is_retry_target, retry_row, retry_id, process_retry_from_queue,
}

-- The row that a retry message is to be sent again for: the live row with the message's id, if that
-- is PENDING, was tried before and has attempts left.
abbrev pub if_target : Option Notification → Option Notification
if_target none = none
if_target (some r) = if is_retry_target r then some r else none

abbrev pub live_row : String → List Notification → Option Notification
live_row id = find (λ r. is_live notifications r && has_id notifications id r)

abbrev pub retry_target : Option String → List Notification → Option Notification
retry_target none rs = none
retry_target (some id) rs = if id == "" then none else if_target (live_row id rs)

module _ (env : Env) (svc : NotificationSvc) where
  after_send-eq-ok :
      (id : String) (complete : ℕ → Notification → Notification) (r : Result (Unit {0})) (w : World)
      → (after_send env svc id complete r w).0 ≡ ok tt
  unfolding after_send record_failure
  after_send-eq-ok id complete (ok u) w = refl
  after_send-eq-ok id complete (err e) w = refl

  payload-eq-ok :
      (p : Option NotificationEnqueuePayload) (w : World) → (process_payload env svc p w).0 ≡ ok tt
  unfolding process_payload
  payload-eq-ok none w = refl
  payload-eq-ok (some p) w = after_send-eq-ok _ _ _ _

  row-eq-ok : (o : Option Notification) (w : World) → (retry_row env svc o w).0 ≡ ok tt
  unfolding retry_row
  row-eq-ok none w = refl
  row-eq-ok (some n) w = elim (Bool-cases (is_retry_target n)) [
    | inl e ↦ rw e (
        after_send-eq-ok n.id completed_retry (send_notification env svc (from_model n) w).0
          (send_notification env svc (from_model n) w).1)
    | inr e ↦ rw e
  ]

  id-eq-ok : (o : Option String) (w : World) → (retry_id env svc o w).0 ≡ ok tt
  unfolding retry_id find_one_by_id find_one
  id-eq-ok none w = refl
  id-eq-ok (some id) w = elim (Bool-cases (id == "")) [
    | inl e ↦ rw e
    | inr e ↦ rw e (row-eq-ok _ _)
  ]

  -- Every message of either topic is acknowledged, whatever it holds and however its send ends.
  pub consumers-ack :
      (m : Message) (w : World)
      → ((process_from_queue env svc m w).0 ≡ ok tt)
        × ((process_retry_from_queue env svc m w).0 ≡ ok tt)
  unfolding process_from_queue process_retry_from_queue
  consumers-ack m w =
      (payload-eq-ok (enqueue_payload m.payload) w, id-eq-ok (retry_payload m.payload) w)

  -- The world `v` after a message that was sent from the world `w`: the row is settled by the outcome
  -- of the send, and all else is as the send left it.
  pub record Handled (id : String) (complete : ℕ → Notification → Notification)
      (sent : Result (Unit {0}) × World) (w v : World) : Type 0 where
    pub rows :
        v.notifications ≡ map (settled env svc id complete sent.0 sent.1.calls) w.notifications
    pub mailboxes_of_send : v.mailboxes ≡ sent.1.mailboxes
    pub deliveries_of_send : v.deliveries ≡ sent.1.deliveries
    pub same_published : v.published ≡ w.published
    pub same_cache : v.cache ≡ w.cache

  pub handled :
      (id : String) (complete : ℕ → Notification → Notification) (req : SendNotificationReq)
      (w : World)
      → IsUp env
      → env.to_double (initial_delay env svc) ≡ initial_delay env svc
      → InRangeFor env svc id w.notifications
      → IsSoundTable w.notifications
      → ((now : ℕ) (r : Notification) → (complete now r).id ≡ r.id)
      → ((now : ℕ) (r : Notification) → (complete now r).idempotency_key ≡ r.idempotency_key)
      → let sent = send_notification env svc req w in
        Handled id complete sent w (after_send env svc id complete sent.0 sent.1).1
  handled id complete req w up exact fits h ids keys =
      let sent = send_notification env svc req w in
      let calm = send_notification-SendOnly env svc req w in
      let done =
        after_send_lem env svc id complete sent.0 sent.1 up exact
          (rw (calm.same_notifications) fits) (rw (calm.same_notifications) h) ids keys in
      record {
        rows =
            ap (λ t. t.notifications) done.rows
            ∙ ap (map (settled env svc id complete sent.0 sent.1.calls)) calm.same_notifications;
        mailboxes_of_send = ap (λ t. t.mailboxes) done.rows;
        deliveries_of_send = done.same_deliveries;
        same_published = done.same_published ∙ calm.same_published;
        same_cache = done.same_cache ∙ calm.same_cache;
      }

  -- With a database that answers, an initial delay that a double holds exactly, delays that fit a
  -- `bigint` and a sound table: after a message of the first topic all is as one send of its
  -- request leaves it, but for the row with its id. Whatever its status was, that is COMPLETED with
  -- one attempt if the send succeeded and the row is live, and has one attempt more, as after any
  -- failed send, if it did not.
  pub process_from_queue-Handled :
      (m : Message) (p : NotificationEnqueuePayload) (w : World)
      → IsUp env
      → env.to_double (initial_delay env svc) ≡ initial_delay env svc
      → InRangeFor env svc p.notification_id w.notifications
      → IsSoundTable w.notifications
      → enqueue_payload m.payload ≡ some p
      → Handled p.notification_id completed_first
          (send_notification env svc (request_of p) w)
          w
          (process_from_queue env svc m w).1
  unfolding process_from_queue process_payload
  process_from_queue-Handled m p w up exact fits h e = rw e (
      handled p.notification_id completed_first (request_of p) w up exact fits h (λ now r. refl)
        (λ now r. refl))

  pub found-if_target :
      (o : Option Notification) (r : Notification)
      → if_target o ≡ some r
      → (o ≡ some r) × (is_retry_target r ≡ true)
  found-if_target none r h = cc
  found-if_target (some s) r h = elim (Bool-cases (is_retry_target s)) [
    | inl e ↦
        let same = some-injective _ _ (rw e at h) in
        (ap some same, subst (λ t. is_retry_target t ≡ true) same e)
    | inr e ↦ cc (rw e at h)
  ]
