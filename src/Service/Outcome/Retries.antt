-- ===== src/Service/Outcome/Retries.antt =====
-- internal/service/notification.go, `ProcessNotificationRetryFromQueue`: which messages are sent
-- again, and what becomes of their rows.
use dreon_notification.Prelude.{
  ◌≡◌, refl, inl, inr, true, String, ◌==◌, Option, none, some, Bool-cases, Option-cases,
}
use dreon_notification.Go.Error.{Error, ok}
use dreon_notification.Model.{Notification}
use dreon_notification.World.{World, Env, Message}
use dreon_notification.World.Frame.{Untouched, Untouched-refl}
use dreon_notification.Repository.{find_one, find_one_by_id, db_call}
use dreon_notification.Repository.Schema.{notifications}
use dreon_notification.Repository.Sound.{IsSoundTable}
use dreon_notification.Aggregate.{from_model}
use dreon_notification.Aggregate.Payload.{retry_payload}
use dreon_notification.Service.{NotificationSvc}
use dreon_notification.Service.Send.{send_notification}
use dreon_notification.Service.Outcome.{IsUp, counted, initial_delay, InRangeFor}
use dreon_notification.Service.Outcome.Consumers.{
  if_target, live_row, retry_target, Handled, handled, found-if_target,
}
use dreon_notification.Service.Queue.{
  completed_retry, is_retry_target, retry_row, retry_id, process_retry_from_queue,
}

module _ (env : Env) (svc : NotificationSvc) where
  find_lem :
      (id : String) (w : World)
      → env.db_fault w.calls ≡ none
      → find_one_by_id env notifications id w ≡ (ok (live_row id w.notifications), counted w)
  unfolding find_one_by_id find_one db_call
  find_lem id w up = rw up refl

  find_fault :
      (id : String) (w : World) (e : Error)
      → env.db_fault w.calls ≡ some e
      → find_one_by_id env notifications id w ≡ (ok none, counted w)
  unfolding find_one_by_id find_one db_call
  find_fault id w e down = rw down refl

  counted-Untouched : (w : World) → Untouched w (counted w)
  counted-Untouched w = record {
    same_tables = refl;
    same_published = refl;
    same_deliveries = refl;
    same_cache = refl;
  }

  row-Untouched :
      (o : Option Notification) (w : World)
      → if_target o ≡ none
      → Untouched w (retry_row env svc o (counted w)).1
  unfolding retry_row
  row-Untouched none w h = counted-Untouched w
  row-Untouched (some n) w h = elim (Bool-cases (is_retry_target n)) [
    | inl e ↦ cc (rw e at h)
    | inr e ↦ rw e (counted-Untouched w)
  ]

  id-Untouched :
      (o : Option String) (w : World)
      → retry_target o w.notifications ≡ none
      → Untouched w (retry_id env svc o w).1
  unfolding retry_id
  id-Untouched none w h = Untouched-refl w
  id-Untouched (some id) w h = elim (Bool-cases (id == "")) [
    | inl e ↦ rw e (Untouched-refl w)
    | inr e ↦ rw e (elim (Option-cases (env.db_fault w.calls)) [
      | inl up ↦ rw (find_lem id w up) (row-Untouched (live_row id w.notifications) w (rw e at h))
      | inr (fault, down) ↦ rw (find_fault id w fault down) (row-Untouched none w refl)
    ])
  ]

  -- A message of the second topic that is about no retryable row (it does not decode, or the row is
  -- missing, deleted, not PENDING, never tried or out of attempts) has nothing sent and nothing changed.
  pub process_retry_from_queue-Untouched :
      (m : Message) (w : World)
      → retry_target (retry_payload m.payload) w.notifications ≡ none
      → Untouched w (process_retry_from_queue env svc m w).1
  unfolding process_retry_from_queue
  process_retry_from_queue-Untouched m w h = id-Untouched (retry_payload m.payload) w h

  row-Handled :
      (r : Notification) (w : World)
      → IsUp env
      → env.to_double (initial_delay env svc) ≡ initial_delay env svc
      → InRangeFor env svc r.id w.notifications
      → IsSoundTable w.notifications
      → is_retry_target r ≡ true
      → Handled env svc r.id completed_retry
          (send_notification env svc (from_model r) w)
          w
          (retry_row env svc (some r) w).1
  unfolding retry_row
  row-Handled r w up exact fits h target = rw target (
      handled env svc r.id completed_retry (from_model r) w up exact fits h (λ now r. refl)
        (λ now r. refl))

  id-Handled :
      (o : Option String) (r : Notification) (w : World)
      → IsUp env
      → env.to_double (initial_delay env svc) ≡ initial_delay env svc
      → InRangeFor env svc r.id w.notifications
      → IsSoundTable w.notifications
      → retry_target o w.notifications ≡ some r
      → Handled env svc r.id completed_retry
          (send_notification env svc (from_model r) (counted w))
          (counted w)
          (retry_id env svc o w).1
  unfolding retry_id
  id-Handled none r w up exact fits h e = cc
  id-Handled (some id) r w up exact fits h e = elim (Bool-cases (id == "")) [
    | inl blank ↦ cc (rw blank at e)
    | inr given ↦
        let (found, target) =
          found-if_target env svc (live_row id w.notifications) r (rw given at e) in
        rw (given, find_lem id w (up w.calls), found)
          (row-Handled r (counted w) up exact fits h target)
  ]

  -- With a database that answers, an initial delay that a double holds exactly, delays that fit a
  -- `bigint` and a sound table: after a message of the second topic about a retryable row all is as
  -- one send of the request in the row leaves it, but for that row. It is COMPLETED with its
  -- attempts as they were if the send succeeded, and has one attempt more, as after any failed
  -- send, if it did not.
  pub process_retry_from_queue-Handled :
      (m : Message) (r : Notification) (w : World)
      → IsUp env
      → env.to_double (initial_delay env svc) ≡ initial_delay env svc
      → InRangeFor env svc r.id w.notifications
      → IsSoundTable w.notifications
      → retry_target (retry_payload m.payload) w.notifications ≡ some r
      → Handled env svc r.id completed_retry
          (send_notification env svc (from_model r) (counted w))
          w
          (process_retry_from_queue env svc m w).1
  unfolding process_retry_from_queue
  process_retry_from_queue-Handled m r w up exact fits h e =
      let done = id-Handled (retry_payload m.payload) r w up exact fits h e in
      record {
        rows = done.rows;
        mailboxes_of_send = done.mailboxes_of_send;
        deliveries_of_send = done.deliveries_of_send;
        same_published = done.same_published;
        same_cache = done.same_cache;
      }
