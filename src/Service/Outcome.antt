-- ===== src/Service/Outcome.antt =====
-- internal/service/notification.go: what the consumers of the two topics make of the row that a
-- message is about.
pub mod Consumers
pub mod Retries
use dreon_notification.Prelude.{
  ℕ, suc, ◌≡◌, refl, ap, ◌∙◌, sym, ◌≤◌, Bool, true, false, ◌&&◌, not, String, ◌==◌, List, map,
  Option, none, some, arith, find, All, if◌then◌else◌,
}
use dreon_notification.Go.Error.{Error, Result, ok, err}
use dreon_notification.Go.Int.{ℤ, pos, negsuc, to_ℕ}
use dreon_notification.Model.{Notification}
use dreon_notification.World.{World, Env, Message, Tables}
use dreon_notification.World.Exec.{◌>>=◌, attempt}
use dreon_notification.World.Frame.{Untouched, Untouched-refl}
use dreon_notification.Repository.{
  is_live, has_id, touch, updated, update, update_where, db_call, find_one, find_one_by_id,
}
use dreon_notification.Repository.Schema.{notifications}
use dreon_notification.Repository.Notifications.{record_send_failure}
use dreon_notification.Repository.Failure.{InRange, fail_if, record_send_failure_lem}
use dreon_notification.Repository.Sound.{keys, IsSoundTable}
use dreon_notification.Repository.Unique.{update_rows_lem}
use dreon_notification.Aggregate.{from_model}
use dreon_notification.Aggregate.Payload.{
  NotificationEnqueuePayload, enqueue_payload, retry_payload,
}
use dreon_notification.Service.{NotificationSvc, backoff_params}
use dreon_notification.Service.Backoff.{backoff_params_bounds}
use dreon_notification.Service.Send.{send_notification}
use dreon_notification.Service.Invariant.{send_notification-SendOnly}
use dreon_notification.Service.Queue.{
  completed_first, completed_retry, request_of, record_failure, after_send, process_payload,
  process_from_queue, is_retry_target, retry_row, retry_id, process_retry_from_queue,
}

abbrev pub counted : World → World
counted w = record w { calls = suc w.calls }

abbrev pub put_notifications : List Notification → World → World
put_notifications rs w = record w { tables = record w.tables { notifications = rs } }

-- No call of the database fails.
abbrev pub IsUp : Env → Type 0
IsUp env = (n : ℕ) → env.db_fault n ≡ none

pos-to_ℕ : (z : ℤ) → 1 ≤ to_ℕ z → z ≡ pos (to_ℕ z)
pos-to_ℕ (pos n) h = refl
pos-to_ℕ (negsuc n) h = absurd (omega arith)

module _ (env : Env) (svc : NotificationSvc) where
  abbrev pub initial_delay : ℕ
  initial_delay = to_ℕ (backoff_params svc.cfg).0

  abbrev pub longest_delay : ℕ
  longest_delay = to_ℕ (backoff_params svc.cfg).1

  -- One row, after the message about `id` was sent or not, at the call `n`.
  abbrev pub settled :
      String
      → (ℕ → Notification → Notification)
      → Result (Unit {0})
      → ℕ
      → Notification
      → Notification
  settled id complete (ok u) n =
      updated notifications (has_id notifications id) (complete (env.clock n)) (env.clock (suc n))
  settled id complete (err e) n = fail_if id (env.clock n) initial_delay longest_delay

  -- Every row of the notification has a delay that fits the database's integers.
  abbrev pub InRangeFor : String → List Notification → Type 0
  InRangeFor id rs = All (λ r. (r.id == id) ≡ true → InRange initial_delay r) rs

  record_failure_lem :
      (id : String) (w : World)
      → IsUp env
      → env.to_double initial_delay ≡ initial_delay
      → InRangeFor id w.notifications
      → record_failure env svc id w ≡ (
        ok tt,
        counted (
            put_notifications
              (map (fail_if id (env.clock w.calls) initial_delay longest_delay) w.notifications)
              w),
      )
  unfolding record_failure
  record_failure_lem id w up exact fits =
      let (low, high) = backoff_params_bounds svc.cfg in
      rw
        (
          pos-to_ℕ (backoff_params svc.cfg).0 low,
          pos-to_ℕ (backoff_params svc.cfg).1 (omega arith),
          record_send_failure_lem env id initial_delay longest_delay w low high exact (up w.calls)
              fits,
        )
        refl

  -- The second world is the first with the row settled.
  pub record Settles (id : String) (complete : ℕ → Notification → Notification)
      (sent : Result (Unit {0})) (w v : World) : Type 0 where
    pub rows :
        v.tables
        ≡ record w.tables { notifications = map (settled id complete sent w.calls) w.notifications }
    pub same_published : v.published ≡ w.published
    pub same_deliveries : v.deliveries ≡ w.deliveries
    pub same_cache : v.cache ≡ w.cache

  update_lem :
      (id : String) (f : Notification → Notification) (w : World)
      → IsUp env
      → IsSoundTable w.notifications
      → ((r : Notification) → (f r).id ≡ r.id)
      → ((r : Notification) → (f r).idempotency_key ≡ r.idempotency_key)
      → update env notifications id f w ≡ (
        ok tt,
        counted (
            put_notifications
              (map
                (updated notifications (has_id notifications id) f (env.clock w.calls))
                w.notifications)
              w),
      )
  unfolding update update_where db_call
  update_lem id f w up h ids keys =
      rw
        (
          up w.calls,
          update_rows_lem (has_id notifications id) f ids keys (env.clock w.calls) (counted w)
              h.distinct_keys,
        )
        refl

  after_send_lem :
      (id : String) (complete : ℕ → Notification → Notification) (sent : Result (Unit {0}))
      (w : World)
      → IsUp env
      → env.to_double initial_delay ≡ initial_delay
      → InRangeFor id w.notifications
      → IsSoundTable w.notifications
      → ((now : ℕ) (r : Notification) → (complete now r).id ≡ r.id)
      → ((now : ℕ) (r : Notification) → (complete now r).idempotency_key ≡ r.idempotency_key)
      → Settles id complete sent w (after_send env svc id complete sent w).1
  unfolding after_send
  after_send_lem id complete (ok u) w up exact fits h ids keys =
      rw
        (update_lem id (complete (env.clock w.calls)) (counted w) up h (ids (env.clock w.calls))
          (keys (env.clock w.calls)))
        (record { rows = refl; same_published = refl; same_deliveries = refl; same_cache = refl })
  after_send_lem id complete (err e) w up exact fits h ids keys =
      rw (record_failure_lem id w up exact fits)
        (record { rows = refl; same_published = refl; same_deliveries = refl; same_cache = refl })
