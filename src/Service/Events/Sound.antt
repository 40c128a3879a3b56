-- ===== src/Service/Events/Sound.antt =====
-- The table of notifications in every course of events.
use dreon_notification.Prelude.{List, [], ◌∷◌}
use dreon_notification.World.{World, Env}
use dreon_notification.Repository.Sound.{IsSoundTable}
use dreon_notification.Service.{NotificationSvc}
use dreon_notification.Service.Events.{
  Event, create_call, enqueue_call, send_call, consume_call, retry_call, scheduled_tick, retry_tick,
  happen, run,
}
use dreon_notification.Service.Invariant.{send_notification-KeepsSound}
use dreon_notification.Service.Invariant.Queue.{
  create_notification-KeepsSound, enqueue_notification-KeepsSound, process_from_queue-KeepsSound,
  process_retry_from_queue-KeepsSound,
}
use dreon_notification.Service.Invariant.Poll.{
  enqueue_due_scheduled-KeepsSound, enqueue_pending_retries-KeepsSound,
}

module _ (env : Env) (svc : NotificationSvc) where
  happen-IsSoundTable :
      (e : Event) (w : World)
      → IsSoundTable w.notifications
      → IsSoundTable (happen env svc e w).notifications
  unfolding happen
  happen-IsSoundTable (create_call req) w = (create_notification-KeepsSound env svc req).at w
  happen-IsSoundTable (enqueue_call req) w = (enqueue_notification-KeepsSound env svc req).at w
  happen-IsSoundTable (send_call req) w = (send_notification-KeepsSound env svc req).at w
  happen-IsSoundTable (consume_call m) w = (process_from_queue-KeepsSound env svc m).at w
  happen-IsSoundTable (retry_call m) w = (process_retry_from_queue-KeepsSound env svc m).at w
  happen-IsSoundTable (scheduled_tick n) w = (enqueue_due_scheduled-KeepsSound env svc n).at w
  happen-IsSoundTable (retry_tick n) w = (enqueue_pending_retries-KeepsSound env svc n).at w

  -- Whatever calls the service gets, and however the database, the broker, the cache and the delivery
  -- clients answer: if at first the ids and the idempotency keys of the notifications are distinct,
  -- every row is PENDING, COMPLETED or FAILED, every PENDING one is new or has attempts left, and
  -- every FAILED one has none left, then so it stays.
  pub run-IsSoundTable :
      (es : List Event) (w : World)
      → IsSoundTable w.notifications
      → IsSoundTable (run env svc es w).notifications
  unfolding run
  run-IsSoundTable [] w h = h
  run-IsSoundTable (e ∷ es) w h =
      run-IsSoundTable es (happen env svc e w) (happen-IsSoundTable e w h)
