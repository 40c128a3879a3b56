-- ===== src/Service/Events.antt =====
-- What happens to the service from outside (internal/presentation, internal/worker and
-- internal/events call its methods): a course of events is a list of calls, and an error goes to the
-- caller. Calls that overlap are told apart by `Env` only where a single statement depends on it.
pub mod Sound
use dreon_notification.Prelude.{List, [], ◌∷◌}
use dreon_notification.Go.Int.{ℤ}
use dreon_notification.World.{World, Env, Message}
use dreon_notification.Aggregate.{SendNotificationReq}
use dreon_notification.Service.{NotificationSvc}
use dreon_notification.Service.Send.{send_notification}
use dreon_notification.Service.Queue.{
  create_notification, enqueue_notification, process_from_queue, process_retry_from_queue,
}
use dreon_notification.Service.Poll.{enqueue_due_scheduled, enqueue_pending_retries}

-- A call of one of the methods of `INotificationSvc`.
pub data Event : Type 0 where
  create_call : SendNotificationReq → Event
  enqueue_call : SendNotificationReq → Event
  send_call : SendNotificationReq → Event
  consume_call : Message → Event
  retry_call : Message → Event
  scheduled_tick : ℤ → Event
  retry_tick : ℤ → Event

module _ (env : Env) (svc : NotificationSvc) where
  -- The world after one event, whatever the method returned.
  unfoldable pub happen : Event → World → World
  happen (create_call req) w = (create_notification env svc req w).1
  happen (enqueue_call req) w = (enqueue_notification env svc req w).1
  happen (send_call req) w = (send_notification env svc req w).1
  happen (consume_call m) w = (process_from_queue env svc m w).1
  happen (retry_call m) w = (process_retry_from_queue env svc m w).1
  happen (scheduled_tick batch) w = (enqueue_due_scheduled env svc batch w).1
  happen (retry_tick batch) w = (enqueue_pending_retries env svc batch w).1

  unfoldable pub run : List Event → World → World
  run [] w = w
  run (e ∷ es) w = run es (happen e w)
