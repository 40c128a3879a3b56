-- ===== src/Tests/Queueing.antt =====
-- The theorems on requests, messages and deliveries, at the fixtures.
use dreon_notification.Service.Delivery.{SendResult}
use dreon_notification.Service.Delivery.Channels.{send_notification-SendResult}
use dreon_notification.Prelude.{◌≡◌, refl, [], ◌∷◌, some, ltb→lt}
use dreon_notification.Go.Error.{ok}
use dreon_notification.Go.Int.{pos}
use dreon_notification.Go.Value.{marshal, marshals}
use dreon_notification.Model.{channel_in_app}
use dreon_notification.World.{Message}
use dreon_notification.World.Frame.{Untouched}
use dreon_notification.Repository.Sound.{IsSoundTable}
use dreon_notification.Aggregate.{
  SendNotificationReq, to_model, from_model, params_value, zero_base,
}
use dreon_notification.Aggregate.Payload.{
  enqueue_value, enqueue_payload, retry_value, retry_payload,
}
use dreon_notification.Aggregate.RoundTrip.{enqueue_payload-marshal, from_model-to_model}
use dreon_notification.Service.{backoff_params}
use dreon_notification.Service.Send.{send_in_app, send_notification}
use dreon_notification.Service.InApp.{InAppOutcome, send_in_app_lem}
use dreon_notification.Service.Invariant.{SendOnly, send_notification-SendOnly}
use dreon_notification.Service.Queue.{
  topic_send, topic_retry, payload_for, request_of, completed_first, completed_retry,
  process_from_queue, process_retry_from_queue, enqueue_notification, is_retry_target,
}
use dreon_notification.Service.Enqueue.{EnqueueOutcome, enqueue_notification-EnqueueOutcome}
use dreon_notification.Service.Events.{enqueue_call, retry_tick, retry_call, run}
use dreon_notification.Service.Events.Sound.{run-IsSoundTable}
use dreon_notification.Service.Outcome.{counted}
use dreon_notification.Service.Outcome.Consumers.{
  Handled, consumers-ack, process_from_queue-Handled,
}
use dreon_notification.Service.Outcome.Retries.{
  process_retry_from_queue-Untouched, process_retry_from_queue-Handled,
}
use dreon_notification.Tests.{calm_env, service, welcome, tried_row, start, start-IsSoundTable}

abbrev retry : Message
retry = record { topic = topic_retry; uuid = "tried"; payload = some (retry_value "tried") }

abbrev retry_of_none : Message
retry_of_none = record { topic = topic_retry; uuid = "lost"; payload = some (retry_value "lost") }

abbrev first : Message
first = record {
  topic = topic_send;
  uuid = "tried";
  payload = some (enqueue_value (payload_for "tried" welcome));
}

run-IsSoundTable_example :
    IsSoundTable
      (run calm_env service
        (enqueue_call welcome ∷ retry_tick (pos 10) ∷ retry_call retry ∷ [])
        start).notifications
run-IsSoundTable_example =
    run-IsSoundTable calm_env service
      (enqueue_call welcome ∷ retry_tick (pos 10) ∷ retry_call retry ∷ []) start start-IsSoundTable

enqueue_notification-EnqueueOutcome_example :
    EnqueueOutcome calm_env service welcome start
      (enqueue_notification calm_env service welcome start)
enqueue_notification-EnqueueOutcome_example =
    enqueue_notification-EnqueueOutcome calm_env service welcome start

consumers-ack_example :
    ((process_from_queue calm_env service first start).0 ≡ ok tt)
    × ((process_retry_from_queue calm_env service first start).0 ≡ ok tt)
consumers-ack_example = consumers-ack calm_env service first start

process_from_queue-Handled_example :
    Handled calm_env service "tried" completed_first
      (send_notification calm_env service (request_of (payload_for "tried" welcome)) start)
      start
      (process_from_queue calm_env service first start).1
unfolding marshal marshals enqueue_value backoff_params
process_from_queue-Handled_example =
    process_from_queue-Handled calm_env service first (payload_for "tried" welcome) start
      (λ n. refl) refl ((λ _. ltb→lt _ _ refl), tt) start-IsSoundTable
      (enqueue_payload-marshal (payload_for "tried" welcome)
        (enqueue_value (payload_for "tried" welcome)) refl)

process_retry_from_queue-Handled_example :
    Handled calm_env service "tried" completed_retry
      (send_notification calm_env service (from_model tried_row) (counted start))
      start
      (process_retry_from_queue calm_env service retry start).1
unfolding retry_value retry_payload is_retry_target backoff_params
process_retry_from_queue-Handled_example =
    process_retry_from_queue-Handled calm_env service retry tried_row start (λ n. refl) refl
      ((λ _. ltb→lt _ _ refl), tt) start-IsSoundTable refl

process_retry_from_queue-Untouched_example :
    Untouched start (process_retry_from_queue calm_env service retry_of_none start).1
unfolding retry_value retry_payload
process_retry_from_queue-Untouched_example =
    process_retry_from_queue-Untouched calm_env service retry_of_none start refl

send_notification-SendOnly_example :
    SendOnly start (send_notification calm_env service welcome start).1
send_notification-SendOnly_example = send_notification-SendOnly calm_env service welcome start

abbrev to_mailboxes : SendNotificationReq
to_mailboxes = record welcome {
  channel = channel_in_app;
  recipients = " user" ∷ "user" ∷ "" ∷ [];
  notification_id = "tried";
}

send_in_app_lem_example :
    InAppOutcome to_mailboxes start (send_in_app calm_env service to_mailboxes start)
send_in_app_lem_example = send_in_app_lem calm_env service to_mailboxes start

enqueue_payload-marshal_example :
    enqueue_payload (some (enqueue_value (payload_for "tried" welcome)))
    ≡ some (payload_for "tried" welcome)
unfolding marshal marshals enqueue_value
enqueue_payload-marshal_example =
    enqueue_payload-marshal (payload_for "tried" welcome)
      (enqueue_value (payload_for "tried" welcome)) refl

from_model-to_model_example :
    from_model (record (to_model welcome) {
      base = record zero_base { id = "tried" };
      params = some (params_value welcome.params);
      max_attempts = pos 5;
    })
    ≡ record welcome { notification_id = "tried" }
from_model-to_model_example =
    from_model-to_model welcome (record zero_base { id = "tried" }) (pos 5) (λ e. cc e) (λ e. cc e)

send_notification-SendResult_example :
    SendResult service welcome start
      (send_notification calm_env service welcome start).0
      (send_notification calm_env service welcome start).1
send_notification-SendResult_example =
    send_notification-SendResult calm_env service welcome start refl
