-- ===== src/Service/Queue.antt =====
-- internal/service/notification.go: `CreateNotification`, `EnqueueNotification`, and the consumers of
-- the two topics, `ProcessNotificationFromQueue` and `ProcessNotificationRetryFromQueue`. Logging is
-- left out. A consumer that returns without an error has its message acknowledged.
use dreon_notification.Prelude.{
  ℕ, Bool, false, ◌||◌, not, String, ◌==◌, [], ◌∷◌, ◌++◌, Option, none, some, ltb, if◌then◌else◌,
}
use dreon_notification.Go.Error.{
  Error, Result, ok, err, internal, bad_request, new, wrap, context, plain,
}
use dreon_notification.Go.Int.{ℤ, nat_lt_int}
use dreon_notification.Go.Value.{Value, marshal}
use dreon_notification.Model.{Notification, status_pending, status_completed}
use dreon_notification.Validator.{format_validation_error}
use dreon_notification.World.{World, Env, Message}
use dreon_notification.World.Exec.{
  Exec, pure, raise, ask, ◌>>=◌, ◌>>◌, modify, fail_with, guard, map_error, attempt,
}
use dreon_notification.Repository.{create, find_one_by_id, update}
use dreon_notification.Repository.Schema.{notifications}
use dreon_notification.Repository.Notifications.{record_send_failure}
use dreon_notification.Aggregate.{
  SendNotificationReq, NotificationAggregate, to_model, from_model, aggregate_of, params_value,
}
use dreon_notification.Aggregate.Payload.{
  NotificationEnqueuePayload, enqueue_value, enqueue_payload, retry_payload,
}
use dreon_notification.Service.{NotificationSvc, Publisher, backoff_params}
use dreon_notification.Service.Send.{or_fail, send_notification}

-- internal/shared/constant/event.go
abbrev pub topic_send : String
topic_send = "notifications.send"

abbrev pub topic_retry : String
topic_retry = "notifications.retry"

abbrev pub accept : Message → World → World
accept m w = record w { published = w.published ++ m ∷ [] }

-- `publisher.Publish`: an accepted message is on its topic.
unfoldable pub publish : Publisher → Message → Exec (Unit {0})
publish p m = do answer ← ask (λ n. p.publish n m); fail_with answer; modify (accept m)

abbrev pub with_params : Option Value → ℤ → Notification → Notification
with_params params limit n = record n { params = params; max_attempts = limit }

abbrev pub payload_for : String → SendNotificationReq → NotificationEnqueuePayload
payload_for id req = record { notification_id = id; req = req }

-- The answer of the validator.
abbrev pub refuse_invalid : Option Error → Exec (Unit {0})
refuse_invalid none = pure tt
refuse_invalid (some e) = raise (wrap bad_request (format_validation_error e))

abbrev pub completed_first : ℕ → Notification → Notification
completed_first now r = record r { status = status_completed; sent_at = now; attempt_count = 1 }

abbrev pub completed_retry : ℕ → Notification → Notification
completed_retry now r = record r { status = status_completed; sent_at = now }

abbrev pub request_of : NotificationEnqueuePayload → SendNotificationReq
request_of p = record p.req { notification_id = p.notification_id }

-- The row is PENDING, was tried before, and has attempts left.
unfoldable pub is_retry_target : Notification → Bool
is_retry_target n =
    if not (n.status == status_pending)
    then false
    else not (ltb n.attempt_count 1 || not (nat_lt_int n.attempt_count n.max_attempts))

module _ (env : Env) (svc : NotificationSvc) where
  unfoldable pub create_notification : SendNotificationReq → Exec NotificationAggregate
  create_notification req = do
    params ←
        or_fail (marshal (params_value req.params))
          (wrap internal (context "marshal params" (plain "json: unsupported value")))
    created ←
        create env notifications (with_params (some params) svc.cfg.max_attempts (to_model req))
    guard (created.id == "") (new internal "notification created but ID is empty")
    pure (aggregate_of created)

  -- `req.ScheduledAt != nil && req.ScheduledAt.After(time.Now().UTC())`
  unfoldable pub is_in_future : Option ℕ → Exec Bool
  is_in_future none = pure false
  is_in_future (some t) = do now ← ask env.clock; pure (ltb now t)

  -- The rest of `EnqueueNotification` for a request that is to go out now.
  unfoldable pub publish_send : String → SendNotificationReq → Exec String
  publish_send id req = do
    publisher ← or_fail svc.publisher (new internal "message publisher not configured")
    document ←
        or_fail (marshal (enqueue_value (payload_for id req)))
          (wrap internal (context "marshal enqueue payload" (plain "json: unsupported value")))
    map_error (λ e. wrap internal (context "publish to queue" e))
        (publish publisher (record { topic = topic_send; uuid = id; payload = some document }))
    pure id

  unfoldable pub enqueue_notification : SendNotificationReq → Exec String
  enqueue_notification req = do
    refuse_invalid (svc.validate req)
    created ←
        create env notifications
          (with_params (marshal (params_value req.params)) svc.cfg.max_attempts (to_model req))
    guard (created.id == "") (new internal "notification created but ID is empty")
    future ← is_in_future req.scheduled_at
    if future then pure created.id else publish_send created.id req

  -- Both consumers record a failed send in the same way.
  unfoldable pub record_failure : String → Exec (Unit {0})
  record_failure id = do
    let params = backoff_params svc.cfg
    done ← attempt (record_send_failure env id params.0 params.1)
    pure tt

  -- What a consumer does after the send; `complete` sets the columns of a row that was sent.
  unfoldable pub after_send :
      String → (ℕ → Notification → Notification) → Result (Unit {0}) → Exec (Unit {0})
  after_send id complete (err e) = record_failure id
  after_send id complete (ok u) = do
    now ← ask env.clock
    done ← attempt (update env notifications id (complete now))
    pure tt

  unfoldable pub process_payload : Option NotificationEnqueuePayload → Exec (Unit {0})
  process_payload none = pure tt
  process_payload (some p) = do
    sent ← attempt (send_notification env svc (request_of p))
    after_send p.notification_id completed_first sent

  -- `ProcessNotificationFromQueue`
  unfoldable pub process_from_queue : Message → Exec (Unit {0})
  process_from_queue msg = process_payload (enqueue_payload msg.payload)

  unfoldable pub retry_row : Option Notification → Exec (Unit {0})
  retry_row none = pure tt
  retry_row (some n) = if not (is_retry_target n) then pure tt else do
    sent ← attempt (send_notification env svc (from_model n))
    after_send n.id completed_retry sent

  unfoldable pub retry_id : Option String → Exec (Unit {0})
  retry_id none = pure tt
  retry_id (some id) =
      if id == "" then pure tt else do found ← find_one_by_id env notifications id; retry_row found

  -- `ProcessNotificationRetryFromQueue`
  unfoldable pub process_retry_from_queue : Message → Exec (Unit {0})
  process_retry_from_queue msg = retry_id (retry_payload msg.payload)
