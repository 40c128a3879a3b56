-- ===== src/Service/Invariant/Queue.antt =====
-- internal/service/notification.go: the creation of a notification and the consumers of the two topics
-- keep the invariant of the table.
use dreon_notification.Prelude.{ℕ, refl, sym, String, Option, none, some, inl, inr}
use dreon_notification.Go.Error.{Error, Result, ok, err, wrap, bad_request}
use dreon_notification.Go.Int.{ℤ}
use dreon_notification.Go.Value.{Value}
use dreon_notification.Model.{Notification}
use dreon_notification.Validator.{format_validation_error}
use dreon_notification.World.{Env, Message}
use dreon_notification.World.Exec.{modify}
use dreon_notification.World.Within.{Within, Within-pure, Within-raise}
use dreon_notification.Repository.{update, fresh_row}
use dreon_notification.Repository.Schema.{notifications}
use dreon_notification.Repository.Bulk.{find_one_by_id-Within}
use dreon_notification.Repository.Sound.{
  IsSound, KeepsRow, completed_ne_pending, completed_ne_failed, failed_ne_pending,
}
use dreon_notification.Repository.Keeps.{
  KeepsSound, sound_frame, create-KeepsSound, update_where-KeepsSound,
  record_send_failure-KeepsSound,
}
use dreon_notification.Aggregate.{SendNotificationReq, to_model}
use dreon_notification.Aggregate.Payload.{
  NotificationEnqueuePayload, enqueue_payload, retry_payload,
}
use dreon_notification.Service.{NotificationSvc, Publisher}
use dreon_notification.Service.Queue.{
  accept, publish, refuse_invalid, with_params, completed_first, completed_retry,
  create_notification, publish_send, is_in_future, enqueue_notification, record_failure, after_send,
  process_payload, process_from_queue, retry_row, retry_id, process_retry_from_queue,
}
use dreon_notification.Service.Invariant.{sound_rules, send_notification-KeepsSound}

-- The row of a new request.
new-IsSound :
    (env : Env) (req : SendNotificationReq) (params : Option Value) (limit : ℤ) (n : ℕ)
    (id : String)
    → IsSound (fresh_row env notifications n id (with_params params limit (to_model req)))
unfolding to_model
new-IsSound env req params limit n id = record {
  has_status = inl refl;
  pending_left = λ _. inl refl;
  failed_spent = λ e. absurd (failed_ne_pending (sym e));
}

completed_first-KeepsRow : (now : ℕ) → KeepsRow (completed_first now)
completed_first-KeepsRow now = record {
  same_id = λ r. refl;
  same_key = λ r. refl;
  keeps_sound = λ r h. record {
    has_status = inr (inl refl);
    pending_left = λ e. absurd (completed_ne_pending e);
    failed_spent = λ e. absurd (completed_ne_failed e);
  };
}

completed_retry-KeepsRow : (now : ℕ) → KeepsRow (completed_retry now)
completed_retry-KeepsRow now = record {
  same_id = λ r. refl;
  same_key = λ r. refl;
  keeps_sound = λ r h. record {
    has_status = inr (inl refl);
    pending_left = λ e. absurd (completed_ne_pending e);
    failed_spent = λ e. absurd (completed_ne_failed e);
  };
}

accept-KeepsSound : (m : Message) → Within KeepsSound (modify (accept m))
accept-KeepsSound m = record { at = λ w h. h }

pub publish-KeepsSound : (p : Publisher) (m : Message) → Within KeepsSound (publish p m)
unfolding publish
publish-KeepsSound p m = search (sound_rules, accept-KeepsSound) depth 12

refuse_invalid-KeepsSound : (o : Option Error) → Within KeepsSound (refuse_invalid o)
refuse_invalid-KeepsSound none = Within-pure sound_frame tt
refuse_invalid-KeepsSound (some e) =
    Within-raise sound_frame (wrap bad_request (format_validation_error e))

module _ (env : Env) (svc : NotificationSvc) where
  pub create_notification-KeepsSound :
      (req : SendNotificationReq) → Within KeepsSound (create_notification env svc req)
  unfolding create_notification
  create_notification-KeepsSound req =
      search (sound_rules, create-KeepsSound, new-IsSound env req) depth 14

  publish_send-KeepsSound :
      (id : String) (req : SendNotificationReq) → Within KeepsSound (publish_send env svc id req)
  unfolding publish_send
  publish_send-KeepsSound id req = search (sound_rules, publish-KeepsSound) depth 14

  is_in_future-KeepsSound : (o : Option ℕ) → Within KeepsSound (is_in_future env svc o)
  unfolding is_in_future
  is_in_future-KeepsSound none = search (sound_rules)
  is_in_future-KeepsSound (some t) = search (sound_rules)

  pub enqueue_notification-KeepsSound :
      (req : SendNotificationReq) → Within KeepsSound (enqueue_notification env svc req)
  unfolding enqueue_notification
  enqueue_notification-KeepsSound req =
      search
        (
          sound_rules,
          refuse_invalid-KeepsSound,
          create-KeepsSound,
          new-IsSound env req,
          is_in_future-KeepsSound,
          publish_send-KeepsSound,
        )
        depth 14

  record_failure-KeepsSound : (id : String) → Within KeepsSound (record_failure env svc id)
  unfolding record_failure
  record_failure-KeepsSound id = search (sound_rules, record_send_failure-KeepsSound)

  update-KeepsSound :
      (id : String) (f : Notification → Notification)
      → KeepsRow f
      → Within KeepsSound (update env notifications id f)
  unfolding update
  update-KeepsSound id f k = search (sound_rules, update_where-KeepsSound)

  after_send-KeepsSound :
      (id : String) (f : ℕ → Notification → Notification) (r : Result (Unit {0}))
      → ((now : ℕ) → KeepsRow (f now))
      → Within KeepsSound (after_send env svc id f r)
  unfolding after_send
  after_send-KeepsSound id f (err e) k = record_failure-KeepsSound id
  after_send-KeepsSound id f (ok u) k = search (sound_rules, update-KeepsSound)

  pub process_from_queue-KeepsSound :
      (m : Message) → Within KeepsSound (process_from_queue env svc m)
  unfolding process_from_queue process_payload
  process_from_queue-KeepsSound m = read (enqueue_payload m.payload)
    where
      read : (p : Option NotificationEnqueuePayload) → Within KeepsSound (process_payload env svc p)
      read none = search (sound_rules)
      read (some p) = search (
        sound_rules, send_notification-KeepsSound, after_send-KeepsSound, completed_first-KeepsRow,
      )

  retry_row-KeepsSound : (o : Option Notification) → Within KeepsSound (retry_row env svc o)
  unfolding retry_row
  retry_row-KeepsSound none = search (sound_rules)
  retry_row-KeepsSound (some n) =
      search
        (sound_rules, send_notification-KeepsSound, after_send-KeepsSound, completed_retry-KeepsRow)

  pub process_retry_from_queue-KeepsSound :
      (m : Message) → Within KeepsSound (process_retry_from_queue env svc m)
  unfolding process_retry_from_queue retry_id
  process_retry_from_queue-KeepsSound m = read (retry_payload m.payload)
    where
      read : (o : Option String) → Within KeepsSound (retry_id env svc o)
      read none = search (sound_rules)
      read (some id) = search (sound_rules, find_one_by_id-Within, retry_row-KeepsSound)
