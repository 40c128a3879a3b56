-- ===== src/Service/Invariant.antt =====
-- internal/service/notification.go: every entry point of the service keeps the invariant of the table
-- of notifications, however the outside answers. This file is about the delivery of a request.
pub mod Queue
pub mod Poll
use dreon_notification.Prelude.{
  ℕ, ◌≡◌, refl, sym, ap, ◌∙◌, Bool, true, false, String, List, [], ◌∷◌, Option, none, some, inl,
  inr,
}
use dreon_notification.Go.Error.{Error, Result, ok, err, wrap, bad_request}
use dreon_notification.Go.Int.{ℤ}
use dreon_notification.Go.Value.{Value}
use dreon_notification.Model.{Notification, Mailbox, status_completed}
use dreon_notification.World.{World, Env, Message, Delivery}
use dreon_notification.World.Exec.{Exec, pure, raise, modify}
use dreon_notification.World.Within.{
  IsFrame, Within, within_rules, Within-bind, Within-pure, Within-raise, Within-gets, Within-ask,
  Within-lift, Within-fail_with, Within-guard, Within-attempt, Within-map_error, Within-if,
  Within-modify,
}
use dreon_notification.Repository.{bulk_create, update, update_where, find_one_by_id, fresh_row}
use dreon_notification.Repository.Schema.{notifications, mailboxes}
use dreon_notification.Repository.Bulk.{
  bulk_create-BulkOutcome, db_call-Within, find_one_by_id-Within,
}
use dreon_notification.Repository.Notifications.{
  find_due_scheduled, lock_pending_retries_due, update_next_retry_at,
}
use dreon_notification.Repository.Sound.{
  IsSound, IsSoundTable, KeepsRow, completed_ne_pending, completed_ne_failed, failed_ne_pending,
}
use dreon_notification.Repository.Keeps.{
  KeepsSound, sound_frame, create-KeepsSound, update_where-KeepsSound,
  record_send_failure-KeepsSound, run_in_transaction-KeepsSound,
}
use dreon_notification.Cache.{AppCache, set_nx}
use dreon_notification.Aggregate.{SendNotificationReq, to_model}
use dreon_notification.Aggregate.Payload.{
  NotificationEnqueuePayload, enqueue_payload, retry_payload,
}
use dreon_notification.Service.{NotificationSvc, Publisher, Renderer}
use dreon_notification.Service.Send.{
  or_fail, deliver, send_email, send_sms, sms_text, send_push, send_in_app, send_notification,
}
use dreon_notification.Service.Queue.{
  accept, publish, refuse_invalid, with_params, completed_first, completed_retry,
  create_notification, publish_send, is_in_future, enqueue_notification, record_failure, after_send,
  process_payload, process_from_queue, retry_row, retry_id, process_retry_from_queue,
}

pub or_fail-Within :
    {R : World → World → Type 0}
    → IsFrame R
    → {A : Type 0} (o : Option A) (e : Error) → Within R (or_fail o e)
or_fail-Within frame none e = Within-raise frame e
or_fail-Within frame (some a) e = Within-pure frame a

pub ruleset service_rules = (within_rules, or_fail-Within)

pub ruleset sound_rules = (service_rules, sound_frame)

-- A delivery can add mailbox rows and client calls, and counts calls; it does nothing else.
pub record SendOnly (w v : World) : Type 0 where
  pub same_notifications : v.notifications ≡ w.notifications
  pub same_tokens : v.fcm_tokens ≡ w.fcm_tokens
  pub same_topics : v.push_topics ≡ w.push_topics
  pub same_published : v.published ≡ w.published
  pub same_cache : v.cache ≡ w.cache

send_frame : IsFrame SendOnly
send_frame = record {
  idle = λ w. record {
    same_notifications = refl;
    same_tokens = refl;
    same_topics = refl;
    same_published = refl;
    same_cache = refl;
  };
  chain = λ f g. record {
    same_notifications = g.same_notifications ∙ f.same_notifications;
    same_tokens = g.same_tokens ∙ f.same_tokens;
    same_topics = g.same_topics ∙ f.same_topics;
    same_published = g.same_published ∙ f.same_published;
    same_cache = g.same_cache ∙ f.same_cache;
  };
  counted = λ w. record {
    same_notifications = refl;
    same_tokens = refl;
    same_topics = refl;
    same_published = refl;
    same_cache = refl;
  };
}

deliver-SendOnly : {A : Type 0} (d : Delivery) (f : ℕ → A) → Within SendOnly (deliver d f)
deliver-SendOnly d f = record {
  at = λ w. record {
    same_notifications = refl;
    same_tokens = refl;
    same_topics = refl;
    same_published = refl;
    same_cache = refl;
  };
}

mailboxes-SendOnly :
    (env : Env) (new : List Mailbox) → Within SendOnly (bulk_create env mailboxes new)
mailboxes-SendOnly env new = record {
  at = λ w. elim (bulk_create-BulkOutcome env mailboxes new w) [
    | inl (e, eq, calm) ↦ record {
      same_notifications = ap (λ t. t.notifications) calm.same_tables;
      same_tokens = ap (λ t. t.fcm_tokens) calm.same_tables;
      same_topics = ap (λ t. t.push_topics) calm.same_tables;
      same_published = calm.same_published;
      same_cache = calm.same_cache;
    }
    | inr (n, ids, eq, len, grown) ↦ record {
      same_notifications = ap (λ t. t.notifications) grown.added;
      same_tokens = ap (λ t. t.fcm_tokens) grown.added;
      same_topics = ap (λ t. t.push_topics) grown.added;
      same_published = grown.same_published;
      same_cache = grown.same_cache;
    }
  ];
}

ruleset send_rules = (service_rules, send_frame, deliver-SendOnly)

module _ (svc : NotificationSvc) where
  send_email-SendOnly : (req : SendNotificationReq) → Within SendOnly (send_email svc req)
  unfolding send_email
  send_email-SendOnly req = search (send_rules) depth 14

  sms_text-SendOnly :
      (req : SendNotificationReq) (o : Option String) (r : Option Renderer)
      → Within SendOnly (sms_text svc req o r)
  unfolding sms_text
  sms_text-SendOnly req none r = search (send_rules)
  sms_text-SendOnly req (some t) none = search (send_rules)
  sms_text-SendOnly req (some t) (some r) = search (send_rules) depth 12

  send_sms-SendOnly : (req : SendNotificationReq) → Within SendOnly (send_sms svc req)
  unfolding send_sms
  send_sms-SendOnly req = search (send_rules, sms_text-SendOnly) depth 14

  send_push-SendOnly : (req : SendNotificationReq) → Within SendOnly (send_push svc req)
  unfolding send_push
  send_push-SendOnly req = search (send_rules) depth 14

module _ (env : Env) (svc : NotificationSvc) where
  send_in_app-SendOnly : (req : SendNotificationReq) → Within SendOnly (send_in_app env svc req)
  unfolding send_in_app
  send_in_app-SendOnly req = search (send_rules, find_one_by_id-Within, mailboxes-SendOnly) depth 14

  send_notification-Within :
      (req : SendNotificationReq) → Within SendOnly (send_notification env svc req)
  unfolding send_notification
  send_notification-Within req =
      search
        (
          send_rules, send_email-SendOnly, send_sms-SendOnly, send_push-SendOnly,
          send_in_app-SendOnly,
        )
        depth 12

  -- A delivery, whatever its channel and outcome, leaves the notifications, the device tokens, the
  -- push topics, the queue and the cache as they are.
  pub send_notification-SendOnly :
      (req : SendNotificationReq) (w : World) → SendOnly w (send_notification env svc req w).1
  send_notification-SendOnly req w = (send_notification-Within req).at w

  pub send_notification-KeepsSound :
      (req : SendNotificationReq) → Within KeepsSound (send_notification env svc req)
  send_notification-KeepsSound req = record {
    at = λ w h. rw ((send_notification-SendOnly req w).same_notifications) h;
  }
