-- ===== src/Service/Send.antt =====
-- internal/service/notification.go: `SendNotification` and the four channels, with the template maps
-- of internal/shared/constant/template.go.
use dreon_notification.Prelude.{
  ℕ, Bool, true, false, ◌||◌, not, String, ◌==◌, List, [], ◌∷◌, ◌++◌, map, Option, none, some, ltb,
  any, is_nil, if◌then◌else◌,
}
use dreon_notification.Go.Error.{Error, internal, bad_request, new, wrap, context}
use dreon_notification.Go.Text.{append, trim_space}
use dreon_notification.Go.Value.{Fields, end}
use dreon_notification.Model.{
  Mailbox, channel_email, channel_sms, channel_push, channel_in_app, type_welcome, type_verify_otp,
  type_forgot_password, type_reset_password, type_messaging_group,
}
use dreon_notification.World.{
  World, Env, Delivery, email, sms, push_tokens, push_topics, EmailData, SmsData, PushMessage,
}
use dreon_notification.World.Exec.{
  Exec, pure, raise, lift, ask, ◌>>=◌, ◌>>◌, modify, fail_with, guard, map_error,
}
use dreon_notification.Repository.{find_one_by_id, bulk_create}
use dreon_notification.Repository.Schema.{notifications, mailboxes}
use dreon_notification.Aggregate.{SendNotificationReq, zero_base}
use dreon_notification.Service.{NotificationSvc, Renderer}

-- `EmailTemplateMap` and `SMSTemplateMap`
unfoldable pub email_template : String → Option String
email_template kind =
    if kind == type_welcome
    then some "welcome"
    else if kind == type_verify_otp
    then some "verify-otp"
    else if kind == type_forgot_password
    then some "forgot-password"
    else if kind == type_reset_password
    then some "reset-password"
    else none

unfoldable pub sms_template : String → Option String
sms_template kind = if kind == type_verify_otp then some "verify-otp" else none

abbrev pub or_fail {ℓ} : {A : Type ℓ} → Option A → Error → Exec A
or_fail none e = raise e
or_fail (some a) e = pure a

-- A nil map is replaced by an empty one.
abbrev pub params_or_empty : Option Fields → Fields
params_or_empty none = end
params_or_empty (some fs) = fs

abbrev pub record_delivery : Delivery → World → World
record_delivery d w = record w { deliveries = w.deliveries ++ d ∷ [] }

-- One call of a delivery client, kept in the world whatever its answer.
abbrev pub deliver {ℓ} : {A : Type ℓ} → Delivery → (ℕ → A) → Exec A
deliver d answer = do n ← ask (λ n. n); modify (record_delivery d); pure (answer n)

abbrev pub is_group : SendNotificationReq → Bool
is_group req = req.kind == type_messaging_group

module _ (svc : NotificationSvc) where
  -- `sendEmail`
  unfoldable pub send_email : SendNotificationReq → Exec (Unit {0})
  send_email req = do
    guard (is_group req) (new internal "MESSAGING_GROUP is only supported for PUSH channel")
    template ←
        or_fail (email_template req.kind)
          (new internal (append "no email template for type: " req.kind))
    rendered ← ask (λ n. svc.renderer.render n template (params_or_empty req.params))
    html ← map_error (λ e. wrap internal (context "render email template" e)) (lift rendered)
    let mail : EmailData = record {
      from = svc.from_email;
      recipients = req.recipients;
      subject = req.title;
      html = html;
    }
    answer ← deliver (email mail) (λ n. svc.email_client.send n mail)
    map_error (λ e. wrap internal (context "send email" e)) (fail_with answer)

  -- The body: a template where there is one and a renderer, else the message.
  unfoldable pub sms_text : SendNotificationReq → Option String → Option Renderer → Exec String
  sms_text req (some template) (some r) = do
    rendered ← ask (λ n. r.render n template (params_or_empty req.params))
    map_error (λ e. wrap internal (context "render sms template" e)) (lift rendered)
  sms_text req (some template) none = pure req.message
  sms_text req none r = pure req.message

  -- `sendSMS`
  unfoldable pub send_sms : SendNotificationReq → Exec (Unit {0})
  send_sms req = do
    guard (is_group req) (new internal "MESSAGING_GROUP is only supported for PUSH channel")
    client ← or_fail svc.sms_client (new internal "SMS client not configured")
    text ← sms_text req (sms_template req.kind) svc.sms_body_render
    guard (text == "") (new internal "SMS body is empty")
    let message : SmsData = record { recipients = req.recipients; body = text }
    answer ← deliver (sms message) (λ n. client.send n message)
    map_error (λ e. wrap internal (context "send sms" e)) (fail_with answer)

  abbrev pub none_sent : SendNotificationReq → Error
  none_sent req =
      if is_group req
      then new internal "no FCM topics were successfully sent"
      else new internal "no FCM tokens were successfully sent"

  -- `sendPush`
  unfoldable pub send_push : SendNotificationReq → Exec (Unit {0})
  send_push req = do
    client ← or_fail svc.fcm_client (new internal "FCM client not configured")
    let message : PushMessage = record { title = req.title; body = req.message; entries = [] }
    answer ←
        if is_group req
        then deliver (push_topics req.recipients message)
            (λ n. client.send_to_topics n req.recipients message)
        else deliver (push_tokens req.recipients message)
            (λ n. client.send_to_tokens n req.recipients message)
    outcome ← map_error (λ e. wrap internal (context "send push" e)) (lift answer)
    guard (not (ltb 0 outcome.success_count)) (none_sent req)

-- The loop over the recipients: the trimmed ids that are not blank, each once.
unfoldable pub user_ids : List String → List String → List String
user_ids seen [] = []
user_ids seen (raw ∷ rest) = elim (trim_space raw == "" || any (λ s. s == trim_space raw) seen) [
  | true ↦ user_ids seen rest
  | false ↦ trim_space raw ∷ user_ids (trim_space raw ∷ seen) rest
]

abbrev pub mailbox_for : SendNotificationReq → String → Mailbox
mailbox_for req user = record {
  base = record zero_base { created_by = user };
  title = req.title;
  message = req.message;
  is_read = false;
  read_at = none;
  group = "";
  notification_id = req.notification_id;
}

module _ (env : Env) (svc : NotificationSvc) where
  -- `sendInApp`
  unfoldable pub send_in_app : SendNotificationReq → Exec (Unit {0})
  send_in_app req = do
    guard (not svc.has_mailbox_repo) (new internal "mailbox repository not configured")
    guard (is_group req)
        (new internal "MESSAGING_GROUP is not supported for IN_APP; recipients must be user IDs")
    guard (req.notification_id == "")
        (new internal "notification id is required for IN_APP delivery")
    guard (is_nil req.recipients) (new bad_request "at least one recipient user id is required")
    found ← find_one_by_id env notifications req.notification_id
    row ← or_fail found (new internal "notification not found for IN_APP delivery")
    guard (is_nil (user_ids [] req.recipients)) (new bad_request "no valid recipient user ids")
    map_error (λ e. wrap internal (context "create in-app mailbox rows" e))
        (bulk_create env mailboxes (map (mailbox_for req) (user_ids [] req.recipients)))

  -- `SendNotification`
  unfoldable pub send_notification : SendNotificationReq → Exec (Unit {0})
  send_notification req =
      if req.channel == channel_email
      then send_email svc req
      else if req.channel == channel_sms
      then send_sms svc req
      else if req.channel == channel_push
      then send_push svc req
      else if req.channel == channel_in_app
      then send_in_app req
      else raise (new internal (append "unsupported channel: " req.channel))
