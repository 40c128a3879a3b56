-- ===== src/Main.antt =====
-- main.go: the notification service with the clients, renderers and cache that the program gives it. What
-- stands behind them answers by the number of the call.
pub mod Reach
use dreon_notification.Prelude.{ℕ, true, String, Option, some}
use dreon_notification.Go.Error.{Error, Result}
use dreon_notification.Go.Value.{Value}
use dreon_notification.Cache.{AppCache}
use dreon_notification.Aggregate.{SendNotificationReq}
use dreon_notification.Service.{
  NotificationConfig, NotificationSvc, Publisher, EmailClient, SmsClient, FcmClient, Renderer,
}
use dreon_notification.Sms.{Templates, sms_template_dir, render_body, mock_client}
use dreon_notification.Email.{SendEmailRequest, email_template_dir, render, resend_send_email}
use dreon_notification.Fcm.{Messaging, firebase_client}

pub record Outside : Type 0 where
  pub resend : ℕ → SendEmailRequest → Option Error
  pub messaging : ℕ → Messaging
  pub broker : Publisher
  pub email_templates : ℕ → (Value → String) → Templates
  pub sms_templates : ℕ → Templates
  pub sprint : Value → String
  pub mjml : ℕ → String → Result String
  pub validate : SendNotificationReq → Option Error

-- What the program reads of its settings here.
pub record Settings : Type 0 where
  pub app_name : String
  pub sender : String
  pub email_dir : String
  pub sms_dir : String
  pub notification : NotificationConfig

module _ (o : Outside) (s : Settings) where
  abbrev pub email_client : EmailClient
  email_client = record { send = λ n d. resend_send_email (o.resend n) s.sender d }

  abbrev pub email_renderer : Renderer
  email_renderer = record {
    render = λ n name fs.
        render (o.email_templates n) o.sprint (o.mjml n) (email_template_dir s.email_dir) name fs;
  }

  abbrev pub sms_renderer : Renderer
  sms_renderer = record {
    render = λ n name fs. render_body (o.sms_templates n) (sms_template_dir s.sms_dir) name fs;
  }

  -- `NewNotificationSvc` with what `fx.Provide` names: text messages have the client without Twilio.
  unfoldable pub new_notification_svc : NotificationSvc
  new_notification_svc = record {
    has_mailbox_repo = true;
    publisher = some o.broker;
    email_client = email_client;
    renderer = email_renderer;
    from_email = s.sender;
    sms_client = some mock_client;
    sms_body_render = some sms_renderer;
    fcm_client = some (firebase_client o.messaging);
    cache = some (record { service_name = s.app_name });
    cfg = s.notification;
    validate = o.validate;
  }
