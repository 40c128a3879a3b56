-- ===== src/Tests/Program.antt =====
-- The theorem on the program as it is put together, with a Firebase that reaches every token.
use dreon_notification.Prelude.{refl, ◌∷◌, [], none}
use dreon_notification.Go.Error.{ok}
use dreon_notification.Model.{channel_push, type_welcome}
use dreon_notification.Aggregate.{SendNotificationReq, empty_req}
use dreon_notification.Service.Send.{send_notification}
use dreon_notification.Sms.{Templates}
use dreon_notification.Main.{Outside, Settings, new_notification_svc}
use dreon_notification.Main.Reach.{ProviderOutcome, send_notification-ProviderOutcome}
use dreon_notification.Tests.{calm_env, start, broker, settings}
use dreon_notification.Tests.Push.{firebase}

abbrev plain_files : Templates
plain_files = record {
  read = λ dir name. ok "Hi";
  parse = λ content. ok content;
  execute = λ content fs. ok content;
}

abbrev outside : Outside
outside = record {
  resend = λ n mail. none;
  messaging = λ n. firebase;
  broker = broker;
  email_templates = λ n xml. plain_files;
  sms_templates = λ n. plain_files;
  sprint = λ v. "";
  mjml = λ n page. ok page;
  validate = λ req. none;
}

abbrev program : Settings
program = record {
  app_name = "notification";
  sender = "no-reply@example.org";
  email_dir = "";
  sms_dir = "";
  notification = settings;
}

abbrev to_phone : SendNotificationReq
to_phone = record empty_req {
  channel = channel_push;
  kind = type_welcome;
  title = "Hello";
  recipients = "a" ∷ "b" ∷ [];
}

send_notification-ProviderOutcome_example :
    ProviderOutcome outside program calm_env to_phone start
      (send_notification calm_env (new_notification_svc outside program) to_phone start).0
      (send_notification calm_env (new_notification_svc outside program) to_phone start).1
send_notification-ProviderOutcome_example =
    send_notification-ProviderOutcome outside program calm_env to_phone start refl
