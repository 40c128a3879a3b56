-- ===== src/Tests.antt =====
-- Fixtures: a small state of the service, an outside that answers every call, and its theorems applied
-- to them in the child modules.
mod Storage
mod Queueing
mod Polling
mod Users
mod Push
mod Caching
mod Presentation
mod Messages
mod Settings
mod Program
use dreon_notification.Prelude.{
  ℕ, ◌*◌, refl, sym, inl, inr, true, false, String, List, [], ◌∷◌, none, some,
}
use dreon_notification.Go.Error.{ok}
use dreon_notification.Go.Int.{pos}
use dreon_notification.Model.{
  BaseModel, Notification, Mailbox, UserFcmToken, status_pending, channel_email, channel_in_app,
  type_welcome,
}
use dreon_notification.World.{World, Env, Tables, Message}
use dreon_notification.Repository.Sound.{IsSoundTable, failed_ne_pending}
use dreon_notification.Cache.{AppCache}
use dreon_notification.Aggregate.{SendNotificationReq, empty_req, zero_base}
use dreon_notification.Service.{NotificationSvc, NotificationConfig, Publisher, SendOutcome}

-- An outside where every call succeeds, and the clock is the number of the call.
abbrev pub calm_env : Env
calm_env = record {
  clock = λ n. n;
  db_fault = λ n. none;
  new_id = λ n. ok "new";
  rank = λ n id. 0;
  locked = λ n id. false;
  to_double = λ n. n;
  redis_fault = λ n. none;
}

abbrev pub broker : Publisher
broker = record { publish = λ n m. none }

abbrev pub settings : NotificationConfig
settings = record {
  max_attempts = pos 5;
  retry_interval_sec = pos 5;
  retry_batch_size = pos 10;
  retry_backoff_initial_sec = pos 30;
  retry_backoff_max_sec = pos 3600;
  retry_publish_lease_sec = pos 300;
  scheduled_poll_interval_sec = pos 5;
  scheduled_batch_size = pos 10;
  scheduled_dedup_ttl_sec = pos 86400;
}

abbrev pub service : NotificationSvc
service = record {
  has_mailbox_repo = true;
  publisher = some broker;
  email_client = record { send = λ n m. none };
  renderer = record { render = λ n t fs. ok "<p>" };
  from_email = "no-reply@example.org";
  sms_client = none;
  sms_body_render = none;
  fcm_client = none;
  cache = some (record { service_name = "notification" });
  cfg = settings;
  validate = λ req. none;
}

abbrev pub welcome : SendNotificationReq
welcome = record empty_req {
  idempotency_key = "key-2";
  channel = channel_email;
  kind = type_welcome;
  recipients = "a@example.org" ∷ [];
}

-- A row that failed once and is due.
abbrev pub tried_row : Notification
tried_row = record {
  base = record zero_base { id = "tried" };
  idempotency_key = "key-1";
  source = "";
  channel = channel_email;
  kind = type_welcome;
  status = status_pending;
  title = "";
  message = "";
  recipients = "a@example.org" ∷ [];
  params = none;
  provider = "";
  provider_id = "";
  expired_at = 0;
  sent_at = 0;
  scheduled_at = 0;
  attempt_count = 1;
  max_attempts = pos 5;
  next_retry_at = none;
}

abbrev pub unread : Mailbox
unread = record {
  base = record zero_base { id = "mail"; created_by = "user" };
  title = "Hi";
  message = "";
  is_read = false;
  read_at = none;
  group = "";
  notification_id = "tried";
}

abbrev pub phone : UserFcmToken
phone = record {
  base = record zero_base { id = "phone"; created_by = "user" };
  token = "token";
  platform = "IOS";
  device_metadata = none;
}

abbrev pub start : World
start = record {
  tables = record {
    notifications = tried_row ∷ [];
    mailboxes = unread ∷ [];
    fcm_tokens = phone ∷ [];
    push_topics = [];
  };
  published = [];
  deliveries = [];
  cache = [];
  calls = 0;
}

pub start-IsSoundTable : IsSoundTable start.notifications
start-IsSoundTable = record {
  sound = (
    record {
      has_status = inl refl;
      pending_left = λ _. inr refl;
      failed_spent = λ e. absurd (failed_ne_pending (sym e));
    },
    tt,
  );
  distinct_ids = (refl, tt);
  distinct_keys = (refl, tt);
}
