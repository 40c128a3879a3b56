-- ===== src/Service.antt =====
-- internal/service/notification.go: the service's dependencies and its settings. The clients are
-- interfaces of the program; an instance answers by the number of the call.
pub mod Backoff
pub mod Send
pub mod InApp
pub mod Delivery
pub mod Queue
pub mod Poll
pub mod Invariant
pub mod Events
pub mod Outcome
pub mod Lease
pub mod Published
pub mod Scheduled
pub mod Refused
pub mod Enqueue
pub mod Mailbox
pub mod FcmToken
pub mod PushTopic
use dreon_notification.Prelude.{ℕ, suc, Bool, String, Option, List, none, some, if◌then◌else◌}
use dreon_notification.Go.Error.{Error, Result}
use dreon_notification.Go.Int.{ℤ, pos, is_nonpositive, int_lt, seconds, to_ℕ}
use dreon_notification.Go.Value.{Fields}
use dreon_notification.World.{Message, EmailData, SmsData, PushMessage}
use dreon_notification.Cache.{AppCache}
use dreon_notification.Aggregate.{SendNotificationReq}

-- config.AppConfig.Notification
pub record NotificationConfig : Type 0 where
  pub max_attempts : ℤ
  pub retry_interval_sec : ℤ
  pub retry_batch_size : ℤ
  pub retry_backoff_initial_sec : ℤ
  pub retry_backoff_max_sec : ℤ
  pub retry_publish_lease_sec : ℤ
  pub scheduled_poll_interval_sec : ℤ
  pub scheduled_batch_size : ℤ
  pub scheduled_dedup_ttl_sec : ℤ

-- fcm.SendOutcome
pub record SendOutcome : Type 0 where
  pub success_count : ℕ
  pub failure_count : ℕ

-- email.IEmailClient, email.IRenderer, sms.ISMSClient, sms.IBodyRenderer, fcm.IFCMClient, and the
-- AMQP publisher
pub record EmailClient : Type 0 where
  pub send : ℕ → EmailData → Option Error

pub record Renderer : Type 0 where
  pub render : ℕ → String → Fields → Result String

pub record SmsClient : Type 0 where
  pub send : ℕ → SmsData → Option Error

pub record FcmClient : Type 0 where
  pub send_to_tokens : ℕ → List String → PushMessage → Result SendOutcome
  pub send_to_topics : ℕ → List String → PushMessage → Result SendOutcome

pub record Publisher : Type 0 where
  pub publish : ℕ → Message → Option Error

-- NotificationSvc. A dependency that may be nil is an `Option`; the repositories act on the world.
pub record NotificationSvc : Type 0 where
  pub has_mailbox_repo : Bool
  pub publisher : Option Publisher
  pub email_client : EmailClient
  pub renderer : Renderer
  pub from_email : String
  pub sms_client : Option SmsClient
  pub sms_body_render : Option Renderer
  pub fcm_client : Option FcmClient
  pub cache : Option AppCache
  pub cfg : NotificationConfig
  -- `validator.ValidateStruct(req)`
  pub validate : SendNotificationReq → Option Error

abbrev pub or_default : ℤ → ℕ → ℤ
or_default n d = if is_nonpositive n then pos d else n

-- `backoffParams`
unfoldable pub backoff_params : NotificationConfig → ℤ × ℤ
backoff_params cfg =
    let initial = or_default cfg.retry_backoff_initial_sec 30 in
    let max = or_default cfg.retry_backoff_max_sec 3600 in
    (initial, if int_lt max initial then initial else max)

-- `publishLease`
unfoldable pub publish_lease : NotificationConfig → ℤ
publish_lease cfg = seconds (to_ℕ (or_default cfg.retry_publish_lease_sec 300))
