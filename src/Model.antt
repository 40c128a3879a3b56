-- ===== src/Model.antt =====
-- internal/model: the rows of the four tables, and the strings of their columns.
use dreon_notification.Prelude.{ℕ, Bool, String, List, Option}
use dreon_notification.Go.Int.{ℤ}
use dreon_notification.Go.Value.{Value}

-- base.go. `DeletedAt` is gorm's soft-delete mark.
pub record BaseModel : Type 0 where
  pub id : String
  pub metadata : Option Value
  pub created_at : ℕ
  pub updated_at : ℕ
  pub deleted_at : Option ℕ
  pub created_by : String
  pub updated_by : String

-- notification.go: NotificationChannel, NotificationStatus, NotificationProvider, NotificationType
abbrev pub channel_email : String
channel_email = "EMAIL"

abbrev pub channel_sms : String
channel_sms = "SMS"

abbrev pub channel_push : String
channel_push = "PUSH"

abbrev pub channel_in_app : String
channel_in_app = "IN_APP"

abbrev pub status_pending : String
status_pending = "PENDING"

abbrev pub status_completed : String
status_completed = "COMPLETED"

abbrev pub status_failed : String
status_failed = "FAILED"

abbrev pub provider_firebase : String
provider_firebase = "FIREBASE"

abbrev pub provider_twilio : String
provider_twilio = "TWILIO"

abbrev pub provider_resend : String
provider_resend = "RESEND"

abbrev pub type_welcome : String
type_welcome = "WELCOME"

abbrev pub type_verify_otp : String
type_verify_otp = "VERIFY_OTP"

abbrev pub type_forgot_password : String
type_forgot_password = "FORGOT_PASSWORD"

abbrev pub type_reset_password : String
type_reset_password = "RESET_PASSWORD"

abbrev pub type_messaging_group : String
type_messaging_group = "MESSAGING_GROUP"

-- `Params` holds a JSON document or nil. `AttemptCount` starts at 0 and only grows.
pub record Notification : Type 0 where
  pub base : BaseModel
  pub open base use *
  pub idempotency_key : String
  pub source : String
  pub channel : String
  pub kind : String
  pub status : String
  pub title : String
  pub message : String
  pub recipients : List String
  pub params : Option Value
  pub provider : String
  pub provider_id : String
  pub expired_at : ℕ
  pub sent_at : ℕ
  pub scheduled_at : ℕ
  pub attempt_count : ℕ
  pub max_attempts : ℤ
  pub next_retry_at : Option ℕ

-- mailbox.go
pub record Mailbox : Type 0 where
  pub base : BaseModel
  pub open base use *
  pub title : String
  pub message : String
  pub is_read : Bool
  pub read_at : Option ℕ
  pub group : String
  pub notification_id : String

-- fcmtoken.go
pub record UserFcmToken : Type 0 where
  pub base : BaseModel
  pub open base use *
  pub token : String
  pub platform : String
  pub device_metadata : Option Value

-- pushtopic.go
pub record PushTopic : Type 0 where
  pub base : BaseModel
  pub open base use *
  pub name : String
  pub description : String
  pub is_active : Bool
