-- ===== src/Aggregate.antt =====
-- internal/aggregate/notification.go: the request, its conversions from and to the row, and the view of
-- a row.
pub mod Payload
pub mod RoundTrip
pub mod Mailbox
pub mod FcmToken
pub mod PushTopic
use dreon_notification.Prelude.{
  ℕ, zero, suc, Bool, String, ◌==◌, List, [], ◌∷◌, Option, none, some, if◌then◌else◌,
}
use dreon_notification.Go.Int.{pos}
use dreon_notification.Go.Value.{
  Value, null, str, timestamp, arr, obj, Elements, no_elements, element, Fields, end, field,
  get_field,
}
use dreon_notification.Model.{
  BaseModel, Notification, channel_email, channel_sms, channel_push, channel_in_app, status_pending,
  provider_firebase, provider_twilio, provider_resend,
}

pub record SendNotificationReq : Type 0 where
  pub idempotency_key : String
  pub source : String
  pub channel : String
  pub kind : String
  pub title : String
  pub message : String
  pub recipients : List String
  -- a nil map is `none`
  pub params : Option Fields
  pub scheduled_at : Option ℕ
  pub expired_at : Option ℕ
  pub notification_id : String

abbrev pub empty_req : SendNotificationReq
empty_req = record {
  idempotency_key = "";
  source = "";
  channel = "";
  kind = "";
  title = "";
  message = "";
  recipients = [];
  params = none;
  scheduled_at = none;
  expired_at = none;
  notification_id = "";
}

unfoldable pub channel_to_provider : String → String
channel_to_provider c =
    if c == channel_email
    then provider_resend
    else if c == channel_sms
    then provider_twilio
    else if c == channel_push
    then provider_firebase
    else if c == channel_in_app
    then provider_firebase
    else ""

abbrev pub zero_base : BaseModel
zero_base = record {
  id = "";
  metadata = none;
  created_at = 0;
  updated_at = 0;
  deleted_at = none;
  created_by = "";
  updated_by = "";
}

-- A nil pointer leaves the zero time.
abbrev pub time_or_zero : Option ℕ → ℕ
time_or_zero none = 0
time_or_zero (some t) = t

-- `ToModel`
unfoldable pub to_model : SendNotificationReq → Notification
unfolding channel_to_provider
to_model req = record {
  base = zero_base;
  idempotency_key = req.idempotency_key;
  source = req.source;
  channel = req.channel;
  kind = req.kind;
  status = status_pending;
  title = req.title;
  message = req.message;
  recipients = req.recipients;
  params = none;
  provider = channel_to_provider req.channel;
  provider_id = "";
  expired_at = time_or_zero req.expired_at;
  sent_at = 0;
  scheduled_at = time_or_zero req.scheduled_at;
  attempt_count = 0;
  max_attempts = pos 0;
  next_retry_at = none;
}

-- `json.Marshal(req.Params)`
abbrev pub params_value : Option Fields → Value
params_value none = null
params_value (some fs) = obj fs

-- `json.Unmarshal(m.Params, &params)`, with an empty map in place of an error
abbrev pub params_of : Value → Option Fields
params_of null = none
params_of (obj fs) = some fs
params_of _ = some end

-- `if m.Params != nil`
abbrev pub stored_params : Option Value → Option Fields
stored_params none = none
stored_params (some v) = params_of v

-- The zero time is no time.
abbrev pub time_if_set : ℕ → Option ℕ
time_if_set zero = none
time_if_set (suc t) = some (suc t)

-- `req.FromModel(m)` on a fresh request
unfoldable pub from_model : Notification → SendNotificationReq
from_model m = record {
  idempotency_key = m.idempotency_key;
  source = m.source;
  channel = m.channel;
  kind = m.kind;
  title = m.title;
  message = m.message;
  recipients = m.recipients;
  params = stored_params m.params;
  scheduled_at = time_if_set m.scheduled_at;
  expired_at = time_if_set m.expired_at;
  notification_id = m.id;
}

pub record NotificationAggregate : Type 0 where
  pub id : String
  pub idempotency_key : String
  pub source : String
  pub channel : String
  pub kind : String
  pub status : String
  pub title : String
  pub message : String
  pub recipients : List String
  pub params : Option Fields
  pub provider : String
  pub provider_id : String
  pub expired_at : Option ℕ
  pub sent_at : Option ℕ
  pub scheduled_at : Option ℕ
  pub created_at : ℕ
  pub updated_at : ℕ
  pub deleted_at : Option ℕ
  pub created_by : String
  pub updated_by : String

-- `n.FromModel(model)` on a fresh aggregate. `DeletedAt` points to the time of the mark, which is the
-- zero time for a row that is not deleted.
unfoldable pub aggregate_of : Notification → NotificationAggregate
aggregate_of m = record {
  id = m.id;
  idempotency_key = m.idempotency_key;
  source = m.source;
  channel = m.channel;
  kind = m.kind;
  status = m.status;
  title = m.title;
  message = m.message;
  recipients = m.recipients;
  params = stored_params m.params;
  provider = m.provider;
  provider_id = m.provider_id;
  expired_at = time_if_set m.expired_at;
  sent_at = time_if_set m.sent_at;
  scheduled_at = time_if_set m.scheduled_at;
  created_at = m.created_at;
  updated_at = m.updated_at;
  deleted_at = some (time_or_zero m.deleted_at);
  created_by = m.created_by;
  updated_by = m.updated_by;
}
