-- ===== src/Aggregate/Payload.antt =====
-- internal/aggregate/notification.go: the payloads of the two queues as JSON documents, encoded by the
-- struct tags and decoded by their keys. A nil slice and an empty one are not told apart, and an
-- object's keys are taken to be distinct and spelled as in the tags.
use dreon_notification.Prelude.{ℕ, String, ◌==◌, List, [], ◌∷◌, Option, none, some, if◌then◌else◌}
use dreon_notification.Go.Value.{
  Value, null, str, timestamp, arr, obj, Elements, no_elements, element, Fields, end, field,
  get_field,
}
use dreon_notification.Aggregate.{SendNotificationReq, params_value, empty_req}

-- Encoding by the struct tags.
abbrev pub strings_value : List String → Elements
strings_value [] = no_elements
strings_value (s ∷ ss) = element (str s) (strings_value ss)

abbrev pub time_value : Option ℕ → Value
time_value none = null
time_value (some t) = timestamp t

-- `omitempty`
abbrev pub id_fields : String → Fields
id_fields id = if id == "" then end else field "notificationId" (str id) end

unfoldable pub req_value : SendNotificationReq → Value
req_value req = obj (
    field "idempotencyKey" (str req.idempotency_key) (
      field "source" (str req.source) (
        field "channel" (str req.channel) (
          field "type" (str req.kind) (
            field "title" (str req.title) (
              field "message" (str req.message) (
                field "recipients" (arr (strings_value req.recipients)) (
                  field "params" (params_value req.params) (
                    field "scheduledAt" (time_value req.scheduled_at) (
                      field "expiredAt" (time_value req.expired_at)
                        (id_fields req.notification_id)))))))))))

pub record NotificationEnqueuePayload : Type 0 where
  pub notification_id : String
  pub req : SendNotificationReq

unfoldable pub enqueue_value : NotificationEnqueuePayload → Value
unfolding req_value
enqueue_value p =
    obj (field "notificationId" (str p.notification_id) (field "req" (req_value p.req) end))

-- NotificationRetryPayload
unfoldable pub retry_value : String → Value
retry_value id = obj (field "notificationId" (str id) end)

infixl 5 ◌>>=◌
abbrev ◌>>=◌ {ℓ κ} : {A : Type ℓ} {B : Type κ} → Option A → (A → Option B) → Option B
none >>= f = none
some a >>= f = f a

-- Decoding: a member that is missing or null leaves the zero value, one of another kind is an error.
abbrev pub string_of : Option Value → Option String
string_of none = some ""
string_of (some null) = some ""
string_of (some (str s)) = some s
string_of (some _) = none

abbrev pub strings_of_elements : Elements → Option (List String)
strings_of_elements no_elements = some []
strings_of_elements (element v vs) = do
  s ← string_of (some v)
  ss ← strings_of_elements vs
  some (s ∷ ss)

abbrev pub strings_of : Option Value → Option (List String)
strings_of none = some []
strings_of (some null) = some []
strings_of (some (arr vs)) = strings_of_elements vs
strings_of (some _) = none

abbrev pub map_of : Option Value → Option (Option Fields)
map_of none = some none
map_of (some null) = some none
map_of (some (obj fs)) = some (some fs)
map_of (some _) = none

abbrev pub time_of : Option Value → Option (Option ℕ)
time_of none = some none
time_of (some null) = some none
time_of (some (timestamp t)) = some (some t)
time_of (some _) = none

unfoldable pub req_of_fields : Fields → Option SendNotificationReq
unfolding get_field
req_of_fields fs = do
  key ← string_of (get_field "idempotencyKey" fs)
  source ← string_of (get_field "source" fs)
  channel ← string_of (get_field "channel" fs)
  kind ← string_of (get_field "type" fs)
  title ← string_of (get_field "title" fs)
  message ← string_of (get_field "message" fs)
  recipients ← strings_of (get_field "recipients" fs)
  params ← map_of (get_field "params" fs)
  scheduled ← time_of (get_field "scheduledAt" fs)
  expired ← time_of (get_field "expiredAt" fs)
  id ← string_of (get_field "notificationId" fs)
  some (record {
    idempotency_key = key;
    source = source;
    channel = channel;
    kind = kind;
    title = title;
    message = message;
    recipients = recipients;
    params = params;
    scheduled_at = scheduled;
    expired_at = expired;
    notification_id = id;
  })

abbrev pub req_of : Option Value → Option SendNotificationReq
req_of none = some empty_req
req_of (some null) = some empty_req
req_of (some (obj fs)) = req_of_fields fs
req_of (some _) = none

abbrev enqueue_of_fields : Fields → Option NotificationEnqueuePayload
unfolding get_field
enqueue_of_fields fs = do
  id ← string_of (get_field "notificationId" fs)
  req ← req_of (get_field "req" fs)
  some (record { notification_id = id; req = req })

-- `json.Unmarshal(msg.Payload, &payload)` for the send topic
unfoldable pub enqueue_payload : Option Value → Option NotificationEnqueuePayload
unfolding req_of_fields get_field
enqueue_payload none = none
enqueue_payload (some null) = some (record { notification_id = ""; req = empty_req })
enqueue_payload (some (obj fs)) = enqueue_of_fields fs
enqueue_payload (some _) = none

-- … and for the retry topic
unfoldable pub retry_payload : Option Value → Option String
unfolding get_field
retry_payload none = none
retry_payload (some null) = some ""
retry_payload (some (obj fs)) = string_of (get_field "notificationId" fs)
retry_payload (some _) = none
