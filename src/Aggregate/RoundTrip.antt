-- ===== src/Aggregate/RoundTrip.antt =====
-- What is published on a queue is what its consumer reads, and a request keeps its content on the way
-- through the table.
use dreon_notification.Prelude.{
  ℕ, zero, suc, ◌≡◌, ◌≢◌, refl, String, eq_iff, List, [], ◌∷◌, Option, none, some, arith,
}
use dreon_notification.Go.Value.{Value, Fields, marshal, get_field}
use dreon_notification.Go.Int.{ℤ}
use dreon_notification.Model.{BaseModel}
use dreon_notification.Aggregate.{
  SendNotificationReq, to_model, from_model, params_value, params_of, time_or_zero, time_if_set,
}
use dreon_notification.Aggregate.Payload.{
  NotificationEnqueuePayload, enqueue_value, enqueue_payload, retry_value, retry_payload, req_value,
  req_of, req_of_fields, strings_value, strings_of_elements, time_value, time_of, map_of, string_of,
  id_fields,
}

strings_round_trip : (ss : List String) → strings_of_elements (strings_value ss) ≡ some ss
strings_round_trip [] = refl
strings_round_trip (s ∷ ss) = ground (arith, strings_round_trip ss)

time_round_trip : (t : Option ℕ) → time_of (some (time_value t)) ≡ some t
time_round_trip none = refl
time_round_trip (some t) = refl

map_round_trip : (p : Option Fields) → map_of (some (params_value p)) ≡ some p
map_round_trip none = refl
map_round_trip (some fs) = refl

id_round_trip : (id : String) → string_of (get_field "notificationId" (id_fields id)) ≡ some id
unfolding get_field
id_round_trip id = ground (arith, eq_iff id "")

req_round_trip : (req : SendNotificationReq) → req_of (some (req_value req)) ≡ some req
unfolding req_value req_of_fields get_field
req_round_trip req = simp (
  strings_round_trip req.recipients,
  map_round_trip req.params,
  time_round_trip req.scheduled_at,
  time_round_trip req.expired_at,
  id_round_trip req.notification_id,
)

marshal-eq : (v d : Value) → marshal v ≡ some d → v ≡ d
unfolding marshal
marshal-eq v d h = ground arith

enqueue_round_trip :
    (p : NotificationEnqueuePayload) → enqueue_payload (some (enqueue_value p)) ≡ some p
unfolding enqueue_payload enqueue_value
enqueue_round_trip p = simp (req_round_trip p.req)

-- Whatever is marshalled for the send topic is what the consumer of that topic reads back.
pub enqueue_payload-marshal :
    (p : NotificationEnqueuePayload) (d : Value)
    → marshal (enqueue_value p) ≡ some d
    → enqueue_payload (some d) ≡ some p
enqueue_payload-marshal p d h = rw (← marshal-eq (enqueue_value p) d h) (enqueue_round_trip p)

-- Likewise for the retry topic.
pub retry_payload-retry_value : (id : String) → retry_payload (some (retry_value id)) ≡ some id
unfolding retry_payload retry_value
retry_payload-retry_value id = refl

time_if_set-time_or_zero : (t : Option ℕ) → t ≢ some 0 → time_if_set (time_or_zero t) ≡ t
time_if_set-time_or_zero none h = refl
time_if_set-time_or_zero (some zero) h = absurd (h refl)
time_if_set-time_or_zero (some (suc t)) h = refl

params_of-params_value : (p : Option Fields) → params_of (params_value p) ≡ p
params_of-params_value none = refl
params_of-params_value (some fs) = refl

-- The row that `ToModel` makes, with its parameters, its database columns and its attempt limit filled
-- in, gives the request back, now with the row's id, unless a time of the request is the zero time.
pub from_model-to_model :
    (req : SendNotificationReq) (b : BaseModel) (limit : ℤ)
    → req.scheduled_at ≢ some 0
    → req.expired_at ≢ some 0
    → from_model (record (to_model req) {
      base = b;
      params = some (params_value req.params);
      max_attempts = limit;
    })
      ≡ record req { notification_id = b.id }
unfolding from_model to_model
from_model-to_model req b limit h k = simp (
  params_of-params_value req.params,
  time_if_set-time_or_zero req.scheduled_at h,
  time_if_set-time_or_zero req.expired_at k,
)
