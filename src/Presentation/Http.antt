-- ===== src/Presentation/Http.antt =====
-- presentation/http/handler: the responses and the handlers. `c.Bind`, the validator's answer and the
-- names and texts of `errorx` are parameters. A handler acts on the world and gives a response.
pub mod Contract
use dreon_notification.Prelude.{
  ℕ, Bool, String, ◌==◌, List, [], ◌∷◌, map, Option, none, some, ltb, if◌then◌else◌,
}
use dreon_notification.Go.Error.{
  Error, FieldError, Result, ok, err, Code, internal, new, wrap, context, plain, invalid_fields,
  record_not_found, duplicate_key, outside,
}
use dreon_notification.World.{World, Env}
use dreon_notification.World.Exec.{Exec, pure, lift, ◌>>=◌, ◌>>◌, fail_with}
use dreon_notification.Aggregate.{SendNotificationReq}
use dreon_notification.Aggregate.FcmToken.{RegisterUserFcmTokenReq, UserFcmTokenAggregate}
use dreon_notification.Aggregate.PushTopic.{
  CreatePushTopicReq, UpdatePushTopicReq, PushTopicAggregate,
}
use dreon_notification.Service.{NotificationSvc}
use dreon_notification.Service.Queue.{enqueue_notification}
use dreon_notification.Service.FcmToken.{register, tokens_for_user, delete_for_user}
use dreon_notification.Service.PushTopic.{all_topics, create_topic, update_topic}

-- errorx: the number of a code, the message of an `AppError`, `GetErrorMessage` and `GetCode`
pub record Errorx : Type 0 where
  pub number : Code → ℕ
  pub message : Error → String
  pub default_message : Code → String
  pub get_code : Error → Code

-- The `data` of a success, and the bodies: `BaseResp` of a success and of an error, `ValidationErrResp`.
pub data Payload : Type 0 where
  notification_id : String → Payload
  topics : List PushTopicAggregate → Payload
  topic : PushTopicAggregate → Payload
  token : UserFcmTokenAggregate → Payload
  tokens : List UserFcmTokenAggregate → Payload
  nothing : Payload

pub record ValidationErrItem : Type 0 where
  pub field_name : String
  pub message : String

pub data Body : Type 0 where
  success : ℕ → Payload → Body
  failure : ℕ → String → Body
  invalid : ℕ → List ValidationErrItem → Body

pub record Response : Type 0 where
  pub status : ℕ
  pub body : Body

-- `validationTagMessage`
unfoldable pub validation_tag_message : String → String
validation_tag_message tag =
    if tag == "required"
    then "is required"
    else if tag == "min"
    then "is too short"
    else if tag == "max"
    then "is too long"
    else if tag == "email"
    then "must be a valid email"
    else if tag == "gte"
    then "must be greater or equal"
    else if tag == "lte"
    then "must be less or equal"
    else if tag == "oneof"
    then "must be one of the allowed values"
    else "invalid"

-- `errors.As` for the errors of the validator
unfoldable pub as_validation : Error → Option (List FieldError)
as_validation (invalid_fields fs) = some fs
as_validation (new c m) = none
as_validation (wrap c e) = as_validation e
as_validation (context m e) = as_validation e
as_validation (plain m) = none
as_validation record_not_found = none
as_validation duplicate_key = none
as_validation (outside m) = none

-- `errors.As` for an `AppError`: its code, and the error itself
unfoldable pub as_app : Error → Option (Code × Error)
as_app (invalid_fields fs) = none
as_app (new c m) = some (c, new c m)
as_app (wrap c e) = some (c, wrap c e)
as_app (context m e) = as_app e
as_app (plain m) = none
as_app record_not_found = none
as_app duplicate_key = none
as_app (outside m) = none

abbrev pub item : FieldError → ValidationErrItem
item f = record { field_name = f.field_name; message = validation_tag_message f.tag }

abbrev pub invalid_response : ℕ → List FieldError → Response
invalid_response code fs = record { status = 400; body = invalid code (map item fs) }

abbrev pub failure_response : ℕ → ℕ → String → Response
failure_response status code message = record { status = status; body = failure code message }

module _ (x : Errorx) where
  -- The branch for an `AppError`, with the errors of the validator that it wraps.
  abbrev pub app_response : Code → Error → Option (List FieldError) → Response
  app_response c e (some fs) = invalid_response (x.number c) fs
  app_response c e none =
      failure_response (if ltb (x.number c) 500 then x.number c else 500) (x.number c) (x.message e)

  abbrev pub other_response : Option (Code × Error) → Response
  other_response (some (c, e)) = app_response c e (as_validation e)
  other_response none = failure_response 500 (x.number internal) (x.default_message internal)

  abbrev pub error_response : Error → Option (List FieldError) → Response
  error_response e (some fs) = invalid_response 400 fs
  error_response e none = other_response (as_app e)

  -- `HandleError`
  unfoldable pub handle_error : Error → Response
  handle_error e = error_response e (as_validation e)

  -- `HandleSuccess`
  abbrev pub handle_success : Payload → Response
  handle_success p = record { status = 200; body = success 200 p }

  module _ {A : Type 0} (payload : A → Payload) where
    abbrev pub respond : Result A → Response
    respond (ok a) = handle_success (payload a)
    respond (err e) = handle_error e

    abbrev pub serve : Exec A → World → Response × World
    serve m w = let (r, v) = m w in (respond r, v)

-- `HandleValidateBind`: what `c.Bind` gives, if the validator does not refuse it.
abbrev pub validate_bind : {A : Type 0} → Result A → (A → Option Error) → Exec A
validate_bind bound refusal = do req ← lift bound; fail_with (refusal req); pure req

module _ (x : Errorx) (env : Env) where
  -- `HandleSendNotification`
  unfoldable pub handle_send_notification :
      NotificationSvc
      → Result SendNotificationReq
      → (SendNotificationReq → Option Error)
      → World
      → Response × World
  handle_send_notification svc bound refusal =
      serve x notification_id
        (do req ← validate_bind bound refusal; enqueue_notification env svc req)

  -- The handlers of the push topics.
  unfoldable pub handle_get_all_push_topics : World → Response × World
  handle_get_all_push_topics = serve x topics (all_topics env)

  unfoldable pub handle_create_push_topic :
      Result CreatePushTopicReq → (CreatePushTopicReq → Option Error) → World → Response × World
  handle_create_push_topic bound refusal =
      serve x topic (do req ← validate_bind bound refusal; create_topic env refusal req)

  unfoldable pub handle_update_push_topic :
      String
      → Result UpdatePushTopicReq
      → (UpdatePushTopicReq → Option Error)
      → World
      → Response × World
  handle_update_push_topic id bound refusal =
      serve x (λ _. nothing) (do req ← validate_bind bound refusal; update_topic env refusal id req)

  -- The handlers of the device tokens; a query has a user id and nothing else.
  unfoldable pub handle_register :
      Result RegisterUserFcmTokenReq
      → (RegisterUserFcmTokenReq → Option Error)
      → World
      → Response × World
  handle_register bound refusal =
      serve x token (do req ← validate_bind bound refusal; register env refusal req)

  unfoldable pub handle_list : Result String → (String → Option Error) → World → Response × World
  handle_list bound refusal =
      serve x tokens (do user ← validate_bind bound refusal; tokens_for_user env user)

  unfoldable pub handle_delete :
      String → Result String → (String → Option Error) → World → Response × World
  handle_delete id bound refusal =
      serve x (λ _. nothing) (do user ← validate_bind bound refusal; delete_for_user env id user)
