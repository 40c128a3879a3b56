-- ===== src/Service/FcmToken.antt =====
-- internal/service/fcmtoken.go
pub mod Removal
pub mod Owners
pub mod Steps
pub mod Registration
pub mod Spent
use dreon_notification.Prelude.{
  ℕ, Bool, ◌||◌, String, ◌==◌, List, map, Option, none, some, if◌then◌else◌,
}
use dreon_notification.Go.Error.{
  Error, internal, bad_request, not_found, new, wrap, context, plain, is_record_not_found,
}
use dreon_notification.Go.Text.{trim_space}
use dreon_notification.Go.Value.{Value, obj, Fields, end, field, marshal}
use dreon_notification.Model.{UserFcmToken}
use dreon_notification.World.{World, Env}
use dreon_notification.World.Exec.{Exec, pure, raise, ◌>>=◌, ◌>>◌, guard, map_error}
use dreon_notification.Repository.{create, update, find_one_by_id}
use dreon_notification.Repository.Schema.{fcm_tokens}
use dreon_notification.Repository.FcmTokens.{
  find_by_token, list_by_created_by, delete_by_id_and_created_by,
}
use dreon_notification.Aggregate.{zero_base}
use dreon_notification.Aggregate.FcmToken.{
  RegisterUserFcmTokenReq, UserFcmTokenAggregate, token_view,
}
use dreon_notification.Service.Send.{or_fail}
use dreon_notification.Service.Queue.{refuse_invalid}

-- The column for the metadata: nil for an empty map.
abbrev pub metadata_column : Fields → Exec (Option Value)
metadata_column end = pure none
metadata_column (field k v fs) = do
  document ←
      or_fail (marshal (obj (field k v fs)))
        (wrap bad_request (context "deviceMetadata" (plain "json: unsupported value")))
  pure (some document)

abbrev pub assign_token : RegisterUserFcmTokenReq → Option Value → UserFcmToken → UserFcmToken
assign_token req meta r = record r {
  base = record r.base { created_by = req.user_id };
  platform = req.platform;
  device_metadata = meta;
}

abbrev pub token_row : RegisterUserFcmTokenReq → String → Option Value → UserFcmToken
token_row req token meta = record {
  base = record zero_base { created_by = req.user_id };
  token = token;
  platform = req.platform;
  device_metadata = meta;
}

unfoldable pub delete_error : Error → Error
delete_error e =
    if is_record_not_found e
    then new not_found "fcm token not found"
    else wrap internal (context "delete fcm token" e)

module _ (env : Env) where
  unfoldable pub store_token :
      RegisterUserFcmTokenReq
      → String
      → Option Value
      → Option UserFcmToken
      → Exec UserFcmTokenAggregate
  store_token req token meta (some existing) = do
    map_error (λ e. wrap internal (context "update fcm token" e))
        (update env fcm_tokens existing.id (assign_token req meta))
    found ← find_one_by_id env fcm_tokens existing.id
    updated ← or_fail found (new internal "fcm token updated but row not found")
    pure (token_view updated)
  store_token req token meta none = do
    created ←
        map_error (λ e. wrap internal (context "create fcm token" e))
          (create env fcm_tokens (token_row req token meta))
    guard (created.id == "") (new internal "fcm token created but ID is empty")
    pure (token_view created)

  unfoldable pub register :
      (RegisterUserFcmTokenReq → Option Error)
      → RegisterUserFcmTokenReq
      → Exec UserFcmTokenAggregate
  register validate req = do
    refuse_invalid (validate req)
    guard (trim_space req.token == "") (new bad_request "token is required")
    meta ← metadata_column req.device_metadata
    existing ← find_by_token env (trim_space req.token)
    store_token req (trim_space req.token) meta existing

  unfoldable pub tokens_for_user : String → Exec (List UserFcmTokenAggregate)
  tokens_for_user user = do
    guard (user == "") (new bad_request "user id is required")
    rows ←
        map_error (λ e. wrap internal (context "list fcm tokens" e)) (list_by_created_by env user)
    pure (map token_view rows)

  unfoldable pub delete_for_user : String → String → Exec (Unit {0})
  delete_for_user id user = do
    guard (id == "" || user == "") (new bad_request "id and user id are required")
    map_error delete_error (delete_by_id_and_created_by env id user)
