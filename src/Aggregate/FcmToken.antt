-- ===== src/Aggregate/FcmToken.antt =====
-- internal/aggregate/fcmtoken.go
use dreon_notification.Prelude.{ℕ, String, Option, none, some}
use dreon_notification.Go.Value.{Value, obj, Fields, end}
use dreon_notification.Model.{UserFcmToken}

pub record RegisterUserFcmTokenReq : Type 0 where
  pub user_id : String
  pub token : String
  pub platform : String
  -- an empty map counts as none
  pub device_metadata : Fields

pub record UserFcmTokenAggregate : Type 0 where
  pub id : String
  pub user_id : String
  pub token : String
  pub platform : String
  pub device_metadata : Fields
  pub created_at : ℕ
  pub updated_at : ℕ

-- A document that is no object leaves the map nil.
abbrev pub metadata_view : Option Value → Fields
metadata_view none = end
metadata_view (some (obj fs)) = fs
metadata_view (some _) = end

-- `FromModel`
abbrev pub token_view : UserFcmToken → UserFcmTokenAggregate
token_view m = record {
  id = m.id;
  user_id = m.created_by;
  token = m.token;
  platform = m.platform;
  device_metadata = metadata_view m.device_metadata;
  created_at = m.created_at;
  updated_at = m.updated_at;
}
