-- ===== src/Repository/FcmTokens.antt =====
-- internal/repository/fcmtoken.go
use dreon_notification.Prelude.{
  ◌&&◌, ◌||◌, String, ◌==◌, List, [], Option, none, select, sort_desc, leb, if◌then◌else◌,
}
use dreon_notification.Go.Error.{record_not_found}
use dreon_notification.Model.{UserFcmToken}
use dreon_notification.World.{Env}
use dreon_notification.World.Exec.{Exec, pure, gets, ◌>>=◌, ◌>>◌, guard}
use dreon_notification.Repository.{db_call, scan, is_live, has_id, find_one, delete_where}
use dreon_notification.Repository.Schema.{fcm_tokens}

module _ (env : Env) where
  unfoldable pub find_by_token : String → Exec (Option UserFcmToken)
  find_by_token token =
      if token == "" then pure none else find_one env fcm_tokens (λ r. r.token == token)

  unfoldable pub list_by_created_by : String → Exec (List UserFcmToken)
  list_by_created_by created_by = if created_by == "" then pure [] else do
    n ← db_call env
    gets λ w.
        sort_desc (λ r. r.updated_at)
          (scan env fcm_tokens n
            (select (λ r. is_live fcm_tokens r && r.created_by == created_by) w.fcm_tokens))

  unfoldable pub delete_by_id_and_created_by : String → String → Exec (Unit {0})
  delete_by_id_and_created_by id created_by = do
    guard (id == "" || created_by == "") record_not_found
    met ← delete_where env fcm_tokens (λ r. has_id fcm_tokens id r && r.created_by == created_by)
    guard (leb met 0) record_not_found
