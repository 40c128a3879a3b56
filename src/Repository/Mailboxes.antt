-- ===== src/Repository/Mailboxes.antt =====
-- internal/repository/mailbox.go
use dreon_notification.Prelude.{
  ℕ, Bool, true, ◌&&◌, ◌||◌, String, ◌==◌, List, [], Option, none, some, take, select, sort_desc,
  leb, if◌then◌else◌,
}
use dreon_notification.Go.Error.{record_not_found}
use dreon_notification.Go.Int.{ℤ, is_nonpositive, to_ℕ}
use dreon_notification.Model.{Mailbox}
use dreon_notification.World.{Env}
use dreon_notification.World.Exec.{Exec, pure, gets, ◌>>=◌, ◌>>◌, guard}
use dreon_notification.Repository.{db_call, scan, is_live, has_id, find_one, update_where}
use dreon_notification.Repository.Schema.{mailboxes}

-- `id = ? AND created_by = ?`
unfoldable pub is_owned : String → String → Mailbox → Bool
is_owned id created_by r = has_id mailboxes id r && r.created_by == created_by

abbrev pub limited : ℤ → List Mailbox → List Mailbox
limited limit rs = if is_nonpositive limit then rs else take (to_ℕ limit) rs

abbrev pub mark : ℕ → Mailbox → Mailbox
mark read_at r = record r { is_read = true; read_at = some read_at }

module _ (env : Env) where
  unfoldable pub list_by_created_by : String → ℤ → Exec (List Mailbox)
  list_by_created_by created_by limit = if created_by == "" then pure [] else do
    n ← db_call env
    gets λ w. limited limit (
        sort_desc (λ r. r.created_at)
          (scan env mailboxes n
            (select (λ r. is_live mailboxes r && r.created_by == created_by) w.mailboxes)))

  unfoldable pub find_one_by_id_and_created_by : String → String → Exec (Option Mailbox)
  find_one_by_id_and_created_by id created_by =
      if id == "" || created_by == ""
      then pure none
      else find_one env mailboxes (is_owned id created_by)

  unfoldable pub mark_read : String → String → ℕ → Exec (Unit {0})
  mark_read id created_by read_at = do
    guard (id == "" || created_by == "") record_not_found
    met ← update_where env mailboxes (is_owned id created_by) (mark read_at)
    guard (leb met 0) record_not_found
