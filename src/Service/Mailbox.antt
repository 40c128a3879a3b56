-- ===== src/Service/Mailbox.antt =====
-- internal/service/mailbox.go. The validator is a parameter; `created == nil` cannot be.
pub mod Access
pub mod Listing
use dreon_notification.Prelude.{ℕ, Bool, ◌||◌, String, ◌==◌, List, map, Option, if◌then◌else◌}
use dreon_notification.Go.Error.{
  Error, internal, bad_request, not_found, new, wrap, context, is_record_not_found,
}
use dreon_notification.Go.Int.{ℤ}
use dreon_notification.World.{World, Env}
use dreon_notification.World.Exec.{Exec, pure, ask, ◌>>=◌, ◌>>◌, guard, map_error}
use dreon_notification.Repository.{create}
use dreon_notification.Repository.Schema.{mailboxes}
use dreon_notification.Repository.Mailboxes.{
  list_by_created_by, find_one_by_id_and_created_by, mark_read,
}
use dreon_notification.Aggregate.Mailbox.{
  CreateMailboxReq, MailboxAggregate, mailbox_to_model, mailbox_view,
}
use dreon_notification.Service.Send.{or_fail}
use dreon_notification.Service.Queue.{refuse_invalid}

-- An error of `MarkRead`, as the caller gets it.
unfoldable pub mark_error : Error → Error
mark_error e =
    if is_record_not_found e
    then new not_found "mailbox not found"
    else wrap internal (context "mark mailbox read" e)

module _ (env : Env) where
  unfoldable pub create_mailbox :
      (CreateMailboxReq → Option Error) → CreateMailboxReq → Exec MailboxAggregate
  create_mailbox validate req = do
    refuse_invalid (validate req)
    created ←
        map_error (λ e. wrap internal (context "create mailbox" e))
          (create env mailboxes (mailbox_to_model req))
    guard (created.id == "") (new internal "mailbox created but ID is empty")
    pure (mailbox_view created)

  unfoldable pub list_for_user : String → ℤ → Exec (List MailboxAggregate)
  list_for_user user limit = do
    guard (user == "") (new bad_request "user id is required")
    rows ←
        map_error (λ e. wrap internal (context "list mailbox" e))
          (list_by_created_by env user limit)
    pure (map mailbox_view rows)

  unfoldable pub get_for_user : String → String → Exec MailboxAggregate
  get_for_user id user = do
    guard (id == "" || user == "") (new bad_request "id and user id are required")
    found ← find_one_by_id_and_created_by env id user
    row ← or_fail found (new not_found "mailbox not found")
    pure (mailbox_view row)

  unfoldable pub mark_as_read : String → String → Exec (Unit {0})
  mark_as_read id user = do
    guard (id == "" || user == "") (new bad_request "id and user id are required")
    now ← ask env.clock
    map_error mark_error (mark_read env id user now)
