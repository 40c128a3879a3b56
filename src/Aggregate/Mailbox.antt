-- ===== src/Aggregate/Mailbox.antt =====
-- internal/aggregate/mailbox.go
use dreon_notification.Prelude.{ℕ, Bool, false, String, Option, none}
use dreon_notification.Go.Text.{trim_space}
use dreon_notification.Model.{Mailbox}
use dreon_notification.Aggregate.{zero_base}

pub record CreateMailboxReq : Type 0 where
  pub user_id : String
  pub title : String
  pub message : String
  pub group : String
  pub notification_id : String

-- `ToModel`
unfoldable pub mailbox_to_model : CreateMailboxReq → Mailbox
mailbox_to_model req = record {
  base = record zero_base { created_by = req.user_id };
  title = trim_space req.title;
  message = req.message;
  is_read = false;
  read_at = none;
  group = trim_space req.group;
  notification_id = req.notification_id;
}

pub record MailboxAggregate : Type 0 where
  pub id : String
  pub title : String
  pub message : String
  pub is_read : Bool
  pub read_at : Option ℕ
  pub group : String
  pub notification_id : String
  pub created_by : String
  pub created_at : ℕ
  pub updated_at : ℕ

-- `FromModel`
abbrev pub mailbox_view : Mailbox → MailboxAggregate
mailbox_view m = record {
  id = m.id;
  title = m.title;
  message = m.message;
  is_read = m.is_read;
  read_at = m.read_at;
  group = m.group;
  notification_id = m.notification_id;
  created_by = m.created_by;
  created_at = m.created_at;
  updated_at = m.updated_at;
}
