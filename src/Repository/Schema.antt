-- ===== src/Repository/Schema.antt =====
-- The four tables that the repositories are made over: internal/repository/notification.go,
-- mailbox.go, fcmtoken.go and pushtopic.go, with the indexes and defaults that the tags of
-- internal/model give their columns.
use dreon_notification.Prelude.{ℕ, true, false, ◌==◌}
use dreon_notification.Go.Int.{ℤ, pos, negsuc}
use dreon_notification.Model.{Notification, Mailbox, UserFcmToken, PushTopic}
use dreon_notification.Repository.{Table}

-- `default:3` of the column `max_attempts`
abbrev pub default_attempts : ℤ → ℤ
default_attempts (pos ℕ.zero) = pos 3
default_attempts (pos (ℕ.suc n)) = pos (ℕ.suc n)
default_attempts (negsuc n) = negsuc n

-- `uniqueIndex:idx_notification_idempotency_key`
abbrev pub notifications : Table Notification
notifications = record {
  rows = λ t. t.notifications;
  put_rows = λ rs t. record t { notifications = rs };
  base = λ r. r.base;
  with_base = λ b r. record r { base = b };
  clash = λ r s. r.idempotency_key == s.idempotency_key;
  defaults = λ r. record r { max_attempts = default_attempts r.max_attempts };
}

abbrev pub mailboxes : Table Mailbox
mailboxes = record {
  rows = λ t. t.mailboxes;
  put_rows = λ rs t. record t { mailboxes = rs };
  base = λ r. r.base;
  with_base = λ b r. record r { base = b };
  clash = λ r s. false;
  defaults = λ r. r;
}

-- `uniqueIndex:idx_user_fcm_tokens_token`
abbrev pub fcm_tokens : Table UserFcmToken
fcm_tokens = record {
  rows = λ t. t.fcm_tokens;
  put_rows = λ rs t. record t { fcm_tokens = rs };
  base = λ r. r.base;
  with_base = λ b r. record r { base = b };
  clash = λ r s. r.token == s.token;
  defaults = λ r. r;
}

-- `unique` on the name; `default:true` of `is_active` replaces the zero value false
abbrev pub push_topics : Table PushTopic
push_topics = record {
  rows = λ t. t.push_topics;
  put_rows = λ rs t. record t { push_topics = rs };
  base = λ r. r.base;
  with_base = λ b r. record r { base = b };
  clash = λ r s. r.name == s.name;
  defaults = λ r. record r { is_active = true };
}
