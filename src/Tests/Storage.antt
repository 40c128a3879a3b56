-- ===== src/Tests/Storage.antt =====
-- The theorems on the tables, at the fixtures.
use dreon_notification.Prelude.{suc, ◌≡◌, refl, [], ◌∷◌, ltb→lt, leb→le, map}
use dreon_notification.Go.Error.{ok, err, outside}
use dreon_notification.Go.Int.{pos}
use dreon_notification.Model.{Notification}
use dreon_notification.World.{World}
use dreon_notification.Repository.Schema.{notifications}
use dreon_notification.Repository.Notifications.{record_send_failure}
use dreon_notification.Repository.Failure.{
  fail_if, record_send_failure_lem, record_send_failure_overflow,
}
use dreon_notification.Repository.Exhaustion.{fail_all, IsTried, fail_all-IsTried}
use dreon_notification.Tests.{calm_env, tried_row, start}

record_send_failure_lem_example : record_send_failure calm_env "tried" (pos 30) (pos 3600) start ≡ (
  ok tt,
  record start {
    tables = record start.tables {
      notifications = map (fail_if "tried" 0 30 3600) start.notifications;
    };
    calls = suc 0;
  },
)
record_send_failure_lem_example =
    record_send_failure_lem calm_env "tried" 30 3600 start (leb→le 1 30 refl) (leb→le 30 3600 refl)
      refl refl ((λ _. ltb→lt _ _ refl), tt)

-- A row with so many attempts that its delay is out of range.
abbrev worn_row : Notification
worn_row = record tried_row { attempt_count = 60; max_attempts = pos 100 }

abbrev worn : World
worn = record start { tables = record start.tables { notifications = worn_row ∷ [] } }

record_send_failure_overflow_example :
    record_send_failure calm_env "tried" (pos 30) (pos 3600) worn
    ≡ (err (outside "bigint out of range"), record worn { calls = suc 0 })
record_send_failure_overflow_example =
    record_send_failure_overflow calm_env "tried" 30 3600 worn (leb→le 1 30 refl)
      (leb→le 30 3600 refl) refl refl

fail_all-IsTried_example :
    IsTried 5 5 (fail_all calm_env 30 3600 (10 ∷ 20 ∷ 30 ∷ 40 ∷ []) tried_row)
fail_all-IsTried_example =
    fail_all-IsTried calm_env 30 3600 5 refl (ltb→lt _ _ refl) (10 ∷ 20 ∷ 30 ∷ 40 ∷ []) tried_row
      refl refl (ltb→lt _ _ refl) (leb→le _ _ refl)
