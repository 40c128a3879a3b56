-- ===== src/Repository/Exhaustion.antt =====
-- A row whose sends keep failing ends as FAILED with its last attempt, and not before.
use native.Mathlib.Nat.{pow-le-pow_right}
use dreon_notification.Prelude.{
  ℕ, suc, ◌+◌, ◌*◌, ◌^◌, ◌≤◌, ◌<◌, ◌≡◌, refl, String, List, [], ◌∷◌, Option, none, some, arith, ltb,
  lt→ltb, length, if◌then◌else◌,
}
use dreon_notification.Go.Int.{pos, second}
use dreon_notification.Model.{Notification, status_pending, status_failed}
use dreon_notification.World.{Env}
use dreon_notification.Repository.Notifications.{failed_row}
use dreon_notification.Repository.Failure.{after_failure, delay_formula, InRange, failed_row_lem}

abbrev pub next_failure {ℓ} : {A : Type ℓ} → Option A → (A → Option A) → Option A
next_failure none f = none
next_failure (some a) f = f a

-- The row after failed sends at the given times, oldest first.
unfoldable pub fail_all : Env → ℕ → ℕ → List ℕ → Notification → Option Notification
fail_all env initial max [] r = some r
fail_all env initial max (now ∷ later) r =
    next_failure (failed_row env now initial max r) (fail_all env initial max later)

abbrev pub status_after : ℕ → ℕ → String
status_after attempts limit = if ltb attempts limit then status_pending else status_failed

-- What is known of the row after some failures.
pub record IsTried (attempts limit : ℕ) (o : Option Notification) : Type 0 where
  pub row : Notification
  pub is_row : o ≡ some row
  pub counted : row.attempt_count ≡ attempts
  pub status_is : row.status ≡ status_after attempts limit

in_range :
    (initial limit : ℕ) (r : Notification)
    → r.attempt_count ≤ limit
    → initial * 2 ^ limit < 2 ^ 63
    → InRange initial r
in_range initial limit r h k =
    let powers = pow-le-pow_right {n = 2} (omega arith) h in grind (arith, powers)

shift : (a n : ℕ) → a + suc n ≡ suc a + n
shift a n = omega arith

module _ (env : Env) (initial max limit : ℕ) (exact : env.to_double initial ≡ initial)
    (fits : initial * 2 ^ limit < 2 ^ 63) where
  -- With an initial delay that a double holds exactly and delays that fit a `bigint`: a PENDING row
  -- with attempts left is still PENDING after any number of failed sends that stays below its
  -- limit, and FAILED after the one that reaches it, and its count is the number of attempts.
  pub fail_all-IsTried :
      (times : List ℕ) (r : Notification)
      → r.max_attempts ≡ pos limit
      → r.status ≡ status_pending
      → r.attempt_count < limit
      → r.attempt_count + length times ≤ limit
      → IsTried (r.attempt_count + length times) limit (fail_all env initial max times r)
  unfolding fail_all
  fail_all-IsTried [] r m p h k = record {
    row = r;
    is_row = refl;
    counted = omega arith;
    status_is = ground arith;
  }
  fail_all-IsTried (now ∷ []) r m p h k =
      rw (failed_row_lem env now initial max r exact (in_range initial limit r (omega arith) fits))
        (record {
          row = after_failure now initial max r;
          is_row = refl;
          counted = ground arith;
          status_is = ground arith;
        })
  fail_all-IsTried (now ∷ t ∷ later) r m p h k =
      rw (failed_row_lem env now initial max r exact (in_range initial limit r (omega arith) fits))
        (rw (m, lt→ltb (suc r.attempt_count) limit (omega arith))
          (rw (shift r.attempt_count (suc (length later))) (
            fail_all-IsTried (t ∷ later)
              (record r {
                attempt_count = suc r.attempt_count;
                max_attempts = pos limit;
                next_retry_at = some (now + delay_formula initial max r.attempt_count * second);
              })
              refl p (omega arith) (omega arith))))
