-- ===== src/Repository/Failure.antt =====
-- internal/repository/notification.go, `RecordSendFailure`: what the UPDATE does to a row, and how
-- long a row that keeps failing stays PENDING.
use dreon_notification.Prelude.{
  ℕ, suc, ◌+◌, ◌*◌, ◌^◌, ◌≤◌, ◌<◌, ◌≡◌, refl, true, String, ◌==◌, List, [], ◌∷◌, map, none, some,
  arith, min, leb, ◌&&◌, any, lt→ltb, Bool-cases, inl, inr, if◌then◌else◌, All,
}
use dreon_notification.Go.Error.{ok, err, outside}
use dreon_notification.Go.Int.{pos, nat_lt_int, second}
use dreon_notification.Model.{Notification, status_failed}
use dreon_notification.World.{World, Env}
use dreon_notification.Repository.{db_call}
use dreon_notification.Repository.Notifications.{
  clamp_initial, clamp_max, backoff, failed_row, fail_rows, fail_update, record_send_failure,
}

-- The README's formula: min(initial × 2^attempt_count, max).
abbrev pub delay_formula : ℕ → ℕ → ℕ → ℕ
delay_formula initial max attempts = min (initial * 2 ^ attempts) max

-- The row after a failed send at `now`.
abbrev pub after_failure : ℕ → ℕ → ℕ → Notification → Notification
after_failure now initial max r =
    if nat_lt_int (suc r.attempt_count) r.max_attempts
    then record r {
      attempt_count = suc r.attempt_count;
      next_retry_at = some (now + delay_formula initial max r.attempt_count * second);
    }
    else record r { attempt_count = suc r.attempt_count; status = status_failed }

abbrev pub InRange : ℕ → Notification → Type 0
InRange initial r = initial * 2 ^ r.attempt_count < 2 ^ 63

-- A row that has the id is taken as after a failure, the others as they are.
abbrev pub fail_if : String → ℕ → ℕ → ℕ → Notification → Notification
fail_if id now initial max r = if r.id == id then after_failure now initial max r else r

clamps_idle :
    (lo hi : ℕ)
    → 1 ≤ lo
    → lo ≤ hi
    → (clamp_initial (pos lo) ≡ pos lo) × (clamp_max (pos lo) (pos hi) ≡ pos hi)
unfolding clamp_initial clamp_max
clamps_idle lo hi h k = ground arith

module _ (env : Env) where
  backoff-eq-some :
      (initial attempts : ℕ)
      → env.to_double initial ≡ initial
      → initial * 2 ^ attempts < 2 ^ 63
      → backoff env initial attempts ≡ some (initial * 2 ^ attempts)
  unfolding backoff
  backoff-eq-some initial attempts exact h = rw (exact, lt→ltb _ _ h)

  pub failed_row_lem :
      (now initial max : ℕ) (r : Notification)
      → env.to_double initial ≡ initial
      → InRange initial r
      → failed_row env now initial max r ≡ some (after_failure now initial max r)
  unfolding failed_row
  failed_row_lem now initial max r exact h =
      rw (failed_row, backoff-eq-some initial r.attempt_count exact h)
        (elim (Bool-cases (nat_lt_int (suc r.attempt_count) r.max_attempts)) [
          | inl e ↦ rw e
          | inr e ↦ rw e
        ])

  fail_rows_lem :
      (id : String) (now initial max : ℕ) (rs : List Notification)
      → env.to_double initial ≡ initial
      → All (λ r. (r.id == id) ≡ true → InRange initial r) rs
      → fail_rows id (failed_row env now initial max) rs
        ≡ some (map (fail_if id now initial max) rs)
  unfolding fail_rows
  fail_rows_lem id now initial max [] exact _ = refl
  fail_rows_lem id now initial max (r ∷ rs) exact (h, hs) =
      rw (fail_rows_lem id now initial max rs exact hs) (elim (Bool-cases (r.id == id)) [
        | inl e ↦ rw (e, failed_row_lem now initial max r exact (h e))
        | inr e ↦ rw e
      ])

  -- With a working database, an initial delay that a double holds exactly and delays that fit a
  -- `bigint`, one call raises the count of the row with this id, and puts its retry off by
  -- min(initial * 2^attempts, max) seconds or, at the limit, makes it FAILED; every other row and
  -- all else stay as they are, but for the number of calls.
  pub record_send_failure_lem :
      (id : String) (lo hi : ℕ) (w : World)
      → 1 ≤ lo
      → lo ≤ hi
      → env.to_double lo ≡ lo
      → env.db_fault w.calls ≡ none
      → All (λ r. (r.id == id) ≡ true → InRange lo r) w.notifications
      → record_send_failure env id (pos lo) (pos hi) w ≡ (
        ok tt,
        record w {
          tables = record w.tables {
            notifications = map (fail_if id (env.clock w.calls) lo hi) w.notifications;
          };
          calls = suc w.calls;
        },
      )
  unfolding record_send_failure fail_update db_call
  record_send_failure_lem id lo hi w h k exact up fits =
      let (low, high) = clamps_idle lo hi h k in
      rw (up, low, high, fail_rows_lem id (env.clock w.calls) lo hi w.notifications exact fits)

  -- The statement fails as a whole, and nothing changes, where a row with this id has attempts left
  -- and its delay does not fit a `bigint`.
  fail_rows_overflow :
      (id : String) (now initial max : ℕ) (rs : List Notification)
      → any
          (λ r.
            r.id == id
            && nat_lt_int (suc r.attempt_count) r.max_attempts
            && leb (2 ^ 63) (env.to_double initial * 2 ^ r.attempt_count))
          rs
        ≡ true
      → fail_rows id (failed_row env now initial max) rs ≡ none
  unfolding fail_rows failed_row backoff
  fail_rows_overflow id now initial max [] h = cc
  fail_rows_overflow id now initial max (r ∷ rs) h =
      ground (arith, fail_rows_overflow id now initial max rs)

  -- Where a row with this id has attempts left and a delay that does not fit a `bigint`, the
  -- statement fails and nothing changes but the number of calls: the count of attempts stays as it
  -- is.
  pub record_send_failure_overflow :
      (id : String) (lo hi : ℕ) (w : World)
      → 1 ≤ lo
      → lo ≤ hi
      → env.db_fault w.calls ≡ none
      → any
          (λ r.
            r.id == id
            && nat_lt_int (suc r.attempt_count) r.max_attempts
            && leb (2 ^ 63) (env.to_double lo * 2 ^ r.attempt_count))
          w.notifications
        ≡ true
      → record_send_failure env id (pos lo) (pos hi) w
        ≡ (err (outside "bigint out of range"), record w { calls = suc w.calls })
  unfolding record_send_failure fail_update db_call
  record_send_failure_overflow id lo hi w h k up over =
      let (low, high) = clamps_idle lo hi h k in
      rw (up, low, high, fail_rows_overflow id (env.clock w.calls) lo hi w.notifications over)
