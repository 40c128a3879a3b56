-- ===== src/Repository/Notifications.antt =====
-- internal/repository/notification.go: transactions, the claim of due retries, the record of a failed
-- send, and the search for due scheduled notifications.
use dreon_notification.Prelude.{
  ℕ, suc, ◌+◌, ◌*◌, ◌^◌, Bool, true, ◌&&◌, not, String, ◌==◌, List, [], ◌∷◌, Option, none, some,
  ltb, leb, min, take, select, sort_by, if◌then◌else◌,
}
use dreon_notification.Go.Error.{Result, ok, err, outside}
use dreon_notification.Go.Int.{ℤ, pos, is_nonpositive, nat_lt_int, int_lt, to_ℕ, second}
use dreon_notification.Model.{Notification, status_pending, status_failed}
use dreon_notification.World.{Tables, World, Env}
use dreon_notification.World.Exec.{Exec, pure, raise, gets, ◌>>=◌, modify, set_tables, attempt}
use dreon_notification.Repository.{db_call, scan, update_where, has_id, is_live, store}
use dreon_notification.Repository.Schema.{notifications}

-- `status = PENDING AND attempt_count = 0 AND scheduled_at > zero AND scheduled_at <= notAfter`
unfoldable pub is_due_scheduled : ℕ → Notification → Bool
is_due_scheduled not_after r =
    is_live notifications r
    && r.status == status_pending
    && leb r.attempt_count 0
    && ltb 0 r.scheduled_at
    && leb r.scheduled_at not_after

abbrev pub not_after_or_unset : ℕ → Option ℕ → Bool
not_after_or_unset now none = true
not_after_or_unset now (some t) = leb t now

-- `status = PENDING AND attempt_count >= 1 AND attempt_count < max_attempts
--  AND (next_retry_at IS NULL OR next_retry_at <= notAfter)`
unfoldable pub is_due_retry : ℕ → Notification → Bool
is_due_retry not_after r =
    is_live notifications r
    && r.status == status_pending
    && leb 1 r.attempt_count
    && nat_lt_int r.attempt_count r.max_attempts
    && not_after_or_unset not_after r.next_retry_at

-- The two clamps before the statement.
unfoldable pub clamp_initial : ℤ → ℤ
clamp_initial initial = if is_nonpositive initial then pos 1 else initial

unfoldable pub clamp_max : ℤ → ℤ → ℤ
clamp_max initial max =
    let m = if is_nonpositive max then initial else max in if int_lt m initial then initial else m

abbrev pub put_off : ℕ → ℕ → Notification → Option ℕ → Option Notification
put_off now max r none = none
put_off now max r (some delay) = some (record r {
  attempt_count = suc r.attempt_count;
  next_retry_at = some (now + min delay max * second);
})

abbrev pub cons_row : Option Notification → Option (List Notification) → Option (List Notification)
cons_row (some r) (some rs) = some (r ∷ rs)
cons_row (some r) none = none
cons_row none o = none

-- The statement on the rows `WHERE id = ?`, deleted ones included: an error in one row fails it.
unfoldable pub fail_rows :
    String → (Notification → Option Notification) → List Notification → Option (List Notification)
fail_rows id f [] = some []
fail_rows id f (r ∷ rs) = cons_row (if r.id == id then f r else some r) (fail_rows id f rs)

abbrev pub store_or_fail : Option (List Notification) → Exec (Unit {0})
store_or_fail none = raise (outside "bigint out of range")
store_or_fail (some rs) = modify (store notifications rs)

-- The end of a transaction: an error of the body, or of the commit itself, restores the tables.
abbrev pub end_of_commit {ℓ} : {A : Type ℓ} → Tables → A → Result ℕ → World → Result A × World
end_of_commit before a (ok n) w = (ok a, w)
end_of_commit before a (err e) w = (err e, set_tables before w)

module _ (env : Env) where
  abbrev pub commit {ℓ} : {A : Type ℓ} → Tables → Result A → World → Result A × World
  commit before (ok a) w = let (r, w') = db_call env w in end_of_commit before a r w'
  commit before (err e) w = (err e, set_tables before w)

  -- The body between the start of the transaction and its end.
  unfoldable pub transaction_body {ℓ} : {A : Type ℓ} → Exec A → Exec A
  transaction_body body = do before ← gets (λ w. w.tables); r ← attempt body; commit before r

  unfoldable pub run_in_transaction {ℓ} : {A : Type ℓ} → Exec A → Exec A
  run_in_transaction body = do n ← db_call env; transaction_body body

  unfoldable pub find_due_scheduled : ℤ → ℕ → Exec (List Notification)
  unfolding db_call
  find_due_scheduled limit not_after = if is_nonpositive limit then pure [] else do
    n ← db_call env
    gets λ w. take (to_ℕ limit) (
        sort_by (λ r. r.scheduled_at)
          (scan env notifications n (select (is_due_scheduled not_after) w.notifications)))

  -- `FOR UPDATE SKIP LOCKED`
  unfoldable pub lock_pending_retries_due : ℤ → ℕ → Exec (List Notification)
  unfolding db_call
  lock_pending_retries_due limit not_after = if is_nonpositive limit then pure [] else do
    n ← db_call env
    gets λ w. take (to_ℕ limit) (
        scan env notifications n
          (select (λ r. is_due_retry not_after r && not (env.locked n r.id)) w.notifications))

  unfoldable pub update_next_retry_at : String → ℕ → Exec (Unit {0})
  update_next_retry_at id at = do
    n ←
        update_where env notifications (has_id notifications id)
          (λ r. record r { next_retry_at = some at })
    pure tt

  -- `initial::double precision * POWER(2, attempt_count)`, cast to `bigint`: none if that is out of
  -- range.
  unfoldable pub backoff : ℕ → ℕ → Option ℕ
  backoff initial attempts =
      let product = env.to_double initial * 2 ^ attempts in
      if ltb product (2 ^ 63) then some product else none

  -- The SET clause on one row. `attempt_count` on the right is the old value.
  unfoldable pub failed_row : ℕ → ℕ → ℕ → Notification → Option Notification
  failed_row now initial max r =
      if nat_lt_int (suc r.attempt_count) r.max_attempts
      then put_off now max r (backoff initial r.attempt_count)
      else some (record r { attempt_count = suc r.attempt_count; status = status_failed })

  -- The UPDATE, with the clamped settings.
  unfoldable pub fail_update : String → ℕ → ℕ → ℕ → Exec (Unit {0})
  fail_update id initial max now = do
    rs ← gets (λ w. w.notifications)
    store_or_fail (fail_rows id (failed_row now initial max) rs)

  unfoldable pub record_send_failure : String → ℤ → ℤ → Exec (Unit {0})
  record_send_failure id initial max = do
    n ← db_call env
    let lo = clamp_initial initial
    fail_update id (to_ℕ lo) (to_ℕ (clamp_max lo max)) (env.clock n)
