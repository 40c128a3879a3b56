-- ===== src/Service/Lease.antt =====
-- internal/service/notification.go, `EnqueuePendingRetries`, and internal/repository/notification.go,
-- `LockPendingRetriesDue`: what a claim takes, and that a claimed row is not taken again before its
-- lease ends.
pub mod Exclusive
pub mod Claim
pub mod Tick
use mathlib.Core.Path.{subst}
use dreon_notification.Prelude.{
  ℕ, suc, ◌≡◌, ◌⊎◌, refl, ap, ◌∙◌, sym, ◌≤◌, ◌<◌, inl, inr, Bool, true, false, ◌&&◌, ◌||◌, not,
  String, ◌==◌, eq_iff, List, [], ◌∷◌, map, take, select, sort_by, Option, none, some, arith, All,
  All-take, All-select, All-sort_by, Bool-cases, Option-cases, if◌then◌else◌, contains, IsDistinct,
  ltb, leb, length, length-take, leb→le, min,
}
use dreon_notification.Go.Error.{Error, Result, ok, err}
use dreon_notification.Go.Int.{ℤ, pos, is_nonpositive, to_ℕ, nat_lt_int}
use dreon_notification.Model.{Notification, status_pending}
use dreon_notification.World.{World, Env}
use dreon_notification.World.Frame.{ok-injective}
use dreon_notification.World.Exec.{◌>>=◌, ◌>>◌}
use dreon_notification.Repository.{is_live, has_id, updated, touch, update_where, db_call, scan}
use dreon_notification.Repository.Schema.{notifications}
use dreon_notification.Repository.Notifications.{
  is_due_retry, lock_pending_retries_due, update_next_retry_at,
}
use dreon_notification.Repository.Sound.{keys, ids, IsSoundTable}
use dreon_notification.Repository.Unique.{update_rows_lem}
use dreon_notification.Service.{NotificationSvc}
use dreon_notification.Service.Outcome.{IsUp, counted, put_notifications}
use dreon_notification.Service.Invariant.Poll.{update_next_retry_at-KeepsSound}
use dreon_notification.Service.Poll.{extend_leases, with_lease, claim}

-- A row that `LockPendingRetriesDue` may take at the time `t`, in the call `n`.
abbrev pub IsClaimable : Env → ℕ → ℕ → Notification → Type 0
IsClaimable env n t r = (is_due_retry t r && not (env.locked n r.id)) ≡ true

module _ (env : Env) where
  abbrev pub TakenAt : ℤ → ℕ → ℕ → List Notification → Type 0
  TakenAt limit n t rs = (length rs ≤ to_ℕ limit) × All (IsClaimable env n t) rs

  take-TakenAt :
      (limit : ℤ) (n t : ℕ) (rs : List Notification)
      → TakenAt limit n t (
          take (to_ℕ limit) (
            scan env notifications n
              (select (λ r. is_due_retry t r && not (env.locked n r.id)) rs)))
  take-TakenAt limit n t rs =
      let open_rows = select (λ r. is_due_retry t r && not (env.locked n r.id)) rs in
      (
        omega (arith, length-take (to_ℕ limit) (scan env notifications n open_rows)),
        All-take (IsClaimable env n t) (to_ℕ limit) (scan env notifications n open_rows) (
            All-sort_by (IsClaimable env n t) (λ r. env.rank n r.id) open_rows
              (All-select (IsClaimable env n t) (λ r. is_due_retry t r && not (env.locked n r.id))
                rs (λ r e. e))),
      )

  pub lock_pending_retries_due_lem :
      (limit : ℤ) (t : ℕ) (w : World) (rs : List Notification)
      → (lock_pending_retries_due env limit t w).0 ≡ ok rs
      → TakenAt limit w.calls t rs
  unfolding lock_pending_retries_due db_call
  lock_pending_retries_due_lem limit t w rs h = elim (Bool-cases (is_nonpositive limit)) [
    | inl e ↦ subst (TakenAt limit w.calls t) (ok-injective (rw e at h)) (omega arith, tt)
    | inr e ↦ elim (Option-cases (env.db_fault w.calls)) [
      | inl up ↦
          subst (TakenAt limit w.calls t) (ok-injective (rw (e, up) at h))
            (take-TakenAt limit w.calls t w.notifications)
      | inr (fault, down) ↦ cc (rw (e, down) at h)
    ]
  ]

  -- No live row with this id is due at the time `t`.
  abbrev pub NotDue : String → ℕ → List Notification → Type 0
  NotDue id t = All (λ r. (r.id == id && is_due_retry t r) ≡ false)

  abbrev pub put_off_to : ℕ → Notification → Notification
  put_off_to until r = record r { next_retry_at = some until }

  leased : ℕ → ℕ → String → Notification → Notification
  leased now until id = updated notifications (has_id notifications id) (put_off_to until) now

  leased_not_due :
      (now until t : ℕ) (j : String) (r : Notification)
      → t < until
      → let s = touch notifications now (put_off_to until r) in
        (s.id == j && is_due_retry t s) ≡ false
  unfolding is_due_retry
  leased_not_due now until t j r h = ground (arith, leb→le until t)

  other_not_due :
      (t : ℕ) (id j : String) (r : Notification)
      → (is_live notifications r && r.id == id) ≡ false
      → ((r.id == j && is_due_retry t r) ≡ false) ⊎ ((id == j) ≡ true)
      → (r.id == j && is_due_retry t r) ≡ false
  unfolding is_due_retry
  other_not_due t id j r e (inl k) = k
  other_not_due t id j r e (inr k) = ground (arith, eq_iff id j, eq_iff r.id j, eq_iff r.id id)

  -- The row that a lease is put on is not due before the lease ends, and another row is due as before.
  leased_row :
      (now until t : ℕ) (id j : String) (r : Notification)
      → t < until
      → ((r.id == j && is_due_retry t r) ≡ false) ⊎ ((id == j) ≡ true)
      → ((leased now until id r).id == j && is_due_retry t (leased now until id r)) ≡ false
  unfolding leased is_due_retry
  leased_row now until t id j r h k = elim (Bool-cases (is_live notifications r && r.id == id)) [
    | inl e ↦ rw e (leased_not_due now until t j r h)
    | inr e ↦ rw e (other_not_due t id j r e k)
  ]

  leased_rows :
      (now until t : ℕ) (id j : String) (rs : List Notification)
      → t < until
      → NotDue j t rs ⊎ ((id == j) ≡ true)
      → NotDue j t (map (leased now until id) rs)
  leased_rows now until t id j [] h k = tt
  leased_rows now until t id j (r ∷ rs) h (inl (k, ks)) =
      (leased_row now until t id j r h (inl k), leased_rows now until t id j rs h (inl ks))
  leased_rows now until t id j (r ∷ rs) h (inr k) =
      (leased_row now until t id j r h (inr k), leased_rows now until t id j rs h (inr k))

  update_next_retry_at_lem :
      (id : String) (until : ℕ) (w : World)
      → env.db_fault w.calls ≡ none
      → IsSoundTable w.notifications
      → update_next_retry_at env id until w ≡ (
        ok tt,
        counted (put_notifications (map (leased (env.clock w.calls) until id) w.notifications) w),
      )
  unfolding update_next_retry_at update_where db_call leased
  update_next_retry_at_lem id until w up h =
      rw
        (
          up,
          update_rows_lem (has_id notifications id) (put_off_to until) (λ r. refl) (λ r. refl)
              (env.clock w.calls) (counted w) h.distinct_keys,
        )
        refl

  update_next_retry_at_fault :
      (id : String) (until : ℕ) (w : World) (e : Error)
      → env.db_fault w.calls ≡ some e
      → update_next_retry_at env id until w ≡ (err e, counted w)
  unfolding update_next_retry_at update_where db_call
  update_next_retry_at_fault id until w e down = rw down refl

  leased-IsSoundTable :
      (id : String) (until : ℕ) (w : World)
      → env.db_fault w.calls ≡ none
      → IsSoundTable w.notifications
      → IsSoundTable (map (leased (env.clock w.calls) until id) w.notifications)
  leased-IsSoundTable id until w up h =
      subst (λ o. IsSoundTable o.1.notifications) (update_next_retry_at_lem id until w up h)
        ((update_next_retry_at-KeepsSound env id until).at w h)

  -- The leases of the rows `found` keep a row from being due, if it was not due before or is one of
  -- them.
  pub record Extended (until : ℕ) (found : List Notification) (w v : World) : Type 0 where
    pub sound_after : IsSoundTable v.notifications
    pub not_due :
        (t : ℕ) (j : String)
        → t < until
        → NotDue j t w.notifications ⊎ (contains j (ids found) ≡ true)
        → NotDue j t v.notifications

  contains-cons :
      (j x : String) (xs : List String)
      → contains j (x ∷ xs) ≡ true
      → ((x == j) ≡ true) ⊎ (contains j xs ≡ true)
  contains-cons j x xs h = elim (Bool-cases (x == j)) [ inl e ↦ inl e | inr e ↦ inr (ground arith) ]

  stepped : ℕ → String → World → World
  stepped until id w =
      counted (put_notifications (map (leased (env.clock w.calls) until id) w.notifications) w)

  cons-Extended :
      (until : ℕ) (r : Notification) (rs : List Notification) (w : World) {v : World}
      → Extended until rs (stepped until r.id w) v
      → Extended until (r ∷ rs) w v
  unfolding stepped
  cons-Extended until r rs w rest =
      let now = env.clock w.calls in
      record {
        sound_after = rest.sound_after;
        not_due = λ t j lt k. rest.not_due t j lt (elim k [
          | inl k ↦ inl (leased_rows now until t r.id j w.notifications lt (inl k))
          | inr k ↦ elim (contains-cons j r.id (ids rs) k) [
            | inl e ↦ inl (leased_rows now until t r.id j w.notifications lt (inr e))
            | inr e ↦ inr e
          ]
        ]);
      }

  pub extend_leases-Extended :
      (svc : NotificationSvc) (until : ℕ) (found : List Notification) (w : World)
      → IsSoundTable w.notifications
      → (extend_leases env svc until found w).0 ≡ ok tt
      → Extended until found w (extend_leases env svc until found w).1
  unfolding extend_leases stepped
  extend_leases-Extended svc until [] w h done = record {
    sound_after = h;
    not_due = λ t j lt k. elim k [ inl k ↦ k | inr k ↦ cc ];
  }
  extend_leases-Extended svc until (r ∷ rs) w h done = elim (Option-cases (env.db_fault w.calls)) [
    | inl up ↦
        let step = update_next_retry_at_lem r.id until w up h in
        rw step (
          cons-Extended until r rs w (
            extend_leases-Extended svc until rs (stepped until r.id w)
              (leased-IsSoundTable r.id until w up h) (rw step at done)))
    | inr (fault, down) ↦ cc (rw (update_next_retry_at_fault r.id until w fault down) at done)
  ]
