-- ===== src/Service/Lease/Exclusive.antt =====
-- internal/repository/notification.go, `LockPendingRetriesDue`: what a claim cannot take.
use mathlib.Core.Path.{subst}
use dreon_notification.Prelude.{
  ℕ, ◌≡◌, inl, inr, Bool, true, false, ◌&&◌, not, String, eq_refl, List, [], ◌∷◌, take, select,
  arith, All, All-take, All-sort_by, Bool-cases, Option-cases, contains,
}
use dreon_notification.Go.Error.{ok}
use dreon_notification.Go.Int.{ℤ, is_nonpositive, to_ℕ}
use dreon_notification.Model.{Notification}
use dreon_notification.World.{World, Env}
use dreon_notification.World.Frame.{ok-injective}
use dreon_notification.Repository.{db_call, scan}
use dreon_notification.Repository.Schema.{notifications}
use dreon_notification.Repository.Notifications.{is_due_retry, lock_pending_retries_due}
use dreon_notification.Service.Lease.{NotDue}

-- None of the rows has one of the ids.
abbrev pub NoneOf : List String → List Notification → Type 0
NoneOf xs = All (λ r. contains r.id xs ≡ false)

All-select_if :
    (P : Notification → Type 0) (p : Notification → Bool) (rs : List Notification)
    → All (λ r. p r ≡ true → P r) rs
    → All P (select p rs)
All-select_if P p [] _ = tt
All-select_if P p (r ∷ rs) (h, hs) = elim (Bool-cases (p r)) [
  | inl e ↦ rw e (h e, All-select_if P p rs hs)
  | inr e ↦ rw e (All-select_if P p rs hs)
]

module _ (env : Env) (xs : List String) (n t : ℕ) where
  is_open : Notification → Bool
  is_open r = is_due_retry t r && not (env.locked n r.id)

  open_rows :
      (rs : List Notification)
      → ((j : String) → contains j xs ≡ true → NotDue env j t rs)
      → All (λ r. is_open r ≡ true → contains r.id xs ≡ false) rs
  unfolding is_open
  open_rows [] h = tt
  open_rows (r ∷ rs) h = (
    λ due. elim (Bool-cases (contains r.id xs)) [
      | inl e ↦ let (out, _) = h r.id e in ground (arith, eq_refl r.id)
      | inr e ↦ e
    ],
    open_rows rs (λ j c. let (_, rest) = h j c in rest),
  )

  taken-NoneOf :
      (k : ℕ) (rs : List Notification)
      → ((j : String) → contains j xs ≡ true → NotDue env j t rs)
      → NoneOf xs (take k (scan env notifications n (select is_open rs)))
  taken-NoneOf k rs h =
      All-take (λ r. contains r.id xs ≡ false) k (scan env notifications n (select is_open rs))
        (All-sort_by (λ r. contains r.id xs ≡ false) (λ r. env.rank n r.id) (select is_open rs)
          (All-select_if (λ r. contains r.id xs ≡ false) is_open rs (open_rows rs h)))

-- A claim takes no row that is not due.
pub lock_pending_retries_due-NoneOf :
    (env : Env) (xs : List String) (limit : ℤ) (t : ℕ) (w : World) (rs : List Notification)
    → ((j : String) → contains j xs ≡ true → NotDue env j t w.notifications)
    → (lock_pending_retries_due env limit t w).0 ≡ ok rs
    → NoneOf xs rs
unfolding lock_pending_retries_due db_call is_open
lock_pending_retries_due-NoneOf env xs limit t w rs h done =
    elim (Bool-cases (is_nonpositive limit)) [
      | inl e ↦ subst (NoneOf xs) (ok-injective (rw e at done)) tt
      | inr e ↦ elim (Option-cases (env.db_fault w.calls)) [
        | inl up ↦
            subst (NoneOf xs) (ok-injective (rw (e, up) at done))
              (taken-NoneOf env xs w.calls t (to_ℕ limit) w.notifications h)
        | inr (fault, down) ↦ cc (rw (e, down) at done)
      ]
    ]
