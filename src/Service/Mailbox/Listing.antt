-- ===== src/Service/Mailbox/Listing.antt =====
-- internal/service/mailbox.go, `ListForUser`.
use mathlib.Core.Path.{subst}
use dreon_notification.Prelude.{
  ℕ, ◌≡◌, refl, ◌≤◌, ◌⊎◌, inl, inr, true, ◌&&◌, String, ◌==◌, eq_iff, List, [], ◌∷◌, map, take,
  select, arith, length, length-take, length-map, All, All-take, All-select, All-sort_by,
  All-sort_desc, Bool-cases, Option-cases, sort_desc,
}
use dreon_notification.Go.Error.{ok}
use dreon_notification.Go.Int.{ℤ, is_nonpositive, to_ℕ}
use dreon_notification.Model.{Mailbox}
use dreon_notification.World.{World, Env}
use dreon_notification.World.Frame.{ok-injective}
use dreon_notification.Repository.{scan, is_live}
use dreon_notification.Repository.Schema.{mailboxes}
use dreon_notification.Repository.Transaction.{db_call_up, db_call_down}
use dreon_notification.Repository.Mailboxes.{limited, list_by_created_by}
use dreon_notification.Aggregate.Mailbox.{MailboxAggregate, mailbox_view}
use dreon_notification.Service.Mailbox.{list_for_user}

module _ (env : Env) (user : String) (limit : ℤ) where
  -- What a listing may hold: rows of the user, as many as the limit allows.
  abbrev pub IsListing : List MailboxAggregate → Type 0
  IsListing rs =
      All (λ a. a.created_by ≡ user) rs × ((is_nonpositive limit ≡ true) ⊎ (length rs ≤ to_ℕ limit))

  views_own :
      (rs : List Mailbox)
      → All (λ r. r.created_by ≡ user) rs
      → All (λ a. a.created_by ≡ user) (map mailbox_view rs)
  views_own [] _ = tt
  views_own (r ∷ rs) (h, hs) = (h, views_own rs hs)

  limited-IsListing :
      (rs : List Mailbox)
      → All (λ r. r.created_by ≡ user) rs
      → IsListing (map mailbox_view (limited limit rs))
  limited-IsListing rs h = elim (Bool-cases (is_nonpositive limit)) [
    | inl e ↦ rw e (views_own rs h, inl refl)
    | inr e ↦ rw e (
      views_own (take (to_ℕ limit) rs) (All-take (λ r. r.created_by ≡ user) (to_ℕ limit) rs h),
      inr (
          omega
            (arith, length-map mailbox_view (take (to_ℕ limit) rs), length-take (to_ℕ limit) rs)),
    )
  ]

  selected_own :
      (n : ℕ) (rs : List Mailbox)
      → All
          (λ r. r.created_by ≡ user)
          (sort_desc
            (λ r. r.created_at)
            (scan env mailboxes n (select (λ r. is_live mailboxes r && r.created_by == user) rs)))
  selected_own n rs =
      let found = select (λ r. is_live mailboxes r && r.created_by == user) rs in
      All-sort_desc (λ r. r.created_by ≡ user) (λ r. r.created_at) (scan env mailboxes n found)
        (All-sort_by (λ r. r.created_by ≡ user) (λ r. env.rank n r.id) found
          (All-select (λ r. r.created_by ≡ user) (λ r. is_live mailboxes r && r.created_by == user)
            rs (λ r h. ground (arith, eq_iff r.created_by user))))

  -- A listing that succeeds holds rows of the user only, and no more than a limit that is positive.
  pub list_for_user-IsListing :
      (w : World) (rs : List MailboxAggregate)
      → (list_for_user env user limit w).0 ≡ ok rs
      → IsListing rs
  unfolding list_for_user list_by_created_by
  list_for_user-IsListing w rs h = elim (Bool-cases (user == "")) [
    | inl e ↦ cc (rw e at h)
    | inr e ↦ elim (Option-cases (env.db_fault w.calls)) [
      | inl up ↦
          subst IsListing (ok-injective (rw (e, db_call_up env w up) at h))
            (limited-IsListing _ (selected_own w.calls w.mailboxes))
      | inr (fault, down) ↦ cc (rw (e, db_call_down env w fault down) at h)
    ]
  ]
