-- ===== src/Service/Scheduled/Tick.antt =====
-- internal/service/notification.go, `EnqueueDueScheduledNotifications`: a tick of the worker.
use mathlib.Core.Path.{subst}
use mathlib.Core.Option.{some-injective}
use dreon_notification.Prelude.{
  ℕ, suc, ◌+◌, ◌<◌, ◌≡◌, refl, sym, inl, inr, true, String, eq_refl, List, [], ◌∷◌, Option, none,
  some, arith, All, contains, Bool-cases, Option-cases,
}
use dreon_notification.Go.Error.{Error, ok}
use dreon_notification.Go.Int.{pos}
use dreon_notification.Model.{Notification}
use dreon_notification.World.{World, Env, Tables}
use dreon_notification.World.Exec.{◌>>=◌, map_error, ask}
use dreon_notification.World.Frame.{Result-cases, ok-injective}
use dreon_notification.Repository.Notifications.{is_due_scheduled}
use dreon_notification.Repository.Sound.{ids}
use dreon_notification.Cache.{AppCache}
use dreon_notification.Service.{NotificationSvc, Publisher}
use dreon_notification.Service.Send.{or_fail}
use dreon_notification.Service.Poll.{enqueue_scheduled, for_each}
use dreon_notification.Prelude.{select, All-take, All-sort_by}
use dreon_notification.Go.Int.{ℤ, is_nonpositive, to_ℕ}
use dreon_notification.Repository.{db_call}
use dreon_notification.Repository.Notifications.{find_due_scheduled}
use dreon_notification.Service.Poll.{dedup_ttl, enqueue_due_scheduled}
use dreon_notification.Service.Scheduled.{IsDueIn, Held, Adds, Adds-none, Adds-after}
use dreon_notification.Service.Scheduled.Rounds.{rounds-Adds}

more_known :
    (id : String) (xs : List String) (rs : List Notification)
    → All (λ r. contains r.id xs ≡ true) rs
    → All (λ r. contains r.id (id ∷ xs) ≡ true) rs
more_known id xs [] h = tt
more_known id xs (r ∷ rs) (p, h) = (ground arith, more_known id xs rs h)

own_ids : (rs : List Notification) → All (λ r. contains r.id (ids rs) ≡ true) rs
own_ids [] = tt
own_ids (r ∷ rs) = (rw (eq_refl r.id) refl, more_known r.id (ids rs) rs (own_ids rs))

selected-IsDueIn :
    (t : Tables) (now : ℕ) (rs : List Notification)
    → All (λ r. contains r.id (ids t.notifications) ≡ true) rs
    → All (IsDueIn t) (select (is_due_scheduled now) rs)
selected-IsDueIn t now [] h = tt
selected-IsDueIn t now (r ∷ rs) (p, h) = elim (Bool-cases (is_due_scheduled now r)) [
  | inl e ↦ rw e ((p, (now, e)), selected-IsDueIn t now rs h)
  | inr e ↦ rw e (selected-IsDueIn t now rs h)
]

-- The query returns rows of the table that are due, and changes nothing.
find_due_scheduled_lem :
    (env : Env) (batch : ℤ) (now : ℕ) (w : World)
    → let found = find_due_scheduled env batch now w in
      (found.1.tables ≡ w.tables)
      × (found.1.published ≡ w.published)
      × (found.1.cache ≡ w.cache)
      × ((rows : List Notification) → found.0 ≡ ok rows → All (IsDueIn w.tables) rows)
unfolding find_due_scheduled db_call
find_due_scheduled_lem env batch now w = elim (Bool-cases (is_nonpositive batch)) [
  | inl e ↦ rw e (refl, refl, refl, λ rows h. subst (All (IsDueIn w.tables)) (ok-injective h) tt)
  | inr e ↦ elim (Option-cases (env.db_fault w.calls)) [
    | inr (f, down) ↦ rw (e, down) (refl, refl, refl, λ rows h. cc)
    | inl up ↦
        let P = IsDueIn w.tables in
        let due = select (is_due_scheduled now) w.notifications in
        let known = selected-IsDueIn w.tables now w.notifications (own_ids w.notifications) in
        rw (e, up)
          (
            refl,
            refl,
            refl,
            λ rows h. subst (All P) (ok-injective h) (
                All-take P (to_ℕ batch) _ (
                  All-sort_by P (λ r. r.scheduled_at) _
                    (All-sort_by P (λ r. env.rank w.calls r.id) due known))),
          )
  ]
]

module _ (env : Env) (svc : NotificationSvc) (cache : AppCache) (d : ℕ)
    (early : (m n : ℕ) → env.clock n < env.clock m + suc d) where
  found-Adds :
      (p : Publisher) (batch : ℤ) (now : ℕ) (f : Error → Error) (xs : List String) (w : World)
      → Held env cache xs w
      → Adds env cache xs w
          ((do
            rows ← map_error f (find_due_scheduled env batch now)
            for_each (enqueue_scheduled env svc p cache (pos (suc d))) rows)
            w).1
  found-Adds p batch now f xs w held =
      let v = (find_due_scheduled env batch now w).1 in
      let (same, quiet, kept, due) = find_due_scheduled_lem env batch now w in
      elim (Result-cases (find_due_scheduled env batch now w).0) [
        | inl (e, eq) ↦ rw eq (Adds-none env cache xs w v same quiet (rw kept held))
        | inr (rows, eq) ↦ rw eq (
            Adds-after env cache xs w v _ same quiet (
              rounds-Adds env svc cache p d early xs rows v
                (subst (λ t. All (IsDueIn t) rows) (sym same) (due rows eq)) (rw kept held)))
      ]

  -- What follows the look at the publisher and the cache
  with-Adds :
      (p : Option Publisher) (c : Option AppCache) (ttl batch : ℤ) (e g : Error) (f : Error → Error)
      (xs : List String) (w : World)
      → c ≡ some cache
      → ttl ≡ pos (suc d)
      → Held env cache xs w
      → Adds env cache xs w
          ((do
            publisher ← or_fail p e
            store ← or_fail c g
            now ← ask env.clock
            rows ← map_error f (find_due_scheduled env batch now)
            for_each (enqueue_scheduled env svc publisher store ttl) rows)
            w).1
  with-Adds none c ttl batch e g f xs w on lasts held = Adds-none env cache xs w w refl refl held
  with-Adds (some p) none ttl batch e g f xs w on lasts held = cc
  with-Adds (some p) (some c) ttl batch e g f xs w on lasts held =
      rw (lasts, some-injective _ _ on)
        (Adds-after env cache xs w (record w { calls = suc w.calls }) _ refl refl
          (found-Adds p batch (env.clock w.calls) f xs (record w { calls = suc w.calls }) held))

  pub tick-Adds :
      (batch : ℤ) (xs : List String) (w : World)
      → svc.cache ≡ some cache
      → dedup_ttl env svc ≡ pos (suc d)
      → Held env cache xs w
      → Adds env cache xs w (enqueue_due_scheduled env svc batch w).1
  unfolding enqueue_due_scheduled
  tick-Adds batch xs w on lasts held = elim (Bool-cases (is_nonpositive batch)) [
    | inl e ↦ rw e (Adds-none env cache xs w w refl refl held)
    | inr e ↦
        rw e (with-Adds svc.publisher svc.cache (dedup_ttl env svc) batch _ _ _ xs w on lasts held)
  ]
