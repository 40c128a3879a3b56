-- ===== src/Repository/Found.antt =====
-- internal/repository/base.go: what a query for one row finds, if it is answered.
use dreon_notification.Prelude.{◌≡◌, refl, Bool, ◌&&◌, inl, inr, some, find, Option-cases}
use dreon_notification.Go.Error.{ok}
use dreon_notification.World.{World, Env}
use dreon_notification.World.Frame.{ok-injective}
use dreon_notification.Repository.{Table, is_live, find_one}
use dreon_notification.Repository.Transaction.{db_call_up, db_call_down}

module _ {T : Type 0} (env : Env) (table : Table T) (p : T → Bool) where
  pub find_one_lem :
      (w : World)
      → ((find_one env table p w).1.tables ≡ w.tables)
        × ((r : T)
            → (find_one env table p w).0 ≡ ok (some r)
            → find (λ s. is_live table s && p s) (table.rows w.tables) ≡ some r)
  unfolding find_one
  find_one_lem w = elim (Option-cases (env.db_fault w.calls)) [
    | inl up ↦ (rw (db_call_up env w up) refl, λ r h. ok-injective (rw (db_call_up env w up) at h))
    | inr (f, down) ↦
        (rw (db_call_down env w f down) refl, λ r h. cc (rw (db_call_down env w f down) at h))
  ]
