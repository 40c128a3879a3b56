-- ===== src/Repository/Create.antt =====
-- internal/repository/base.go, `Create`: a row that the indexes let in, or nothing.
use dreon_notification.Prelude.{
  ℕ, suc, ◌≡◌, refl, ◌⊎◌, inl, inr, false, String, [], ◌∷◌, Bool-cases, Option-cases,
}
use dreon_notification.Go.Error.{Error, Result, ok, err, duplicate_key}
use dreon_notification.World.{World, Env}
use dreon_notification.World.Frame.{Untouched, Result-cases}
use dreon_notification.Repository.{Table, before_create, fresh_row, insert_row, create, refused}
use dreon_notification.Repository.Bulk.{Added}
use dreon_notification.Repository.Transaction.{db_call_up, db_call_down}

module _ {T : Type 0} (env : Env) (table : Table T) where
  -- The row is refused or a call fails, and nothing changes; or the row is added, and no row has its
  -- id or a unique value of it.
  abbrev pub CreateOutcome : T → World → Result T × World → Type 0
  CreateOutcome r w (o, v) =
      ((e : Error) × (o ≡ err e) × Untouched w v)
      ⊎ ((n : ℕ) × (id : String) × (o ≡ ok (fresh_row env table n id r))
          × (refused table (table.rows w.tables) (fresh_row env table n id r) ≡ false)
          × Added table (fresh_row env table n id r ∷ []) w v)

  insert-CreateOutcome :
      (r : T) (n k : ℕ) (id : String) (w : World)
      → CreateOutcome r w (insert_row table (fresh_row env table n id r) (record w { calls = k }))
  unfolding insert_row
  insert-CreateOutcome r n k id w =
      elim (Bool-cases (refused table (table.rows w.tables) (fresh_row env table n id r))) [
        | inl e ↦ rw e (
            inl (
              duplicate_key,
              refl,
              record {
                same_tables = refl;
                same_published = refl;
                same_deliveries = refl;
                same_cache = refl;
              },
            ))
        | inr e ↦ rw e (
            inr (
              n,
              id,
              refl,
              e,
              record {
                added = refl;
                same_published = refl;
                same_deliveries = refl;
                same_cache = refl;
              },
            ))
      ]

  pub create-CreateOutcome : (r : T) (w : World) → CreateOutcome r w (create env table r w)
  unfolding create before_create
  create-CreateOutcome r w =
      let u = record w { calls = suc w.calls } in
      elim (Result-cases (before_create env (table.base r) w).0) [
        | inl (e, eq) ↦ rw eq (
            inl (
              e,
              refl,
              record {
                same_tables = refl;
                same_published = refl;
                same_deliveries = refl;
                same_cache = refl;
              },
            ))
        | inr (id, eq) ↦ rw eq (elim (Option-cases (env.db_fault u.calls)) [
          | inl up ↦ rw (db_call_up env u up) (insert-CreateOutcome r u.calls (suc u.calls) id w)
          | inr (e, down) ↦ rw (db_call_down env u e down) (
              inl (
                e,
                refl,
                record {
                  same_tables = refl;
                  same_published = refl;
                  same_deliveries = refl;
                  same_cache = refl;
                },
              ))
        ])
      ]
