-- ===== src/Repository/Change.antt =====
-- internal/repository/base.go, `Update`: the row is changed, or nothing is.
use dreon_notification.Prelude.{
  ℕ, ◌≡◌, refl, ◌⊎◌, inl, inr, ◌&&◌, String, map, any, Bool-cases, Option-cases,
}
use dreon_notification.Go.Error.{Error, Result, ok, err, duplicate_key}
use dreon_notification.World.{World, Env}
use dreon_notification.Repository.{
  Table, is_live, has_id, clashes_in, updated, update_rows, update_where, update,
}
use dreon_notification.Repository.Transaction.{db_call_up, db_call_down}

module _ {T : Type 0} (env : Env) (table : Table T) (id : String) (f : T → T) where
  abbrev pub UpdateOutcome : World → Result (Unit {0}) × World → Type 0
  UpdateOutcome w (r, v) =
      ((e : Error) × (r ≡ err e) × (v.tables ≡ w.tables))
      ⊎ ((now : ℕ) × (r ≡ ok tt)
          × (v.tables
              ≡ table.put_rows (map (updated table (has_id table id) f now) (table.rows w.tables))
                  w.tables))

  -- An update fails and changes nothing, or it changes the live rows with this id.
  pub update-UpdateOutcome : (w : World) → UpdateOutcome w (update env table id f w)
  unfolding update update_where update_rows
  update-UpdateOutcome w = elim (Option-cases (env.db_fault w.calls)) [
    | inl up ↦
        rw (db_call_up env w up)
          (elim (Bool-cases (
            any
              (λ r.
                is_live table r
                && has_id table id r
                && clashes_in table (table.rows w.tables) (f r))
              (table.rows w.tables))) [
                | inl e ↦ rw e (inl (duplicate_key, refl, refl))
                | inr e ↦ rw e (inr (env.clock w.calls, refl, refl))
              ])
    | inr (e, down) ↦ rw (db_call_down env w e down) (inl (e, refl, refl))
  ]
