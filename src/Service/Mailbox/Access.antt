-- ===== src/Service/Mailbox/Access.antt =====
-- internal/service/mailbox.go: a user reads and marks rows of their own only.
use dreon_notification.Prelude.{
  ℕ, suc, ◌≡◌, refl, ap, ◌⊎◌, inl, inr, Bool, true, false, ◌&&◌, ◌||◌, String, ◌==◌, List, [], ◌∷◌,
  map, arith, any, count, leb, Bool-cases, Option-cases,
}
use dreon_notification.Go.Error.{Error, Result, ok, err, record_not_found}
use dreon_notification.Model.{Mailbox}
use dreon_notification.World.{World, Env}
use dreon_notification.World.Exec.{◌>>=◌, guard, map_error}
use dreon_notification.Repository.{is_live, updated, update_rows, update_where, clashes_in, store}
use dreon_notification.Repository.Schema.{mailboxes}
use dreon_notification.Repository.Transaction.{db_call_up, db_call_down}
use dreon_notification.Repository.Mailboxes.{is_owned, mark, mark_read}
use dreon_notification.Service.Mailbox.{mark_as_read, mark_error}

-- No column of the table is unique but the id.
none_clash : (rs : List Mailbox) (r : Mailbox) → clashes_in mailboxes rs r ≡ false
none_clash [] r = refl
none_clash (s ∷ rs) r = ground (arith, none_clash rs r)

module _ (p : Mailbox → Bool) (f : Mailbox → Mailbox) where
  none_refused :
      (rs rest : List Mailbox)
      → any (λ r. is_live mailboxes r && p r && clashes_in mailboxes rs (f r)) rest ≡ false
  none_refused rs [] = refl
  none_refused rs (r ∷ rest) = ground (arith, none_clash rs (f r), none_refused rs rest)

  none_met :
      (now : ℕ) (rs : List Mailbox)
      → leb (count (λ r. is_live mailboxes r && p r) rs) 0 ≡ true
      → map (updated mailboxes p f now) rs ≡ rs
  none_met now [] h = refl
  none_met now (r ∷ rs) h = elim (Bool-cases (is_live mailboxes r && p r)) [
    | inl e ↦ absurd (let h' = rw e at h in ground arith)
    | inr e ↦ rw e (ap (◌∷◌ r) (none_met now rs (rw e at h)))
  ]

  update_rows_lem :
      (now : ℕ) (w : World)
      → update_rows mailboxes p f now w ≡ (
        ok (count (λ r. is_live mailboxes r && p r) w.mailboxes),
        store mailboxes (map (updated mailboxes p f now) w.mailboxes) w,
      )
  unfolding update_rows
  update_rows_lem now w = rw (none_refused w.mailboxes w.mailboxes)

module _ (env : Env) (id user : String) where
  -- The rows after the user has read the row `id`: only a live row that is the user's has changed.
  abbrev pub read_by_user : ℕ → ℕ → List Mailbox → List Mailbox
  read_by_user at now = map (updated mailboxes (is_owned id user) (mark at) now)

  abbrev pub MarkOutcome : World → Result (Unit {0}) → World → Type 0
  MarkOutcome w r v =
      ((e : Error) × (r ≡ err e) × (v.tables ≡ w.tables))
      ⊎ ((at : ℕ) × (now : ℕ) × (r ≡ ok tt)
          × (v.tables ≡ record w.tables { mailboxes = read_by_user at now w.mailboxes }))

  abbrev MarksOrFails : World → Result (Unit {0}) × World → Type 0
  MarksOrFails w (r, v) = MarkOutcome w r v

  met-MarkOutcome :
      (f : Error → Error) (at now k : ℕ) (w : World)
      → MarksOrFails w (
          map_error f
            (update_rows mailboxes (is_owned id user) (mark at) now >>= λ met.
              guard (leb met 0) record_not_found)
            (record w { calls = k }))
  met-MarkOutcome f at now k w =
      let p = is_owned id user in
      rw (update_rows_lem p (mark at) now (record w { calls = k }))
        (elim (Bool-cases (leb (count (λ r. is_live mailboxes r && p r) w.mailboxes) 0)) [
          | inl e ↦ rw e (
              inl (
                _,
                refl,
                ap (λ rs. record w.tables { mailboxes = rs })
                    (none_met p (mark at) now w.mailboxes e),
              ))
          | inr e ↦ rw e (inr (at, now, refl, refl))
        ])

  called-MarkOutcome :
      (f : Error → Error) (at k : ℕ) (w : World)
      → MarksOrFails w (
          map_error f
            (do
              met ← update_where env mailboxes (is_owned id user) (mark at)
              guard (leb met 0) record_not_found)
            (record w { calls = k }))
  unfolding update_where
  called-MarkOutcome f at k w =
      let u = record w { calls = k } in
      elim (Option-cases (env.db_fault k)) [
        | inl up ↦ rw (db_call_up env u up) (met-MarkOutcome f at (env.clock k) (suc k) w)
        | inr (e, down) ↦ rw (db_call_down env u e down) (inl (_, refl, refl))
      ]

  -- Marking a row as read fails and changes nothing, or it marks exactly the live rows with this id
  -- that belong to the user.
  pub mark_as_read-MarkOutcome :
      (w : World) → MarkOutcome w (mark_as_read env id user w).0 (mark_as_read env id user w).1
  unfolding mark_as_read mark_read
  mark_as_read-MarkOutcome w = elim (Bool-cases (id == "" || user == "")) [
    | inl e ↦ rw e (inl (_, refl, refl))
    | inr e ↦ rw e (called-MarkOutcome mark_error (env.clock w.calls) (suc w.calls) w)
  ]
