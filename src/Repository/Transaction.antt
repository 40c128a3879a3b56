-- ===== src/Repository/Transaction.antt =====
-- internal/repository/notification.go, `RunInTransaction`: all of the body, or nothing of it.
use dreon_notification.Prelude.{ℕ, suc, ◌≡◌, refl, ◌∙◌, ◌⊎◌, inl, inr, none, some, Option-cases}
use dreon_notification.Go.Error.{Error, Result, ok, err}
use dreon_notification.World.{World, Env, Tables}
use dreon_notification.World.Exec.{Exec, set_tables}
use dreon_notification.World.Within.{IsFrame, Within, within_rules}
use dreon_notification.Repository.{db_call}
use dreon_notification.Repository.Bulk.{db_call-Within}
use dreon_notification.Repository.Notifications.{
  commit, end_of_commit, transaction_body, run_in_transaction,
}

module _ (env : Env) where
  pub db_call_up :
      (w : World)
      → env.db_fault w.calls ≡ none
      → db_call env w ≡ (ok w.calls, record w { calls = suc w.calls })
  unfolding db_call
  db_call_up w up = rw up refl

  pub db_call_down :
      (w : World) (e : Error)
      → env.db_fault w.calls ≡ some e
      → db_call env w ≡ (err e, record w { calls = suc w.calls })
  unfolding db_call
  db_call_down w e down = rw down refl

module _ {A : Type 0} (env : Env) (body : Exec A) where
  -- A transaction fails and leaves the tables as they were, or it succeeds, and so did its body, whose
  -- tables are kept.
  abbrev pub TransactionOutcome : World → Result A → World → Type 0
  TransactionOutcome w r v =
      ((e : Error) × (r ≡ err e) × (v.tables ≡ w.tables))
      ⊎ ((a : A) × (r ≡ ok a)
          × ((body (record w { calls = suc w.calls })).0 ≡ ok a)
          × (v.tables ≡ (body (record w { calls = suc w.calls })).1.tables))

  abbrev KeepsOrRestores : World → Result A × World → Type 0
  KeepsOrRestores w (r, v) = TransactionOutcome w r v

  committed :
      (w : World) (r : Result A) (u : World)
      → (body (record w { calls = suc w.calls })).0 ≡ r
      → (body (record w { calls = suc w.calls })).1 ≡ u
      → KeepsOrRestores w (commit env w.tables r u)
  committed w (err e) u h k = inl (e, refl, refl)
  committed w (ok a) u h k = elim (Option-cases (env.db_fault u.calls)) [
    | inl up ↦ rw (db_call_up env u up) (inr (a, refl, h, rw k refl))
    | inr (e, down) ↦ rw (db_call_down env u e down) (inl (e, refl, refl))
  ]

  pub run_in_transaction-TransactionOutcome :
      (w : World)
      → TransactionOutcome w (run_in_transaction env body w).0 (run_in_transaction env body w).1
  unfolding run_in_transaction transaction_body
  run_in_transaction-TransactionOutcome w = elim (Option-cases (env.db_fault w.calls)) [
    | inl up ↦
        let u = record w { calls = suc w.calls } in
        rw (db_call_up env w up) (committed w (body u).0 (body u).1 refl refl)
    | inr (e, down) ↦ rw (db_call_down env w e down) (inl (e, refl, refl))
  ]

-- A statement of the database touches the tables at most.
pub record TablesOnly (w v : World) : Type 0 where
  pub same_published : v.published ≡ w.published
  pub same_deliveries : v.deliveries ≡ w.deliveries
  pub same_cache : v.cache ≡ w.cache

pub tables_frame : IsFrame TablesOnly
tables_frame = record {
  idle = λ w. record { same_published = refl; same_deliveries = refl; same_cache = refl };
  chain = λ f g. record {
    same_published = g.same_published ∙ f.same_published;
    same_deliveries = g.same_deliveries ∙ f.same_deliveries;
    same_cache = g.same_cache ∙ f.same_cache;
  };
  counted = λ w. record { same_published = refl; same_deliveries = refl; same_cache = refl };
}

restored : (t : Tables) {w v : World} → TablesOnly w v → TablesOnly w (set_tables t v)
restored t h = record {
  same_published = h.same_published;
  same_deliveries = h.same_deliveries;
  same_cache = h.same_cache;
}

module _ {A : Type 0} (env : Env) where
  end_of_commit-TablesOnly :
      (t : Tables) (a : A) (r : Result ℕ) {w v : World}
      → TablesOnly w v
      → TablesOnly w (end_of_commit t a r v).1
  end_of_commit-TablesOnly t a (ok n) h = h
  end_of_commit-TablesOnly t a (err e) h = restored t h

  commit-TablesOnly :
      (t : Tables) (r : Result A) {w v : World} → TablesOnly w v → TablesOnly w (commit env t r v).1
  commit-TablesOnly t (ok a) {w} {v} h =
      end_of_commit-TablesOnly t a (db_call env v).0
        (tables_frame.chain h ((db_call-Within tables_frame env).at v))
  commit-TablesOnly t (err e) h = restored t h

  transaction_body-TablesOnly :
      {body : Exec A} → Within TablesOnly body → Within TablesOnly (transaction_body env body)
  unfolding transaction_body
  transaction_body-TablesOnly {body} h = record {
    at = λ w. commit-TablesOnly w.tables (body w).0 (h.at w);
  }

  pub run_in_transaction-TablesOnly :
      {body : Exec A} → Within TablesOnly body → Within TablesOnly (run_in_transaction env body)
  unfolding run_in_transaction
  run_in_transaction-TablesOnly h =
      search (within_rules, tables_frame, db_call-Within, transaction_body-TablesOnly)
