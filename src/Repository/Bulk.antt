-- ===== src/Repository/Bulk.antt =====
-- internal/repository/base.go, `BulkCreate`: all the rows, or none of them.
use dreon_notification.Prelude.{
  ℕ, ◌≡◌, refl, ◌⊎◌, inl, inr, String, List, [], ◌∷◌, ◌++◌, some, arith, length, Option-cases,
}
use mathlib.Core.List.{append-nil, append_assoc}
use dreon_notification.Go.Error.{Error, Result, ok, err, duplicate_key, plain}
use dreon_notification.Model.{BaseModel}
use dreon_notification.World.{World, Env}
use dreon_notification.World.Exec.{pure, gets, ◌>>=◌}
use dreon_notification.World.Within.{
  IsFrame, Within, Within-bind, Within-ask, Within-lift, Within-fail_with, Within-pure, Within-gets,
  Within-or_none,
}
use dreon_notification.World.Frame.{
  Untouched, Untouched-refl, Untouched-trans, Result-cases, >>=-eq-ok,
}
use dreon_notification.Repository.{
  Table, find_one, find_one_by_id, before_create, db_call, ids_for, insert_all, insert_or_fail,
  bulk_create, fresh_rows, all_rows,
}

module _ {R : World → World → Type 0} (frame : IsFrame R) (env : Env) where
  pub before_create-Within : (b : BaseModel) → Within R (before_create env b)
  unfolding before_create
  before_create-Within b = search (Within-bind frame, Within-ask frame, Within-lift frame)

  pub db_call-Within : Within R (db_call env)
  unfolding db_call
  db_call-Within =
      search (Within-bind frame, Within-ask frame, Within-fail_with frame, Within-pure frame)

module _ {T : Type 0} {R : World → World → Type 0} (frame : IsFrame R) (env : Env)
    (table : Table T) where
  ids_for-Within : (rs : List T) → Within R (ids_for env table rs)
  unfolding ids_for
  ids_for-Within [] = Within-pure frame []
  ids_for-Within (r ∷ rs) =
      Within-bind frame (before_create-Within frame env (table.base r))
        λ id. Within-bind frame (ids_for-Within rs) λ ids. Within-pure frame (id ∷ ids)

  pub find_one_by_id-Within : (id : String) → Within R (find_one_by_id env table id)
  unfolding find_one_by_id find_one
  find_one_by_id-Within id =
      Within-or_none frame (Within-bind frame (db_call-Within frame env) (λ n. Within-gets frame _))

module _ {T : Type 0} (table : Table T) where
  pub insert_all-append :
      (rs more new : List T) → insert_all table rs more ≡ some new → new ≡ rs ++ more
  insert_all-append rs [] new h = ground (arith, append-nil rs)
  insert_all-append rs (r ∷ more) new h =
      ground (arith, insert_all-append (rs ++ r ∷ []) more new, append_assoc rs (r ∷ []) more)

pub Untouched-IsFrame : IsFrame Untouched
Untouched-IsFrame = record {
  idle = Untouched-refl;
  chain = Untouched-trans;
  counted = λ w. record {
    same_tables = refl;
    same_published = refl;
    same_deliveries = refl;
    same_cache = refl;
  };
}

-- The second world is the first with rows added to the table, and some calls.
pub record Added {T : Type 0} (table : Table T) (new : List T) (w v : World) : Type 0 where
  pub added : v.tables ≡ table.put_rows (table.rows w.tables ++ new) w.tables
  pub same_published : v.published ≡ w.published
  pub same_deliveries : v.deliveries ≡ w.deliveries
  pub same_cache : v.cache ≡ w.cache

module _ {T : Type 0} (env : Env) (table : Table T) where
  -- A failed INSERT leaves the tables alone; a successful one adds all the rows, each with its id.
  abbrev pub BulkOutcome : List T → World → Result (Unit {0}) × World → Type 0
  BulkOutcome inputs w (r, v) =
      ((e : Error) × (r ≡ err e) × Untouched w v)
      ⊎ ((n : ℕ) × (ids : List String) × (r ≡ ok tt)
          × (length ids ≡ length inputs)
          × Added table (fresh_rows env table n ids inputs) w v)

  length-ids_for :
      (rs : List T) (w : World) (ids : List String)
      → (ids_for env table rs w).0 ≡ ok ids
      → length ids ≡ length rs
  unfolding ids_for
  length-ids_for [] w ids h = ground arith
  length-ids_for (r ∷ rs) w ids h =
      let (id, _, more) = >>=-eq-ok _ (before_create env (table.base r)) w h in
      let u = (before_create env (table.base r) w).1 in
      let (rest, e, last) = >>=-eq-ok (λ ids. pure (id ∷ ids)) (ids_for env table rs) u more in
      let len = length-ids_for rs u rest e in ground arith

  insert-BulkOutcome :
      (inputs : List T) (ids : List String) (n : ℕ) (w u : World)
      → length ids ≡ length inputs
      → Untouched w u
      → BulkOutcome inputs w (
          insert_or_fail table
            (insert_all table (all_rows table u) (fresh_rows env table n ids inputs))
            u)
  insert-BulkOutcome inputs ids n w u len same =
      let fresh = fresh_rows env table n ids inputs in
      elim (Option-cases (insert_all table (all_rows table u) fresh)) [
        | inl e ↦ rw e (inl (duplicate_key, refl, same))
        | inr (new, e) ↦ rw e (
            inr (
              n,
              ids,
              refl,
              len,
              record {
                added =
                    cc (insert_all-append table (all_rows table u) fresh new e, same.same_tables);
                same_published = same.same_published;
                same_deliveries = same.same_deliveries;
                same_cache = same.same_cache;
              },
            ))
      ]

  db_call-BulkOutcome :
      (inputs : List T) (ids : List String) (w u : World)
      → length ids ≡ length inputs
      → Untouched w u
      → BulkOutcome inputs w (
          (do
            n ← db_call env
            rs ← gets (all_rows table)
            insert_or_fail table (insert_all table rs (fresh_rows env table n ids inputs)))
            u)
  db_call-BulkOutcome inputs ids w u len same = elim (Result-cases (db_call env u).0) [
    | inl (e, eq) ↦
        rw eq (inl (e, refl, Untouched-trans same ((db_call-Within Untouched-IsFrame env).at u)))
    | inr (n, eq) ↦ rw eq (
        insert-BulkOutcome inputs ids n w (db_call env u).1 len
          (Untouched-trans same ((db_call-Within Untouched-IsFrame env).at u)))
  ]

  -- A bulk insert fails and leaves all but the number of calls as it was, or it adds a row for every
  -- input, in order, each with an id, at the end of the table, and nothing else.
  pub bulk_create-BulkOutcome :
      (inputs : List T) (w : World) → BulkOutcome inputs w (bulk_create env table inputs w)
  unfolding bulk_create
  bulk_create-BulkOutcome [] w = inl (plain "empty slice found", refl, Untouched-refl w)
  bulk_create-BulkOutcome (r ∷ rs) w =
      let calm = (ids_for-Within Untouched-IsFrame env table (r ∷ rs)).at w in
      elim (Result-cases (ids_for env table (r ∷ rs) w).0) [
        | inl (e, eq) ↦ rw eq (inl (e, refl, calm))
        | inr (ids, eq) ↦ rw eq (
            db_call-BulkOutcome (r ∷ rs) ids w (ids_for env table (r ∷ rs) w).1
              (length-ids_for (r ∷ rs) w ids eq) calm)
      ]
