-- ===== src/Repository.antt =====
-- internal/repository/base.go: the generic repository over a table. The statements of gorm are read
-- with the meaning that gorm documents for them: queries and updates pass over soft-deleted rows,
-- deletion sets the mark, `BeforeCreate` (internal/model/base.go) fills in an id, creation and update
-- times are kept, and the database refuses a row that breaks a unique index.
pub mod Schema
pub mod Notifications
pub mod Bulk
pub mod Failure
pub mod Exhaustion
pub mod Sound
pub mod Keeps
pub mod Unique
pub mod Transaction
pub mod Create
pub mod Change
pub mod Found
pub mod Mailboxes
pub mod FcmTokens
pub mod PushTopics
use dreon_notification.Prelude.{
  ℕ, suc, Bool, true, false, ◌&&◌, ◌||◌, not, String, ◌==◌, List, [], ◌∷◌, ◌++◌, map, Option, none,
  some, any, select, find, count, sort_by, is_nil, if◌then◌else◌,
}
use dreon_notification.Go.Error.{Error, Result, ok, err, plain, duplicate_key}
use dreon_notification.Model.{BaseModel}
use dreon_notification.World.{Tables, World, Env}
use dreon_notification.World.Exec.{
  Exec, pure, raise, lift, gets, ask, continue, ◌>>=◌, ◌>>◌, modify, set_tables, fail_with, guard,
  or_none,
}

-- A table of the database: where its rows are, their embedded BaseModel, and its unique indexes and
-- column defaults.
pub record Table (T : Type 0) : Type 0 where
  pub rows : Tables → List T
  pub put_rows : List T → Tables → Tables
  pub base : T → BaseModel
  pub with_base : BaseModel → T → T
  -- whether the two rows have the same value in a unique index
  pub clash : T → T → Bool
  -- gorm writes a column's default for a zero value
  pub defaults : T → T

abbrev pub is_unset : Option ℕ → Bool
is_unset none = true
is_unset (some t) = false

abbrev pub or_now : ℕ → ℕ → ℕ
or_now now ℕ.zero = now
or_now now (suc t) = suc t

-- autoCreateTime and autoUpdateTime
abbrev pub stamp : ℕ → String → BaseModel → BaseModel
stamp now id b = record b {
  id = id;
  created_at = or_now now b.created_at;
  updated_at = or_now now b.updated_at;
}

module _ (env : Env) where
  -- One call of the database: its number, or its error.
  unfoldable pub db_call : Exec ℕ
  db_call = do n ← ask (λ n. n); fail_with (env.db_fault n); pure n

  -- `BeforeCreate`
  unfoldable pub before_create : BaseModel → Exec String
  before_create b = do n ← ask (λ n. n); lift (if b.id == "" then env.new_id n else ok b.id)

module _ {T : Type 0} (table : Table T) where
  abbrev pub is_live : T → Bool
  is_live r = is_unset (table.base r).deleted_at

  abbrev pub has_id : String → T → Bool
  has_id id r = (table.base r).id == id

  abbrev pub all_rows : World → List T
  all_rows w = table.rows w.tables

  abbrev pub store : List T → World → World
  store rs w = set_tables (table.put_rows rs w.tables) w

  -- The primary key and the unique indexes, deleted rows included.
  abbrev pub refused : List T → T → Bool
  refused rs r = any (λ s. has_id (table.base r).id s || table.clash s r) rs

  -- The rows of an INSERT go in together, or not at all.
  abbrev pub insert_all : List T → List T → Option (List T)
  insert_all rs [] = some rs
  insert_all rs (r ∷ more) = if refused rs r then none else insert_all (rs ++ r ∷ []) more

  abbrev pub touch : ℕ → T → T
  touch now r = table.with_base (record (table.base r) { updated_at = now }) r

  -- Another row has the value that a unique index is to take.
  abbrev pub clashes_in : List T → T → Bool
  clashes_in rs r = any (λ s. not (has_id (table.base r).id s) && table.clash s r) rs

  abbrev pub mark_deleted : ℕ → T → T
  mark_deleted now r = table.with_base (record (table.base r) { deleted_at = some now }) r

  abbrev pub insert_or_fail : Option (List T) → Exec (Unit {0})
  insert_or_fail none = raise duplicate_key
  insert_or_fail (some rs) = modify (store rs)

  -- The INSERT of one row.
  unfoldable pub insert_row : T → Exec T
  insert_row r = do
    rs ← gets all_rows
    guard (refused rs r) duplicate_key
    modify (store (rs ++ r ∷ []))
    pure r

  -- The rows after an UPDATE of the live rows that pass the test.
  abbrev pub updated : (T → Bool) → (T → T) → ℕ → T → T
  updated p f now r = if is_live r && p r then touch now (f r) else r

  unfoldable pub update_rows : (T → Bool) → (T → T) → ℕ → Exec ℕ
  update_rows p f now = do
    rs ← gets all_rows
    guard (any (λ r. is_live r && p r && clashes_in rs (f r)) rs) duplicate_key
    modify (store (map (updated p f now) rs))
    pure (count (λ r. is_live r && p r) rs)

  unfoldable pub delete_rows : (T → Bool) → ℕ → Exec ℕ
  delete_rows p now = do
    rs ← gets all_rows
    modify (store (map (λ r. if is_live r && p r then mark_deleted now r else r) rs))
    pure (count (λ r. is_live r && p r) rs)

module _ {T : Type 0} (env : Env) (table : Table T) where
  -- Rows in the order in which call n returns them, where the query asks for none.
  abbrev pub scan : ℕ → List T → List T
  scan n = sort_by (λ r. env.rank n (table.base r).id)

  unfoldable pub find_all : Exec (List T)
  unfolding db_call
  find_all = do n ← db_call env; gets (λ w. scan n (select (is_live table) (all_rows table w)))

  -- A query for one row: nil on every error.
  unfoldable pub find_one : (T → Bool) → Exec (Option T)
  unfolding db_call
  find_one p =
      or_none do n ← db_call env; gets (λ w. find (λ r. is_live table r && p r) (all_rows table w))

  unfoldable pub find_one_by_id : String → Exec (Option T)
  find_one_by_id id = find_one (has_id table id)

  unfoldable pub find_by_ids : List String → Exec (List T)
  unfolding db_call
  find_by_ids ids = do
    n ← db_call env
    gets (λ w.
        scan n
          (select (λ r. is_live table r && any (λ id. has_id table id r) ids) (all_rows table w)))

  abbrev pub fresh_row : ℕ → String → T → T
  fresh_row n id r = table.defaults (table.with_base (stamp (env.clock n) id (table.base r)) r)

  unfoldable pub create : T → Exec T
  create r = do
    id ← before_create env (table.base r)
    n ← db_call env
    insert_row table (fresh_row n id r)

  -- The ids of the rows of one statement, each from its own `BeforeCreate`.
  unfoldable pub ids_for : List T → Exec (List String)
  ids_for [] = pure []
  ids_for (r ∷ rs) = do id ← before_create env (table.base r); ids ← ids_for rs; pure (id ∷ ids)

  abbrev pub fresh_rows : ℕ → List String → List T → List T
  fresh_rows n [] rs = []
  fresh_rows n (id ∷ ids) [] = []
  fresh_rows n (id ∷ ids) (r ∷ rs) = fresh_row n id r ∷ fresh_rows n ids rs

  unfoldable pub bulk_create : List T → Exec (Unit {0})
  unfolding db_call
  bulk_create inputs = do
    guard (is_nil inputs) (plain "empty slice found")
    ids ← ids_for inputs
    n ← db_call env
    rs ← gets (all_rows table)
    insert_or_fail table (insert_all table rs (fresh_rows n ids inputs))

  -- An UPDATE; the number of rows that it met.
  unfoldable pub update_where : (T → Bool) → (T → T) → Exec ℕ
  update_where p f = do n ← db_call env; update_rows table p f (env.clock n)

  -- `Update(ctx, id, value, field...)`: `assign` copies the selected fields of the value.
  unfoldable pub update : String → (T → T) → Exec (Unit {0})
  update id assign = do n ← update_where (has_id table id) assign; pure tt

  -- A soft DELETE of the live rows that pass the test; the number of rows that it met.
  unfoldable pub delete_where : (T → Bool) → Exec ℕ
  delete_where p = do n ← db_call env; delete_rows table p (env.clock n)

  unfoldable pub delete_by_id : String → Exec (Unit {0})
  delete_by_id id = do n ← delete_where (has_id table id); pure tt
