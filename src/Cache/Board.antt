-- ===== src/Cache/Board.antt =====
-- pkg/cache/cache.go: leaderboards, which are sorted sets of Redis.
pub mod Order
pub mod Standing
use dreon_notification.Prelude.{
  ℕ, zero, suc, ◌+◌, ◌-◌, Bool, true, false, ◌||◌, ◌&&◌, String, ◌==◌, List, [], ◌∷◌, Option, none,
  some, length, take, drop, ltb, if◌then◌else◌,
}
use Prim.Native.Nat.{compare as compare_ℕ, Ordering}
use Prim.Native.String.{compare}
use dreon_notification.Go.Error.{Error, Result, ok, err, outside}
use dreon_notification.Go.Int.{ℤ, pos, negsuc, is_negative, add_int64, sub_int64}
use dreon_notification.World.{World, Env, Item, text, board, Entry}
use dreon_notification.World.Exec.{Exec, pure, raise, lift, gets, ◌>>=◌, ◌>>◌, modify}
use dreon_notification.Cache.{
  AppCache, prefixed_key, item_at, living, put_item, remove_key, redis_call,
}

-- The order of ZREVRANGE: by the score, and by the member where two scores are the same.
abbrev pub is_after : Ordering → Bool
is_after Ordering.gt = true
is_after Ordering.lt = false
is_after Ordering.eq = false

abbrev pub stands_above : Entry → Entry → Bool
stands_above a b = elim (compare_ℕ a.score b.score) [
  | Ordering.gt ↦ true
  | Ordering.eq ↦ is_after (compare a.member b.member)
  | Ordering.lt ↦ false
]

-- ZREM and ZADD
unfoldable pub without_member : String → List Entry → List Entry
without_member m [] = []
without_member m (e ∷ es) = if e.member == m then without_member m es else e ∷ without_member m es

unfoldable pub place : Entry → List Entry → List Entry
place e [] = e ∷ []
place e (f ∷ fs) = if stands_above e f then e ∷ f ∷ fs else f ∷ place e fs

abbrev pub next_rank : Option ℕ → Option ℕ
next_rank none = none
next_rank (some r) = some (suc r)

-- ZREVRANK and ZSCORE
unfoldable pub rank_of : String → List Entry → Option ℕ
rank_of m [] = none
rank_of m (e ∷ es) = if e.member == m then some zero else next_rank (rank_of m es)

unfoldable pub score_of : String → List Entry → Option ℕ
score_of m [] = none
score_of m (e ∷ es) = if e.member == m then some e.score else score_of m es

-- An index of a range of Redis: a negative one counts from the end, and stops at the beginning.
abbrev pub from_start : ℕ → ℤ → ℕ
from_start n (pos i) = i
from_start n (negsuc i) = n - suc i

-- The number of entries up to and with the one at the index.
abbrev pub up_to : ℕ → ℤ → ℕ
up_to n (pos i) = suc i
up_to n (negsuc i) = n - i

-- ZREVRANGE
unfoldable pub rev_range : ℤ → ℤ → List Entry → List Entry
rev_range start stop es = let n = length es in drop (from_start n start) (take (up_to n stop) es)

-- The sorted set under a key: none is an empty one.
abbrev pub entries_at : Option Item → Result (List Entry)
entries_at none = ok []
entries_at (some (board es)) = ok es
entries_at (some (text t at)) = err (outside "WRONGTYPE")

abbrev pub found : Option ℕ → Result ℕ
found none = err (outside "redis: nil")
found (some n) = ok n

module _ (env : Env) (c : AppCache) where
  -- One command on a sorted set: the entries that it finds.
  abbrev pub entries : String → Exec (List Entry)
  entries key = do
    n ← redis_call env
    item ← gets (λ w. living (env.clock n) (item_at (prefixed_key c key) w.cache))
    lift (entries_at item)

  -- A sorted set that is left with no entry is gone.
  abbrev pub put_entries : String → List Entry → Exec (Unit {0})
  put_entries key [] = modify (λ w. record w { cache = remove_key (prefixed_key c key) w.cache })
  put_entries key (e ∷ es) = modify (put_item (prefixed_key c key) (board (e ∷ es)))

  -- `AddScore`
  unfoldable pub add_score : String → String → ℕ → Exec (Unit {0})
  add_score key member score = do
    es ← entries key
    put_entries key (place (record { member = member; score = score }) (without_member member es))

  -- `GetTopN`
  unfoldable pub get_top_n : String → ℤ → Exec (List Entry)
  get_top_n key n = do es ← entries key; pure (rev_range (pos 0) (sub_int64 n (pos 1)) es)

  -- `GetRank`
  unfoldable pub get_rank : String → String → Exec (ℕ × ℕ)
  get_rank key member = do
    es ← entries key
    rank ← lift (found (rank_of member es))
    fs ← entries key
    score ← lift (found (score_of member fs))
    pure (suc rank, score)

  -- `RemoveMember`
  unfoldable pub remove_member : String → String → Exec (Unit {0})
  remove_member key member = do es ← entries key; put_entries key (without_member member es)

  -- `GetAroundMember`
  unfoldable pub get_around_member : String → String → ℤ → Exec (List Entry)
  get_around_member key member radius = do
    es ← entries key
    rank ← lift (found (rank_of member es))
    fs ← entries key
    let start = sub_int64 (pos rank) radius
    pure (rev_range (if is_negative start then pos 0 else start) (add_int64 (pos rank) radius) fs)
