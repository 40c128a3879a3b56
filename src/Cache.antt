-- ===== src/Cache.antt =====
-- pkg/cache/cache.go: the keys, and `SetNX`, on which the scheduler's deduplication rests. The keys of
-- Redis are part of the world; a key whose time has come is gone.
pub mod Once
pub mod Store
pub mod Board
pub mod Stream
use dreon_notification.Prelude.{
  ℕ, zero, suc, ◌+◌, Bool, true, false, String, ◌==◌, List, [], ◌∷◌, Option, none, some, ltb,
  if◌then◌else◌,
}
use dreon_notification.Go.Error.{Error, outside}
use dreon_notification.Go.Int.{ℤ, pos, negsuc}
use dreon_notification.Go.Text.{append}
use dreon_notification.Go.Value.{str}
use dreon_notification.World.{World, Env, Item, text, board, scalar, Text, Entry}
use dreon_notification.World.Exec.{Exec, pure, raise, gets, ask, ◌>>=◌, ◌>>◌, modify, fail_with}

pub record AppCache : Type 0 where
  pub service_name : String

-- `prefixedKey`
unfoldable pub prefixed_key : AppCache → String → String
prefixed_key c key = append c.service_name (append ":" key)

-- The item under a key, whether or not its time has come.
unfoldable pub item_at : String → List (String × Item) → Option Item
item_at k [] = none
item_at k ((j, i) ∷ rest) = if j == k then some i else item_at k rest

abbrev pub unexpired : ℕ → Item → Bool
unexpired now (text t none) = true
unexpired now (text t (some at)) = ltb now at
unexpired now (board es) = true

abbrev pub living : ℕ → Option Item → Option Item
living now none = none
living now (some i) = if unexpired now i then some i else none

abbrev pub is_present : Option Item → Bool
is_present none = false
is_present (some i) = true

-- The expiration argument of go-redis's `SetNX`: 0 and KeepTTL (-1) set no time, and Redis refuses other
-- times that are not positive.
abbrev pub expiry : ℕ → ℤ → Option (Option ℕ)
expiry now (pos zero) = some none
expiry now (pos (suc d)) = some (some (now + suc d))
expiry now (negsuc zero) = some none
expiry now (negsuc (suc d)) = none

abbrev pub put_item : String → Item → World → World
put_item k i w = record w { cache = (k, i) ∷ w.cache }

abbrev pub remove_key : String → List (String × Item) → List (String × Item)
remove_key k [] = []
remove_key k ((j, i) ∷ rest) = if j == k then remove_key k rest else (j, i) ∷ remove_key k rest

abbrev pub set_if_absent : String → Option (Option ℕ) → Bool → Exec Bool
set_if_absent k none present = raise (outside "invalid expire time")
set_if_absent k (some t) true = pure false
set_if_absent k (some t) false = do modify (put_item k (text (scalar (str "1")) t)); pure true

-- One call of Redis: its number, if it does not fail.
abbrev pub redis_call : Env → Exec ℕ
redis_call env = do n ← ask (λ n. n); fail_with (env.redis_fault n); pure n

module _ (env : Env) where
  -- `SetNX(ctx, key, ttl)`
  unfoldable pub set_nx : AppCache → String → ℤ → Exec Bool
  set_nx c key ttl = do
    n ← redis_call env
    present ← gets (λ w. is_present (living (env.clock n) (item_at (prefixed_key c key) w.cache)))
    set_if_absent (prefixed_key c key) (expiry (env.clock n) ttl) present
