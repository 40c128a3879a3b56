-- ===== src/Cache/Store.antt =====
-- pkg/cache/cache.go: `Set`, `Get`, `Delete`, `Clear` and `ClearWithPrefix`. `Set` is given an expiration
-- (a nil one panics). What `json.Unmarshal` makes of the text of a scalar, and the patterns of `KEYS`,
-- are parameters.
pub mod Refinement
use dreon_notification.Prelude.{
  ℕ, zero, suc, ◌+◌, Bool, true, false, ◌&&◌, not, String, ◌==◌, List, [], ◌∷◌, Option, none, some,
  any, is_nil, select, if◌then◌else◌,
}
use dreon_notification.Go.Error.{Error, Result, ok, err, plain, outside, context}
use dreon_notification.Go.Int.{ℤ, pos, negsuc}
use dreon_notification.Go.Text.{append}
use dreon_notification.Go.Value.{
  Value, null, boolean, num, not_finite, str, timestamp, arr, obj, marshal,
}
use dreon_notification.World.{World, Env, Item, text, board, Text, scalar, document}
use dreon_notification.World.Exec.{Exec, pure, raise, lift, gets, ◌>>=◌, ◌>>◌, modify, map_error}
use dreon_notification.Cache.{
  AppCache, prefixed_key, item_at, living, is_present, put_item, remove_key, redis_call,
}

abbrev pub document_or_error : Option Value → Result Text
document_or_error none = err (context "failed to marshal value" (plain "json: unsupported value"))
document_or_error (some v) = ok (document v)

-- The type switch: a string, a number or a Boolean is written as it is, all else as JSON.
unfoldable pub stored_text : Value → Result Text
stored_text (boolean b) = ok (scalar (boolean b))
stored_text (num n) = ok (scalar (num n))
stored_text not_finite = ok (scalar not_finite)
stored_text (str s) = ok (scalar (str s))
stored_text null = document_or_error (marshal null)
stored_text (timestamp t) = document_or_error (marshal (timestamp t))
stored_text (arr xs) = document_or_error (marshal (arr xs))
stored_text (obj fs) = document_or_error (marshal (obj fs))

abbrev pub kept_time : Option Item → Option ℕ
kept_time none = none
kept_time (some (board es)) = none
kept_time (some (text t at)) = at

-- The expiration argument of go-redis's `Set`: KeepTTL (-1) leaves the time of a living key, and any other
-- that is not positive sets none.
abbrev pub time_of : ℕ → ℤ → Option Item → Option ℕ
time_of now (pos zero) old = none
time_of now (pos (suc d)) old = some (now + suc d)
time_of now (negsuc zero) old = kept_time old
time_of now (negsuc (suc d)) old = none

abbrev pub keep_unlisted : List String → List (String × Item) → List (String × Item)
keep_unlisted ks items = select (λ p. not (any (λ k. k == p.0) ks)) items

-- KEYS, with the test of the pattern
abbrev pub living_keys : ℕ → (String → Bool) → List (String × Item) → List String
living_keys now test [] = []
living_keys now test ((k, i) ∷ rest) =
    if is_present (living now (some i)) && test k
    then k ∷ living_keys now test rest
    else living_keys now test rest

-- `json.Unmarshal` of a string, or the error of GET on another kind of value or on no value.
abbrev pub read_item : (Value → Option Value) → Option Item → Result Value
read_item unmarshal none = err (outside "redis: nil")
read_item unmarshal (some (board es)) = err (outside "WRONGTYPE")
read_item unmarshal (some (text (document v) at)) = ok v
read_item unmarshal (some (text (scalar v) at)) = elim (unmarshal v) [
  | some u ↦ ok u
  | none ↦ err (plain "json: invalid character")
]

module _ (env : Env) (c : AppCache) where
  -- `Set`
  unfoldable pub set : String → Value → ℤ → Exec (Unit {0})
  set key value ttl = do
    t ← lift (stored_text value)
    n ← redis_call env
    old ← gets (λ w. living (env.clock n) (item_at (prefixed_key c key) w.cache))
    modify (put_item (prefixed_key c key) (text t (time_of (env.clock n) ttl old)))

  -- `Get`
  unfoldable pub get : (Value → Option Value) → String → Exec Value
  get unmarshal key = do
    n ← redis_call env
    item ← gets (λ w. living (env.clock n) (item_at (prefixed_key c key) w.cache))
    lift (read_item unmarshal item)

  -- `Delete`
  unfoldable pub delete : String → Exec (Unit {0})
  delete key = do
    n ← redis_call env
    modify (λ w. record w { cache = remove_key (prefixed_key c key) w.cache })

  -- `Clear` empties all of Redis.
  unfoldable pub clear : Exec (Unit {0})
  clear = do n ← redis_call env; modify (λ w. record w { cache = [] })

  abbrev pub delete_listed : List String → Exec (Unit {0})
  delete_listed [] = pure tt
  delete_listed (k ∷ ks) = do
    n ← redis_call env
    modify (λ w. record w { cache = keep_unlisted (k ∷ ks) w.cache })

  -- `ClearWithPrefix`
  unfoldable pub clear_with_prefix : (String → String → Bool) → String → Exec (Unit {0})
  clear_with_prefix matches prefix = do
    n ← redis_call env
    keys ←
        gets (λ w. living_keys (env.clock n) (matches (prefixed_key c (append prefix "*"))) w.cache)
    delete_listed keys
