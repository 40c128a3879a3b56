-- ===== src/Cache/Once.antt =====
-- pkg/cache/cache.go, `SetNX`: one caller at most is told that it set the key.
use dreon_notification.Prelude.{
  ℕ, suc, ◌+◌, ◌<◌, ◌≡◌, ◌≢◌, refl, inl, inr, Bool, true, false, String, eq_refl, List, ◌∷◌, none,
  some, lt→ltb, Bool-cases, Option-cases,
}
use dreon_notification.Go.Error.{Error, ok, err}
use dreon_notification.Go.Int.{pos}
use dreon_notification.World.{World, Env, Item, text, scalar}
use dreon_notification.Go.Value.{str}
use dreon_notification.Cache.{AppCache, prefixed_key, item_at, living, is_present, set_nx}

module _ (env : Env) (c : AppCache) (key : String) where
  abbrev is_set : ℕ → World → Bool
  is_set now w = is_present (living now (item_at (prefixed_key c key) w.cache))

  set_nx_fault :
      (d : ℕ) (w : World) (e : Error)
      → env.redis_fault w.calls ≡ some e
      → (set_nx env c key (pos (suc d)) w).0 ≡ err e
  unfolding set_nx
  set_nx_fault d w e down = rw down refl

  set_nx_present :
      (d : ℕ) (w : World)
      → env.redis_fault w.calls ≡ none
      → is_set (env.clock w.calls) w ≡ true
      → (set_nx env c key (pos (suc d)) w).0 ≡ ok false
  unfolding set_nx
  set_nx_present d w up e = rw (up, e) refl

  set_nx_absent :
      (d : ℕ) (w : World)
      → env.redis_fault w.calls ≡ none
      → is_set (env.clock w.calls) w ≡ false
      → (set_nx env c key (pos (suc d)) w).1.cache
        ≡ (prefixed_key c key, text (scalar (str "1")) (some (env.clock w.calls + suc d))) ∷ w.cache
  unfolding set_nx
  set_nx_absent d w up e = rw (up, e) refl

  -- The key that a successful call has left.
  first_call :
      (d : ℕ) (w : World)
      → (set_nx env c key (pos (suc d)) w).0 ≡ ok true
      → (set_nx env c key (pos (suc d)) w).1.cache
        ≡ (prefixed_key c key, text (scalar (str "1")) (some (env.clock w.calls + suc d))) ∷ w.cache
  first_call d w h = elim (Option-cases (env.redis_fault w.calls)) [
    | inl up ↦ elim (Bool-cases (is_set (env.clock w.calls) w)) [
      | inl e ↦ cc (set_nx_present d w up e)
      | inr e ↦ set_nx_absent d w up e
    ]
    | inr (e, down) ↦ cc (set_nx_fault d w e down)
  ]

  still_set :
      (now t : ℕ) (v : World) (rest : List (String × Item))
      → now < t
      → v.cache ≡ (prefixed_key c key, text (scalar (str "1")) (some t)) ∷ rest
      → is_set now v ≡ true
  unfolding item_at
  still_set now t v rest lt e = rw (e, eq_refl (prefixed_key c key), lt→ltb now t lt) refl

  -- After a call has set the key for the duration `suc d`, a call that comes before it has passed and
  -- finds the keys as that call left them does not set it, whatever its own duration.
  set_nx_once :
      (d k : ℕ) (w v : World)
      → (set_nx env c key (pos (suc d)) w).0 ≡ ok true
      → v.cache ≡ (set_nx env c key (pos (suc d)) w).1.cache
      → env.clock v.calls < env.clock w.calls + suc d
      → (set_nx env c key (pos (suc k)) v).0 ≢ ok true
  set_nx_once d k w v h same lt again = elim (Option-cases (env.redis_fault v.calls)) [
    | inl up ↦
        let set =
          still_set (env.clock v.calls) (env.clock w.calls + suc d) v w.cache lt
            (cc (first_call d w h)) in
        cc (set_nx_present k v up set)
    | inr (e, down) ↦ cc (set_nx_fault k v e down)
  ]
