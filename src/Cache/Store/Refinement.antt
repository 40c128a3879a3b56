-- ===== src/Cache/Store/Refinement.antt =====
-- pkg/cache/cache.go: the operations on keys, seen as those of a map from keys to items. The map knows
-- nothing of the service's prefix, of hidden items, or of the order in which they are kept.
use mathlib.Core.Path.{fun_ext}
use dreon_notification.Prelude.{
  ℕ, suc, ◌≡◌, refl, ap, inl, inr, Bool, true, false, String, ◌==◌, eq_iff, append_cancel_left,
  List, [], ◌∷◌, Option, none, some, arith, Bool-cases, Option-cases, if◌then◌else◌,
}
use dreon_notification.Go.Error.{Error, Result, ok, err, outside}
use dreon_notification.Go.Int.{ℤ}
use dreon_notification.Go.Text.{append}
use dreon_notification.Go.Value.{Value, str}
use dreon_notification.World.{World, Env, Item, text, Text, scalar}
use dreon_notification.World.Frame.{Result-cases}
use dreon_notification.Cache.{
  AppCache, prefixed_key, item_at, living, is_present, expiry, remove_key, set_nx,
}
use dreon_notification.Cache.Store.{stored_text, time_of, read_item, set, get, delete}

-- A call of one of the operations, and what it returns.
pub data Request : Type 0 where
  setting : String → Value → ℤ → Request
  setting_once : String → ℤ → Request
  getting : String → Request
  deleting : String → Request

pub data Reply : Type 0 where
  done : Reply
  flag : Bool → Reply
  value : Value → Reply

abbrev pub relay : {A : Type 0} → (A → Reply) → Result A → Result Reply
relay f (ok a) = ok (f a)
relay f (err e) = err e

module _ (env : Env) (c : AppCache) (unmarshal : Value → Option Value) where
  abbrev pub perform : Request → World → Result Reply × World
  perform (setting k v ttl) w = let (r, u) = set env c k v ttl w in (relay (λ _. done) r, u)
  perform (setting_once k ttl) w = let (r, u) = set_nx env c k ttl w in (relay flag r, u)
  perform (getting k) w = let (r, u) = get env c unmarshal k w in (relay value r, u)
  perform (deleting k) w = let (r, u) = delete env c k w in (relay (λ _. done) r, u)

  pub perform_all : List Request → World → List (Result Reply) × World
  perform_all [] w = ([], w)
  perform_all (r ∷ rs) w =
      let (reply, u) = perform r w in let (replies, v) = perform_all rs u in (reply ∷ replies, v)

-- The specification: a map, and the number of the next call of Redis.
pub record Memory : Type 0 where
  pub item : String → Option Item
  pub calls : ℕ

abbrev pub with_item : String → Option Item → Memory → Memory
with_item k i m = record { item = λ j. if k == j then i else m.item j; calls = suc m.calls }

abbrev pub unchanged : Memory → Memory
unchanged m = record { item = m.item; calls = suc m.calls }

abbrev pub answered : Option Error → Memory → Result Reply × Memory → Result Reply × Memory
answered (some e) m r = (err e, unchanged m)
answered none m r = r

abbrev pub set_answer : Option Error → ℕ → String → ℤ → Memory → Result Text → Result Reply × Memory
set_answer fault now k ttl m (err e) = (err e, m)
set_answer fault now k ttl m (ok t) =
    answered fault m
      (ok done, with_item k (some (text t (time_of now ttl (living now (m.item k))))) m)

abbrev pub once_answer : String → Option (Option ℕ) → Bool → Memory → Result Reply × Memory
once_answer k none present m = (err (outside "invalid expire time"), unchanged m)
once_answer k (some t) true m = (ok (flag false), unchanged m)
once_answer k (some t) false m = (ok (flag true), with_item k (some (text (scalar (str "1")) t)) m)

module _ (env : Env) (unmarshal : Value → Option Value) where
  abbrev pub now : Memory → ℕ
  now m = env.clock m.calls

  unfoldable pub answer : Request → Memory → Result Reply × Memory
  answer (setting k v ttl) m = set_answer (env.redis_fault m.calls) (now m) k ttl m (stored_text v)
  answer (setting_once k ttl) m =
      answered (env.redis_fault m.calls) m
        (once_answer k (expiry (now m) ttl) (is_present (living (now m) (m.item k))) m)
  answer (getting k) m =
      answered (env.redis_fault m.calls) m
        (relay value (read_item unmarshal (living (now m) (m.item k))), unchanged m)
  answer (deleting k) m = answered (env.redis_fault m.calls) m (ok done, with_item k none m)

  pub answer_all : List Request → Memory → List (Result Reply) × Memory
  answer_all [] m = ([], m)
  answer_all (r ∷ rs) m =
      let (reply, n) = answer r m in
      let (replies, last) = answer_all rs n in (reply ∷ replies, last)

-- The items that a service sees, by its own keys.
abbrev pub view : AppCache → World → Memory
view c w = record { item = λ k. item_at (prefixed_key c k) w.cache; calls = w.calls }

prefixed_key_inj : (c : AppCache) (k j : String) → prefixed_key c k ≡ prefixed_key c j → k ≡ j
unfolding prefixed_key
prefixed_key_inj c k j h =
    append_cancel_left ":" k j (append_cancel_left c.service_name (append ":" k) (append ":" j) h)

-- The test of two prefixed keys is that of the keys.
prefixed_key-eq : (c : AppCache) (k j : String) → (prefixed_key c k == prefixed_key c j) ≡ (k == j)
prefixed_key-eq c k j =
    ground (arith, eq_iff (prefixed_key c k) (prefixed_key c j), eq_iff k j, prefixed_key_inj c k j)

module _ (c : AppCache) where
  item_at-put :
      (k j : String) (i : Item) (items : List (String × Item))
      → item_at (prefixed_key c j) ((prefixed_key c k, i) ∷ items)
        ≡ (if k == j then some i else item_at (prefixed_key c j) items)
  unfolding item_at
  item_at-put k j i items = rw (prefixed_key-eq c k j) refl

  item_at-remove :
      (k j : String) (items : List (String × Item))
      → item_at (prefixed_key c j) (remove_key (prefixed_key c k) items)
        ≡ (if k == j then none else item_at (prefixed_key c j) items)
  unfolding item_at
  item_at-remove k j [] = ground arith
  item_at-remove k j ((l, i) ∷ items) = ground (
    arith,
    eq_iff l (prefixed_key c k),
    eq_iff l (prefixed_key c j),
    eq_iff (prefixed_key c k) (prefixed_key c j),
    prefixed_key-eq c k j,
    item_at-remove k j items,
  )

  abbrev memory : (String → Option Item) → ℕ → Memory
  memory f n = record { item = f; calls = n }

  view-put :
      (k : String) (i : Item) (w : World)
      → memory (λ j. item_at (prefixed_key c j) ((prefixed_key c k, i) ∷ w.cache)) (suc w.calls)
        ≡ with_item k (some i) (view c w)
  view-put k i w = ap (λ f. memory f (suc w.calls)) (fun_ext (λ j. item_at-put k j i w.cache))

  view-remove :
      (k : String) (w : World)
      → memory
          (λ j. item_at (prefixed_key c j) (remove_key (prefixed_key c k) w.cache))
          (suc w.calls)
        ≡ with_item k none (view c w)
  view-remove k w = ap (λ f. memory f (suc w.calls)) (fun_ext (λ j. item_at-remove k j w.cache))

module _ (env : Env) (c : AppCache) (unmarshal : Value → Option Value) where
  abbrev Agrees : Result Reply × World → Result Reply × Memory → Type 0
  Agrees r a = (r.0 ≡ a.0) × (view c r.1 ≡ a.1)

  set-Agrees :
      (k : String) (v : Value) (ttl : ℤ) (w : World)
      → Agrees
          (perform env c unmarshal (setting k v ttl) w)
          (answer env unmarshal (setting k v ttl) (view c w))
  unfolding answer set
  set-Agrees k v ttl w = elim (Result-cases (stored_text v)) [
    | inl (e, bad) ↦ rw bad (refl, refl)
    | inr (t, good) ↦ elim (Option-cases (env.redis_fault w.calls)) [
      | inl up ↦ rw (good, up) (refl, view-put c k _ w)
      | inr (e, down) ↦ rw (good, down) (refl, refl)
    ]
  ]

  get-Agrees :
      (k : String) (w : World)
      → Agrees (perform env c unmarshal (getting k) w) (answer env unmarshal (getting k) (view c w))
  unfolding answer get
  get-Agrees k w = elim (Option-cases (env.redis_fault w.calls)) [
    | inl up ↦ rw up (refl, refl)
    | inr (e, down) ↦ rw down (refl, refl)
  ]

  delete-Agrees :
      (k : String) (w : World)
      → Agrees
          (perform env c unmarshal (deleting k) w)
          (answer env unmarshal (deleting k) (view c w))
  unfolding answer delete
  delete-Agrees k w = elim (Option-cases (env.redis_fault w.calls)) [
    | inl up ↦ rw up (refl, view-remove c k w)
    | inr (e, down) ↦ rw down (refl, refl)
  ]

  set_nx-Agrees :
      (k : String) (ttl : ℤ) (w : World)
      → Agrees
          (perform env c unmarshal (setting_once k ttl) w)
          (answer env unmarshal (setting_once k ttl) (view c w))
  unfolding answer set_nx
  set_nx-Agrees k ttl w = elim (Option-cases (env.redis_fault w.calls)) [
    | inl up ↦ elim (Option-cases (expiry (env.clock w.calls) ttl)) [
      | inl bad ↦ rw (up, bad) (refl, refl)
      | inr (t, good) ↦
          elim (Bool-cases
            (is_present (living (env.clock w.calls) (item_at (prefixed_key c k) w.cache)))) [
              | inl old ↦ rw (up, good, old) (refl, refl)
              | inr new ↦ rw (up, good, new) (refl, view-put c k _ w)
            ]
    ]
    | inr (e, down) ↦ rw down (refl, refl)
  ]

  perform-Agrees :
      (r : Request) (w : World)
      → Agrees (perform env c unmarshal r w) (answer env unmarshal r (view c w))
  perform-Agrees (setting k v ttl) w = set-Agrees k v ttl w
  perform-Agrees (setting_once k ttl) w = set_nx-Agrees k ttl w
  perform-Agrees (getting k) w = get-Agrees k w
  perform-Agrees (deleting k) w = delete-Agrees k w

  -- Whatever calls of `Set`, `SetNX`, `Get` and `Delete` a service makes, and whichever of them fail, each
  -- returns what the map of its own keys returns, and the map's items are those under its keys at the end.
  pub perform_all-refines :
      (rs : List Request) (w : World)
      → ((perform_all env c unmarshal rs w).0 ≡ (answer_all env unmarshal rs (view c w)).0)
        × (view c (perform_all env c unmarshal rs w).1 ≡ (answer_all env unmarshal rs (view c w)).1)
  unfolding perform_all answer_all
  perform_all-refines [] w = (refl, refl)
  perform_all-refines (r ∷ rs) w =
      let (same_reply, same_view) = perform-Agrees r w in
      let (same_replies, same_last) = perform_all-refines rs (perform env c unmarshal r w).1 in
      (cc, cc)
