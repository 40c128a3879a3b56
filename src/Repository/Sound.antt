-- ===== src/Repository/Sound.antt =====
-- The invariant of the table of notifications, and that every statement of the repository keeps it.
use mathlib.Core.Path.{subst}
use mathlib.Core.Option.{some-injective}
use dreon_notification.Prelude.{
  Bool-cases, ◌≢◌, ℕ, suc, ◌≡◌, refl, ap, ap₂, ◌⊎◌, inl, inr, Bool, true, false, String, ◌==◌,
  eq_iff, List, [], ◌∷◌, ◌++◌, map, Option, none, some, arith, All, All-append, All-map, contains,
  IsDistinct, IsDistinct-append, if◌then◌else◌,
}
use dreon_notification.Go.Int.{nat_lt_int}
use dreon_notification.Model.{Notification, status_pending, status_completed, status_failed}
use dreon_notification.World.{Env}
use dreon_notification.Repository.{refused}
use dreon_notification.Repository.Schema.{notifications}
use dreon_notification.Repository.Notifications.{backoff, put_off, cons_row, failed_row, fail_rows}

-- A row has one of the three statuses. A PENDING row is new or has attempts left, and a FAILED one
-- has used them up.
pub record IsSound (r : Notification) : Type 0 where
  pub has_status :
      (r.status ≡ status_pending) ⊎ (r.status ≡ status_completed) ⊎ (r.status ≡ status_failed)
  pub pending_left :
      r.status ≡ status_pending
      → (r.attempt_count ≡ 0) ⊎ (nat_lt_int r.attempt_count r.max_attempts ≡ true)
  pub failed_spent : r.status ≡ status_failed → nat_lt_int r.attempt_count r.max_attempts ≡ false

abbrev pub ids : List Notification → List String
ids = map (λ r. r.id)

abbrev pub keys : List Notification → List String
keys = map (λ r. r.idempotency_key)

-- Every row is sound, and no two rows share an id or an idempotency key.
pub record IsSoundTable (rs : List Notification) : Type 0 where
  pub sound : All IsSound rs
  pub distinct_ids : IsDistinct (ids rs)
  pub distinct_keys : IsDistinct (keys rs)

-- A step that keeps the id and the key of a row, and its soundness.
pub record KeepsRow (f : Notification → Notification) : Type 0 where
  pub same_id : (r : Notification) → (f r).id ≡ r.id
  pub same_key : (r : Notification) → (f r).idempotency_key ≡ r.idempotency_key
  pub keeps_sound : (r : Notification) → IsSound r → IsSound (f r)

module _ (f : Notification → Notification) (k : KeepsRow f) where
  ids-map : (rs : List Notification) → ids (map f rs) ≡ ids rs
  ids-map [] = refl
  ids-map (r ∷ rs) = ap₂ ◌∷◌ (k.same_id r) (ids-map rs)

  keys-map : (rs : List Notification) → keys (map f rs) ≡ keys rs
  keys-map [] = refl
  keys-map (r ∷ rs) = ap₂ ◌∷◌ (k.same_key r) (keys-map rs)

  pub map-IsSoundTable : (rs : List Notification) → IsSoundTable rs → IsSoundTable (map f rs)
  map-IsSoundTable rs h = record {
    sound = All-map IsSound f rs k.keeps_sound h.sound;
    distinct_ids = rw (ids-map rs) h.distinct_ids;
    distinct_keys = rw (keys-map rs) h.distinct_keys;
  }

-- What the primary key and the unique index refuse.
pub refused-keys :
    (rs : List Notification) (r : Notification)
    → refused notifications rs r ≡ false
    → (contains r.id (ids rs) ≡ false) × (contains r.idempotency_key (keys rs) ≡ false)
refused-keys [] r h = (refl, refl)
refused-keys (s ∷ rs) r h = ground (arith, refused-keys rs r)

ids-append : (rs : List Notification) (r : Notification) → ids (rs ++ r ∷ []) ≡ ids rs ++ r.id ∷ []
ids-append [] r = refl
ids-append (s ∷ rs) r = ap (◌∷◌ s.id) (ids-append rs r)

keys-append :
    (rs : List Notification) (r : Notification)
    → keys (rs ++ r ∷ []) ≡ keys rs ++ r.idempotency_key ∷ []
keys-append [] r = refl
keys-append (s ∷ rs) r = ap (◌∷◌ s.idempotency_key) (keys-append rs r)

pub insert-IsSoundTable :
    (rs : List Notification) (r : Notification)
    → refused notifications rs r ≡ false
    → IsSound r
    → IsSoundTable rs
    → IsSoundTable (rs ++ r ∷ [])
insert-IsSoundTable rs r free new h =
    let (new_id, new_key) = refused-keys rs r free in
    record {
      sound = All-append IsSound rs (r ∷ []) h.sound (new, tt);
      distinct_ids = rw (ids-append rs r) (IsDistinct-append r.id (ids rs) new_id h.distinct_ids);
      distinct_keys =
          rw (keys-append rs r)
            (IsDistinct-append r.idempotency_key (keys rs) new_key h.distinct_keys);
    }

pub failed_ne_pending : status_failed ≢ status_pending
failed_ne_pending = ground (arith, eq_iff status_failed status_pending)

pub completed_ne_pending : status_completed ≢ status_pending
completed_ne_pending = ground (arith, eq_iff status_completed status_pending)

pub completed_ne_failed : status_completed ≢ status_failed
completed_ne_failed = ground (arith, eq_iff status_completed status_failed)

-- What a failed send makes of a row.
record FromRow (r r' : Notification) : Type 0 where
  id_kept : r'.id ≡ r.id
  key_kept : r'.idempotency_key ≡ r.idempotency_key
  sound_kept : IsSound r → IsSound r'

exhausted-IsSound :
    (r : Notification)
    → nat_lt_int (suc r.attempt_count) r.max_attempts ≡ false
    → IsSound (record r { attempt_count = suc r.attempt_count; status = status_failed })
exhausted-IsSound r e = record {
  has_status = inr (inr refl);
  pending_left = λ p. absurd (failed_ne_pending p);
  failed_spent = λ _. e;
}

postponed-IsSound :
    (r : Notification) (at : Option ℕ)
    → nat_lt_int (suc r.attempt_count) r.max_attempts ≡ true
    → IsSound r
    → IsSound (record r { attempt_count = suc r.attempt_count; next_retry_at = at })
postponed-IsSound r at e h = record {
  has_status = h.has_status;
  pending_left = λ p. inr e;
  failed_spent = λ p. ground (arith, h.failed_spent p);
}

failed_row-FromRow :
    (env : Env) (now initial max : ℕ) (r r' : Notification)
    → failed_row env now initial max r ≡ some r'
    → FromRow r r'
unfolding failed_row
failed_row-FromRow env now initial max r r' h =
    elim (Bool-cases (nat_lt_int (suc r.attempt_count) r.max_attempts)) [
      | inl e ↦ postponed (backoff env initial r.attempt_count) e (rw e at h)
      | inr e ↦
          subst (FromRow r) (some-injective _ _ (rw e at h))
            (record { id_kept = refl; key_kept = refl; sound_kept = λ _. exhausted-IsSound r e })
    ]
  where
    postponed :
        (o : Option ℕ)
        → nat_lt_int (suc r.attempt_count) r.max_attempts ≡ true
        → put_off now max r o ≡ some r'
        → FromRow r r'
    postponed none e h' = cc
    postponed (some d) e h' = subst (FromRow r) (some-injective _ _ h') (record {
      id_kept = refl;
      key_kept = refl;
      sound_kept = λ h''. postponed-IsSound r _ e h'';
    })

cons_row-eq-some :
    (o : Option Notification) (p : Option (List Notification)) (rs : List Notification)
    → cons_row o p ≡ some rs
    → (r : Notification) × (rest : List Notification) × (o ≡ some r)
      × (p ≡ some rest)
      × (r ∷ rest ≡ rs)
cons_row-eq-some (some r) (some rest) rs h = (r, rest, refl, refl, some-injective _ _ h)
cons_row-eq-some (some r) none rs h = cc
cons_row-eq-some none p rs h = cc

-- What a statement makes of the rows.
record FromRows (rs rs' : List Notification) : Type 0 where
  ids_kept : ids rs' ≡ ids rs
  keys_kept : keys rs' ≡ keys rs
  all_kept : All IsSound rs → All IsSound rs'

cons-FromRows :
    (r r' : Notification) (rs rs' : List Notification)
    → FromRow r r'
    → FromRows rs rs'
    → FromRows (r ∷ rs) (r' ∷ rs')
cons-FromRows r r' rs rs' h k = record {
  ids_kept = ap₂ ◌∷◌ h.id_kept k.ids_kept;
  keys_kept = ap₂ ◌∷◌ h.key_kept k.keys_kept;
  all_kept = λ (p, ps). (h.sound_kept p, k.all_kept ps);
}

FromRow-if :
    (b : Bool) (f : Notification → Option Notification) (r r' : Notification)
    → ((s : Notification) → f r ≡ some s → FromRow r s)
    → (if b then f r else some r) ≡ some r'
    → FromRow r r'
FromRow-if true f r r' h e = h r' e
FromRow-if false f r r' h e =
    subst (FromRow r) (some-injective _ _ e)
      (record { id_kept = refl; key_kept = refl; sound_kept = λ p. p })

fail_rows-FromRows :
    (env : Env) (id : String) (now initial max : ℕ) (rs rs' : List Notification)
    → fail_rows id (failed_row env now initial max) rs ≡ some rs'
    → FromRows rs rs'
unfolding fail_rows
fail_rows-FromRows env id now initial max [] rs' h =
    subst (FromRows []) (some-injective _ _ h)
      (record { ids_kept = refl; keys_kept = refl; all_kept = λ p. p })
fail_rows-FromRows env id now initial max (r ∷ rs) rs' h =
    let (r', rest, e, es, eq) =
      cons_row-eq-some _ (fail_rows id (failed_row env now initial max) rs) rs' h in
    subst (FromRows (r ∷ rs)) eq (
      cons-FromRows r r' rs rest
        (FromRow-if (r.id == id) (failed_row env now initial max) r r'
          (failed_row-FromRow env now initial max r) e)
        (fail_rows-FromRows env id now initial max rs rest es))

pub fail_rows-IsSoundTable :
    (env : Env) (id : String) (now initial max : ℕ) (rs rs' : List Notification)
    → fail_rows id (failed_row env now initial max) rs ≡ some rs'
    → IsSoundTable rs
    → IsSoundTable rs'
fail_rows-IsSoundTable env id now initial max rs rs' e h =
    let kept = fail_rows-FromRows env id now initial max rs rs' e in
    record {
      sound = kept.all_kept h.sound;
      distinct_ids = rw kept.ids_kept h.distinct_ids;
      distinct_keys = rw kept.keys_kept h.distinct_keys;
    }
