-- ===== src/World/Frame.antt =====
-- What a step leaves alone, and the split of a result that keeps the equation.
use dreon_notification.Prelude.{◌≡◌, refl, ap, ◌∙◌, ◌⊎◌, inl, inr}
use dreon_notification.Go.Error.{Error, Result, ok, err}
use dreon_notification.World.{World}
use dreon_notification.World.Exec.{Exec, ◌>>=◌, continue}

-- The second world differs from the first in the number of calls at most.
pub record Untouched (w v : World) : Type 0 where
  pub same_tables : v.tables ≡ w.tables
  pub same_published : v.published ≡ w.published
  pub same_deliveries : v.deliveries ≡ w.deliveries
  pub same_cache : v.cache ≡ w.cache

pub Untouched-refl : (w : World) → Untouched w w
Untouched-refl w = record {
  same_tables = refl;
  same_published = refl;
  same_deliveries = refl;
  same_cache = refl;
}

pub Untouched-trans : {u v w : World} → Untouched u v → Untouched v w → Untouched u w
Untouched-trans a b = record {
  same_tables = b.same_tables ∙ a.same_tables;
  same_published = b.same_published ∙ a.same_published;
  same_deliveries = b.same_deliveries ∙ a.same_deliveries;
  same_cache = b.same_cache ∙ a.same_cache;
}

pub Result-cases {ℓ} :
    {A : Type ℓ} (r : Result A) → ((e : Error) × (r ≡ err e)) ⊎ ((a : A) × (r ≡ ok a))
Result-cases (ok a) = inr (a, refl)
Result-cases (err e) = inl (e, refl)

module _ {ℓ κ} {A : Type ℓ} {B : Type κ} (f : A → Exec B) where
  continue-eq-ok :
      (r : Result A) (w : World) {b : B}
      → (continue r f w).0 ≡ ok b
      → (a : A) × (r ≡ ok a) × ((f a w).0 ≡ ok b)
  continue-eq-ok (ok a) w h = (a, refl, h)
  continue-eq-ok (err e) w h = cc

  -- A method that succeeds has succeeded in its first step and in the rest.
  pub >>=-eq-ok :
      (m : Exec A) (w : World) {b : B}
      → ((m >>= f) w).0 ≡ ok b
      → (a : A) × ((m w).0 ≡ ok a) × ((f a (m w).1).0 ≡ ok b)
  >>=-eq-ok m w h = continue-eq-ok (m w).0 (m w).1 h

abbrev value_or {ℓ} : {A : Type ℓ} → A → Result A → A
value_or a (ok b) = b
value_or a (err e) = a

pub ok-injective {ℓ} : {A : Type ℓ} {a b : A} → ok a ≡ ok b → a ≡ b
ok-injective {a} h = ap (value_or a) h
