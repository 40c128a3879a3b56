-- ===== src/World/Ensures.antt =====
-- What a method that succeeds returns.
use dreon_notification.Prelude.{◌≡◌}
use mathlib.Core.Path.{subst}
use dreon_notification.Go.Error.{Error, Result, ok, err}
use dreon_notification.World.{World}
use dreon_notification.World.Exec.{Exec, pure, ◌>>=◌, map_error, relabel}
use dreon_notification.World.Frame.{>>=-eq-ok, ok-injective}

pub record Ensures {A : Type 0} (P : A → Type 0) (m : Exec A) : Type 0 where
  pub at : (w : World) (a : A) → (m w).0 ≡ ok a → P a

relabel-eq-ok :
    {A : Type 0} (f : Error → Error) (r : Result A) (a : A) → relabel f r ≡ ok a → r ≡ ok a
relabel-eq-ok f (ok b) a h = h
relabel-eq-ok f (err e) a h = cc

module _ {A : Type 0} {P : A → Type 0} where
  pub Ensures-pure : (a : A) → P a → Ensures P (pure a)
  Ensures-pure a h = record { at = λ w b e. subst P (ok-injective e) h }

  pub Ensures-map_error : (f : Error → Error) (m : Exec A) → Ensures P m → Ensures P (map_error f m)
  Ensures-map_error f m h = record { at = λ w a e. h.at w a (relabel-eq-ok f (m w).0 a e) }

module _ {A B : Type 0} {P : B → Type 0} where
  -- What the rest ensures, whatever the step has returned.
  pub Ensures-then :
      (m : Exec A) {f : A → Exec B} → ((a : A) → Ensures P (f a)) → Ensures P (m >>= f)
  Ensures-then m {f} h = record {
    at = λ w b e. let (a, first, rest) = >>=-eq-ok f m w e in (h a).at (m w).1 b rest;
  }

  -- What the rest ensures of what the step has ensured.
  pub Ensures-with :
      {Q : A → Type 0} {m : Exec A} {f : A → Exec B}
      → Ensures Q m
      → ((a : A) → Q a → Ensures P (f a))
      → Ensures P (m >>= f)
  Ensures-with {Q} {m} {f} h k = record {
    at = λ w b e.
        let (a, first, rest) = >>=-eq-ok f m w e in (k a (h.at w a first)).at (m w).1 b rest;
  }
