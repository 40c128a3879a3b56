-- ===== src/World/Quiet.antt =====
-- A step that leaves the tables alone, before one that something is to be shown of.
use dreon_notification.Prelude.{◌≡◌, refl, Bool, true, false, inl, inr}
use dreon_notification.Go.Error.{Error, Result, ok, err}
use dreon_notification.World.{World, Tables}
use dreon_notification.World.Exec.{Exec, ◌>>=◌, guard}
use dreon_notification.World.Frame.{Result-cases}

pub guard_quiet : (b : Bool) (e : Error) (w : World) → (guard b e w).1.tables ≡ w.tables
guard_quiet true e w = refl
guard_quiet false e w = refl

-- `Holds` is known of the tables, and enough for an error.
module _ {B : Type 0} (Holds : Tables → Type 0) (Outcome : Result B × World → Type 0)
    (failed : (e : Error) (v : World) → Holds v.tables → Outcome (err e, v)) where
  pub quiet-then :
      {A : Type 0} (m : Exec A) (f : A → Exec B) (w : World)
      → (m w).1.tables ≡ w.tables
      → Holds w.tables
      → ((a : A) → (m w).0 ≡ ok a → Holds (m w).1.tables → Outcome (f a (m w).1))
      → Outcome ((m >>= f) w)
  quiet-then m f w same h k =
      let h' : Holds (m w).1.tables = rw same h in
      elim (Result-cases (m w).0) [
        | inl (e, eq) ↦ rw eq (failed e (m w).1 h')
        | inr (a, eq) ↦ rw eq (k a eq h')
      ]
