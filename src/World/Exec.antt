-- ===== src/World/Exec.antt =====
-- The monad of the methods: `if err != nil { return …, err }` is its bind, and `attempt` hands an
-- error over as a value, for code that goes on after it.
use dreon_notification.Prelude.{ℕ, suc, Bool, Option, none, some, if◌then◌else◌}
use dreon_notification.Go.Error.{Error, Result, ok, err}
use dreon_notification.World.{World, Tables}

abbrev pub Exec {ℓ} : Type ℓ → Type ℓ
Exec A = World → Result A × World

module _ {ℓ} {A : Type ℓ} where
  abbrev pub pure : A → Exec A
  pure a w = (ok a, w)

  abbrev pub raise : Error → Exec A
  raise e w = (err e, w)

  -- The value that a computed result holds, or its error.
  abbrev pub lift : Result A → Exec A
  lift r w = (r, w)

  abbrev pub gets : (World → A) → Exec A
  gets f w = (ok (f w), w)

  -- One call of the outside, answered by its number.
  abbrev pub ask : (ℕ → A) → Exec A
  ask f w = (ok (f w.calls), record w { calls = suc w.calls })

  -- The error, if there is one, is handed over as a value.
  abbrev pub attempt : Exec A → Exec (Result A)
  attempt m w = let (r, w') = m w in (ok r, w')

module _ {ℓ κ} {A : Type ℓ} {B : Type κ} where
  abbrev pub continue : Result A → (A → World → Result B × World) → World → Result B × World
  continue (ok a) f w = f a w
  continue (err e) f w = (err e, w)

  infixl 5 ◌>>=◌
  abbrev pub ◌>>=◌ : Exec A → (A → Exec B) → Exec B
  ◌>>=◌ m f w = let (r, w') = m w in continue r f w'

infixl 5 ◌>>◌
abbrev pub ◌>>◌ {ℓ} : {B : Type ℓ} → Exec (Unit {0}) → Exec B → Exec B
m >> n = m >>= λ _. n

abbrev pub modify : (World → World) → Exec (Unit {0})
modify f w = (ok tt, f w)

abbrev pub set_tables : Tables → World → World
set_tables t w = record w { tables = t }

-- An optional error, as the outcome of a call.
abbrev pub fail_with : Option Error → Exec (Unit {0})
fail_with none = pure tt
fail_with (some e) = raise e

-- `if test { return err }`
abbrev pub guard : Bool → Error → Exec (Unit {0})
guard test e w = if test then (err e, w) else (ok tt, w)

module _ {ℓ} {A : Type ℓ} where
  abbrev pub relabel : (Error → Error) → Result A → Result A
  relabel f (ok a) = ok a
  relabel f (err e) = err (f e)

  -- An error is wrapped before it is returned.
  abbrev pub map_error : (Error → Error) → Exec A → Exec A
  map_error f m w = let (r, w') = m w in (relabel f r, w')

  abbrev pub none_on_error : Result (Option A) → Option A
  none_on_error (ok o) = o
  none_on_error (err e) = none

  -- `if err != nil { return nil }`
  abbrev pub or_none : Exec (Option A) → Exec (Option A)
  or_none m w = let (r, w') = m w in (ok (none_on_error r), w')
