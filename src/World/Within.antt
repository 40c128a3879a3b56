-- ===== src/World/Within.antt =====
-- Methods that stay within a relation between the world before and the world after, whatever they
-- return: one rule for each way to build a method.
use dreon_notification.Prelude.{
  ℕ, suc, ◌≡◌, refl, Bool, true, false, Option, none, some, if◌then◌else◌,
}
use dreon_notification.Go.Error.{Error, Result, ok, err}
use dreon_notification.World.{World}
use dreon_notification.World.Exec.{
  Exec, pure, raise, lift, gets, ask, attempt, continue, ◌>>=◌, ◌>>◌, modify, fail_with, guard,
  map_error, or_none,
}

-- A relation that steps can be chained in, and that a call of the outside meets.
pub record IsFrame (R : World → World → Type 0) : Type 0 where
  pub idle : (w : World) → R w w
  pub chain : {u v w : World} → R u v → R v w → R u w
  pub counted : (w : World) → R w (record w { calls = suc w.calls })

pub record Within (R : World → World → Type 0) {A : Type 0} (m : Exec A) : Type 0 where
  pub at : (w : World) → R w (m w).1

module _ {R : World → World → Type 0} (frame : IsFrame R) where
  continue-Within :
      {A B : Type 0} (f : A → Exec B) (w v : World) (r : Result A)
      → R w v
      → ((a : A) → Within R (f a))
      → R w (continue r f v).1
  continue-Within f w v (ok a) h k = frame.chain h ((k a).at v)
  continue-Within f w v (err e) h k = h

  pub Within-bind :
      {A B : Type 0} {m : Exec A} {f : A → Exec B}
      → Within R m
      → ((a : A) → Within R (f a))
      → Within R (m >>= f)
  Within-bind {m} {f} h k = record { at = λ w. continue-Within f w (m w).1 (m w).0 (h.at w) k }

  pub Within-lift : {A : Type 0} (r : Result A) → Within R (lift r)
  Within-lift r = record { at = frame.idle }

  pub Within-pure : {A : Type 0} (a : A) → Within R (pure a)
  Within-pure a = record { at = frame.idle }

  pub Within-raise : {A : Type 0} (e : Error) → Within R (raise {A = A} e)
  Within-raise e = record { at = frame.idle }

  pub Within-gets : {A : Type 0} (f : World → A) → Within R (gets f)
  Within-gets f = record { at = frame.idle }

  pub Within-ask : {A : Type 0} (f : ℕ → A) → Within R (ask f)
  Within-ask f = record { at = frame.counted }

  pub Within-fail_with : (o : Option Error) → Within R (fail_with o)
  Within-fail_with none = record { at = frame.idle }
  Within-fail_with (some e) = record { at = frame.idle }

  guard-at : (b : Bool) (e : Error) (w : World) → R w (guard b e w).1
  guard-at true e w = frame.idle w
  guard-at false e w = frame.idle w

  pub Within-guard : (b : Bool) (e : Error) → Within R (guard b e)
  Within-guard b e = record { at = guard-at b e }

  pub Within-attempt : {A : Type 0} {m : Exec A} → Within R m → Within R (attempt m)
  Within-attempt h = record { at = h.at }

  pub Within-map_error :
      {A : Type 0} (f : Error → Error) {m : Exec A} → Within R m → Within R (map_error f m)
  Within-map_error f h = record { at = h.at }

  pub Within-or_none : {A : Type 0} {m : Exec (Option A)} → Within R m → Within R (or_none m)
  Within-or_none h = record { at = h.at }

  pub Within-if :
      {A : Type 0} (b : Bool) {m n : Exec A}
      → Within R m
      → Within R n
      → Within R (if b then m else n)
  Within-if true h k = h
  Within-if false h k = k

  pub Within-modify : (f : World → World) → ((w : World) → R w (f w)) → Within R (modify f)
  Within-modify f h = record { at = h }

  -- A step that reads the world first is judged at the world that it reads.
  pub Within-read :
      {A B : Type 0} (g : World → A) (f : A → Exec B)
      → ((w : World) → R w (f (g w) w).1)
      → Within R (gets g >>= f)
  Within-read g f h = record { at = h }

  pub Within-guarded :
      {A : Type 0} (b : Bool) (e : Error) (m : Exec A) (w : World)
      → (b ≡ false → R w (m w).1)
      → R w ((guard b e >> m) w).1
  Within-guarded true e m w h = frame.idle w
  Within-guarded false e m w h = h refl

pub ruleset within_rules = (
  Within-bind, Within-lift, Within-pure, Within-raise, Within-gets, Within-ask, Within-fail_with,
  Within-guard, Within-attempt, Within-map_error, Within-or_none, Within-if,
)
