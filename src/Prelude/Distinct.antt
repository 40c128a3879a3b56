-- ===== src/Prelude/Distinct.antt =====
-- Lists of texts in which no text stands twice.
use Prim.Native.String.{String}
use mathlib.Core.Path.{◌≡◌, refl}
use mathlib.Core.Bool.{Bool, false, ◌||◌}
use mathlib.Core.List.{List, [], ◌∷◌, ◌++◌}
use native.Mathlib.Omega.{arith}
use text.Mathlib.Text.{◌==◌}
use text.Mathlib.TextEquality.{eq_iff}
use dreon_notification.Prelude.Lists.{any}

abbrev pub contains : String → List String → Bool
contains u xs = any (λ s. s == u) xs

abbrev pub IsDistinct : List String → Type 0
IsDistinct [] = Unit
IsDistinct (x ∷ xs) = (contains x xs ≡ false) × IsDistinct xs

pub contains-append :
    (u : String) (xs ys : List String) → contains u (xs ++ ys) ≡ (contains u xs || contains u ys)
contains-append u [] ys = refl
contains-append u (x ∷ xs) ys = ground (arith, contains-append u xs ys)

pub IsDistinct-append :
    (x : String) (xs : List String)
    → contains x xs ≡ false
    → IsDistinct xs
    → IsDistinct (xs ++ x ∷ [])
IsDistinct-append x [] h d = (refl, tt)
IsDistinct-append x (y ∷ xs) h (new, d) = (
  ground (arith, contains-append y xs (x ∷ []), eq_iff x y, eq_iff y x),
  IsDistinct-append x xs (ground arith) d,
)
