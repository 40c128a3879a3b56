-- ===== src/Go/Text.antt =====
-- Go strings as texts: `strings.TrimSpace` and concatenation. A text is a sequence of Unicode code
-- points, so strings that are not valid UTF-8 are outside the model.
use Prim.Native.Nat.{compare, Ordering}
use Prim.Native.Char.{Char, code}
use Prim.Native.String.{◌++◌}
use dreon_notification.Prelude.{ℕ, Bool, true, false, ◌&&◌, ◌||◌, String, leb, if◌then◌else◌}

abbrev pub append : String → String → String
append s t = s ++ t

unfoldable pub code_is : ℕ → ℕ → Bool
code_is a b = elim (compare a b) [ Ordering.eq ↦ true | _ ↦ false ]

-- `unicode.IsSpace`: the code points with the property White_Space.
unfoldable pub is_space : Char → Bool
unfolding code_is
is_space c =
    (leb 9 (code c) && leb (code c) 13)
    || code_is (code c) 32
    || code_is (code c) 0x85
    || code_is (code c) 0xa0
    || code_is (code c) 0x1680
    || (leb 0x2000 (code c) && leb (code c) 0x200a)
    || code_is (code c) 0x2028
    || code_is (code c) 0x2029
    || code_is (code c) 0x202f
    || code_is (code c) 0x205f
    || code_is (code c) 0x3000

-- Leading white space is cut off.
unfoldable pub trim_left : String → String
trim_left String.[] = String.[]
trim_left (String.◌∷◌ c s) = if is_space c then trim_left s else String.◌∷◌ c s

-- A character stays if it is no white space or if something stays behind it.
abbrev keep_before : Char → String → String
keep_before c String.[] = if is_space c then String.[] else String.◌∷◌ c String.[]
keep_before c (String.◌∷◌ d s) = String.◌∷◌ c (String.◌∷◌ d s)

-- Trailing white space is cut off.
unfoldable pub trim_right : String → String
trim_right String.[] = String.[]
trim_right (String.◌∷◌ c s) = keep_before c (trim_right s)

-- `strings.TrimSpace`
unfoldable pub trim_space : String → String
unfolding trim_left trim_right is_space
trim_space s = trim_right (trim_left s)
