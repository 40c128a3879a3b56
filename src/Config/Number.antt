-- ===== src/Config/Number.antt =====
-- config/config.go: the numerals that `strconv.ParseInt` reads for an `int`.
use Prim.Native.Char.{Char, code}
use dreon_notification.Prelude.{
  ℕ, suc, ◌+◌, ◌-◌, ◌*◌, ◌^◌, ◌≤◌, ◌≡◌, refl, sym, ap, ◌∙◌, Bool, true, false, ◌&&◌, String, Option,
  none, some, arith, if◌then◌else◌,
}
use native.Mathlib.Nat.{pow-succ'}
use dreon_notification.Go.Int.{ℤ, pos}
use dreon_notification.Go.Text.{code_is}
use dreon_notification.Config.{
  is_digit, parse_digits, parse_numeral, up_to, negated, signed, positive_of, negative_of,
  parse_int,
}

abbrev pub size : String → ℕ
size String.[] = 0
size (String.◌∷◌ c s) = suc (size s)

abbrev pub all_digits : String → Bool
all_digits String.[] = true
all_digits (String.◌∷◌ c s) = is_digit c && all_digits s

-- The number in the decimal system.
abbrev pub decimal : String → ℕ
decimal String.[] = 0
decimal (String.◌∷◌ c s) = (code c - 48) * 10 ^ size s + decimal s

shift : (n d p v : ℕ) → (n * 10 + d) * p + v ≡ n * (10 * p) + (d * p + v)
shift n d p v = grind arith

join :
    (b rest : Bool) (v : ℕ) (r : Option ℕ)
    → r ≡ (if rest then some v else none)
    → (if b then r else none) ≡ (if b && rest then some v else none)
join true rest v r h = h
join false rest v r h = refl

parse_digits_lem :
    (n : ℕ) (s : String)
    → parse_digits n s ≡ (if all_digits s then some (n * 10 ^ size s + decimal s) else none)
unfolding parse_digits
parse_digits_lem n String.[] = ap some (omega arith)
parse_digits_lem n (String.◌∷◌ c s) =
    let d = code c - 48 in
    join (is_digit c) (all_digits s) _ _ (
      parse_digits_lem (n * 10 + d) s
      ∙ ap (λ v. if all_digits s then some v else none)
          (shift n d (10 ^ size s) (decimal s)
            ∙ ap (λ p. n * p + (d * 10 ^ size s + decimal s)) (sym (pow-succ' 10 (size s)))))

abbrev pub Fits : ℕ → String → ℕ → Type 0
Fits limit s n = (all_digits s ≡ true) × (n ≡ decimal s) × (n ≤ limit)

numeral_lem :
    (c : Char) (s : String)
    → let t = String.◌∷◌ c s in parse_numeral t ≡ (if all_digits t then some (decimal t) else none)
numeral_lem c s =
    parse_digits_lem 0 (String.◌∷◌ c s)
    ∙ ap (λ v. if all_digits (String.◌∷◌ c s) then some v else none) (omega arith)

kept :
    (b : Bool) (v limit n : ℕ)
    → up_to limit (if b then some v else none) ≡ some n
    → (b ≡ true) × (n ≡ v) × (n ≤ limit)
kept true v limit n h = (refl, (ground arith), (ground arith))
kept false v limit n h = cc

parse_numeral-Fits :
    (limit n : ℕ) (c : Char) (s : String)
    → up_to limit (parse_numeral (String.◌∷◌ c s)) ≡ some n
    → Fits limit (String.◌∷◌ c s) n
parse_numeral-Fits limit n c s h =
    kept (all_digits (String.◌∷◌ c s)) (decimal (String.◌∷◌ c s)) limit n
      (ap (up_to limit) (sym (numeral_lem c s)) ∙ h)

read_back :
    (b : Bool) (v limit n : ℕ)
    → b ≡ true
    → n ≡ v
    → n ≤ limit
    → up_to limit (if b then some v else none) ≡ some n
read_back true v limit n _ e fits = ground arith
read_back false v limit n h e fits = cc

Fits-parse_numeral :
    (limit n : ℕ) (c : Char) (s : String)
    → Fits limit (String.◌∷◌ c s) n
    → up_to limit (parse_numeral (String.◌∷◌ c s)) ≡ some n
Fits-parse_numeral limit n c s (digits, exact, fits) =
    ap (up_to limit) (numeral_lem c s)
    ∙ read_back (all_digits (String.◌∷◌ c s)) (decimal (String.◌∷◌ c s)) limit n digits exact fits

-- What an `int64` numeral stands for: a sign, if any, and one or more digits.
pub data Denotes : String → ℤ → Type 0 where
  unsigned :
      (c : Char) (s : String) (n : ℕ) (z : ℤ)
      → Fits (2 ^ 63 - 1) (String.◌∷◌ c s) n
      → pos n ≡ z
      → Denotes (String.◌∷◌ c s) z
  plus :
      (p c : Char) (s : String) (n : ℕ) (z : ℤ)
      → code p ≡ 43
      → Fits (2 ^ 63 - 1) (String.◌∷◌ c s) n
      → pos n ≡ z
      → Denotes (String.◌∷◌ p (String.◌∷◌ c s)) z
  minus :
      (m c : Char) (s : String) (n : ℕ) (z : ℤ)
      → code m ≡ 45
      → Fits (2 ^ 63) (String.◌∷◌ c s) n
      → negated n ≡ z
      → Denotes (String.◌∷◌ m (String.◌∷◌ c s)) z

code_is→eq : (a b : ℕ) → code_is a b ≡ true → a ≡ b
unfolding code_is
code_is→eq a b h = ground arith

digit_is_no_sign :
    (c : Char) (s : String)
    → all_digits (String.◌∷◌ c s) ≡ true
    → (code_is (code c) 45 ≡ false) × (code_is (code c) 43 ≡ false)
unfolding code_is is_digit
digit_is_no_sign c s h = ((ground arith), (ground arith))

pub parse_int_complete : (s : String) (z : ℤ) → Denotes s z → parse_int s ≡ some z
unfolding parse_int code_is
parse_int_complete _ _ (unsigned c s n z fits e) =
    let (no_minus, no_plus) = digit_is_no_sign c s fits.0 in
    ap (λ b. signed b (code_is (code c) 43) c s) no_minus
    ∙ ap (λ b. signed false b c s) no_plus
    ∙ ap positive_of (Fits-parse_numeral (2 ^ 63 - 1) n c s fits)
    ∙ ap some e
parse_int_complete _ _ (plus p c s n z sign fits e) =
    ap (λ k. signed (code_is k 45) (code_is k 43) p (String.◌∷◌ c s)) sign
    ∙ ap positive_of (Fits-parse_numeral (2 ^ 63 - 1) n c s fits)
    ∙ ap some e
parse_int_complete _ _ (minus m c s n z sign fits e) =
    ap (λ k. signed (code_is k 45) (code_is k 43) m (String.◌∷◌ c s)) sign
    ∙ ap negative_of (Fits-parse_numeral (2 ^ 63) n c s fits)
    ∙ ap some e

positive_some :
    (o : Option ℕ) (z : ℤ) → positive_of o ≡ some z → (n : ℕ) × (o ≡ some n) × (pos n ≡ z)
positive_some none z h = cc
positive_some (some n) z h = (n, refl, (cc))

negative_some :
    (o : Option ℕ) (z : ℤ) → negative_of o ≡ some z → (n : ℕ) × (o ≡ some n) × (negated n ≡ z)
negative_some none z h = cc
negative_some (some n) z h = (n, refl, (cc))

signed-Denotes :
    (is_minus is_plus : Bool) (c : Char) (s : String) (z : ℤ)
    → code_is (code c) 45 ≡ is_minus
    → code_is (code c) 43 ≡ is_plus
    → signed is_minus is_plus c s ≡ some z
    → Denotes (String.◌∷◌ c s) z
signed-Denotes true _ c String.[] z m p h = cc
signed-Denotes true _ c (String.◌∷◌ d s) z m p h =
    let (n, read, e) = negative_some _ z h in
    minus c d s n z (code_is→eq _ _ m) (parse_numeral-Fits (2 ^ 63) n d s read) e
signed-Denotes false true c String.[] z m p h = cc
signed-Denotes false true c (String.◌∷◌ d s) z m p h =
    let (n, read, e) = positive_some _ z h in
    plus c d s n z (code_is→eq _ _ p) (parse_numeral-Fits (2 ^ 63 - 1) n d s read) e
signed-Denotes false false c s z m p h =
    let (n, read, e) = positive_some _ z h in
    unsigned c s n z (parse_numeral-Fits (2 ^ 63 - 1) n c s read) e

pub parse_int_sound : (s : String) (z : ℤ) → parse_int s ≡ some z → Denotes s z
unfolding parse_int
parse_int_sound String.[] z h = cc
parse_int_sound (String.◌∷◌ c s) z h = signed-Denotes _ _ c s z refl refl h
