-- ===== src/Slug.antt =====
-- internal/shared/helper/string.go, `NormalizeSlug`. The tables of package unicode are parameters.
use Prim.Native.Char.{Char, code}
use dreon_notification.Prelude.{◌≡◌, refl, ap, Bool, true, false, String, ◌&&◌, ◌||◌}
use dreon_notification.Go.Text.{code_is}

pub record Unicode : Type 0 where
  pub is_letter : Char → Bool
  pub is_digit : Char → Bool

or_true : (a b : Bool) → a || (b || true) ≡ true
or_true true b = refl
or_true false true = refl
or_true false false = refl

module _ (unicode : Unicode) where
  abbrev pub is_kept : Char → Bool
  is_kept c = unicode.is_letter c || (unicode.is_digit c || code_is (code c) 95)

  abbrev pub write_kept : Bool → Char → String → String
  write_kept true c rest = String.◌∷◌ c rest
  write_kept false c rest = rest

  abbrev pub write_rune : Bool → Char → String → String
  write_rune true c rest = String.◌∷◌ "_" rest
  write_rune false c rest = write_kept (is_kept c) c rest

  unfoldable pub normalize_slug : String → String
  normalize_slug String.[] = String.[]
  normalize_slug (String.◌∷◌ c s) = write_rune (code_is (code c) 32) c (normalize_slug s)

  abbrev pub is_slug_rune : Bool → Char → Bool
  is_slug_rune true c = false
  is_slug_rune false c = is_kept c

  -- Letters, digits and underscores only.
  unfoldable pub is_slug : String → Bool
  is_slug String.[] = true
  is_slug (String.◌∷◌ c s) = is_slug_rune (code_is (code c) 32) c && is_slug s

  rune-is_slug :
      (b k : Bool) (c : Char) (s : String)
      → code_is (code c) 32 ≡ b
      → is_kept c ≡ k
      → is_slug s ≡ true
      → is_slug (write_rune b c s) ≡ true
  unfolding is_slug code_is
  rune-is_slug true k c s space kept h =
      rw (or_true (unicode.is_letter "_") (unicode.is_digit "_")) h
  rune-is_slug false true c s space kept h = rw (kept, space, kept) h
  rune-is_slug false false c s space kept h = rw kept h

  -- What is written holds letters, digits and underscores only.
  normalize_slug-is_slug : (s : String) → is_slug (normalize_slug s) ≡ true
  unfolding normalize_slug is_slug
  normalize_slug-is_slug String.[] = refl
  normalize_slug-is_slug (String.◌∷◌ c s) =
      rune-is_slug (code_is (code c) 32) (is_kept c) c (normalize_slug s) refl refl
        (normalize_slug-is_slug s)

  write_slug_rune :
      (b k : Bool) (c : Char) (s t : String)
      → code_is (code c) 32 ≡ b
      → is_kept c ≡ k
      → is_slug_rune b c && is_slug s ≡ true
      → (is_slug s ≡ true → t ≡ s)
      → write_rune b c t ≡ String.◌∷◌ c s
  write_slug_rune true k c s t space kept h same = cc
  write_slug_rune false true c s t space kept h same =
      rw kept (ap (String.◌∷◌ c) (same (rw kept at h)))
  write_slug_rune false false c s t space kept h same = let e = rw kept at h in cc

  slug-fixed : (s : String) → is_slug s ≡ true → normalize_slug s ≡ s
  unfolding is_slug normalize_slug
  slug-fixed String.[] h = refl
  slug-fixed (String.◌∷◌ c s) h =
      write_slug_rune (code_is (code c) 32) (is_kept c) c s (normalize_slug s) refl refl h
        (slug-fixed s)

  -- To normalize a slug changes nothing.
  normalize_slug_idem : (s : String) → normalize_slug (normalize_slug s) ≡ normalize_slug s
  normalize_slug_idem s = slug-fixed (normalize_slug s) (normalize_slug-is_slug s)
