-- ===== src/Email/Escape.antt =====
-- pkg/email/renderer.go, `xmlEscape`: what it writes is safe in XML and stands for the text.
use Prim.Native.Char.{Char, code}
use text.Mathlib.TextEquality.{Char-path}
use dreon_notification.Prelude.{
  ◌≡◌, refl, ap, ◌∙◌, inl, inr, Bool, true, false, ◌||◌, String, ◌==◌, arith, Bool-cases,
  if◌then◌else◌,
}
use dreon_notification.Go.Text.{append, code_is}
use dreon_notification.Email.{prepend, entity, xml_escape}

-- The predefined entities of XML; another name stands for nothing.
abbrev pub named : String → String
named name =
    if name == "amp"
    then "&"
    else if name == "lt"
    then "<"
    else if name == "gt"
    then ">"
    else if name == "quot"
    then "\""
    else if name == "apos"
    then "'"
    else ""

-- The character data that a text of XML stands for: outside a reference, and within one that has begun
-- with `name`.
mutual
  pub content : String → String
  content String.[] = String.[]
  content (String.◌∷◌ c s) = elim (code_is (code c) 38) [
    | true ↦ reference "" s
    | false ↦ String.◌∷◌ c (content s)
  ]

  pub reference : String → String → String
  reference name String.[] = String.[]
  reference name (String.◌∷◌ c s) = elim (code_is (code c) 59) [
    | true ↦ prepend (named name) (content s)
    | false ↦ reference (append name (String.◌∷◌ c String.[])) s
  ]

spelled :
    (c d : Char) (s : String) → code_is (code c) (code d) ≡ true → String.◌∷◌ d s ≡ String.◌∷◌ c s
unfolding code_is
spelled c d s h = ap (λ x. String.◌∷◌ x s) (Char-path d c (ground arith))

-- None of the characters that end a text or an attribute, or begin a tag.
abbrev pub is_markup : Char → Bool
is_markup c =
    code_is (code c) 60 || code_is (code c) 62 || code_is (code c) 34 || code_is (code c) 39

-- A property of what is written for a character, case by case.
entity_cases :
    (P : String → Type 0) (c : Char)
    → (code_is (code c) 38 ≡ true → P "&amp;")
    → (code_is (code c) 60 ≡ true → P "&lt;")
    → (code_is (code c) 62 ≡ true → P "&gt;")
    → (code_is (code c) 34 ≡ true → P "&quot;")
    → (code_is (code c) 39 ≡ true → P "&apos;")
    → (code_is (code c) 38 ≡ false → is_markup c ≡ false → P (String.◌∷◌ c String.[]))
    → P (entity c)
unfolding entity
entity_cases P c amp lt gt quot apos other = elim (Bool-cases (code_is (code c) 38)) [
  | inl e ↦ rw e (amp e)
  | inr e1 ↦ elim (Bool-cases (code_is (code c) 60)) [
    | inl e ↦ rw (e1, e) (lt e)
    | inr e2 ↦ elim (Bool-cases (code_is (code c) 62)) [
      | inl e ↦ rw (e1, e2, e) (gt e)
      | inr e3 ↦ elim (Bool-cases (code_is (code c) 34)) [
        | inl e ↦ rw (e1, e2, e3, e) (quot e)
        | inr e4 ↦ elim (Bool-cases (code_is (code c) 39)) [
          | inl e ↦ rw (e1, e2, e3, e4, e) (apos e)
          | inr e5 ↦ rw (e1, e2, e3, e4, e5) (other e1 (rw (e2, e3, e4, e5) refl))
        ]
      ]
    ]
  ]
]

content-entity : (c : Char) (s : String) → content (prepend (entity c) s) ≡ String.◌∷◌ c (content s)
unfolding content reference code_is
content-entity c s =
    entity_cases (λ e. content (prepend e s) ≡ String.◌∷◌ c (content s)) c
      (spelled c "&" (content s)) (spelled c "<" (content s)) (spelled c ">" (content s))
      (spelled c "\"" (content s)) (spelled c "'" (content s)) (λ e _. rw (e, content) refl)

abbrev pub IsSafe : String → Type 0
IsSafe String.[] = Unit
IsSafe (String.◌∷◌ c s) = (is_markup c ≡ false) × IsSafe s

entity-IsSafe : (c : Char) (s : String) → IsSafe s → IsSafe (prepend (entity c) s)
unfolding code_is
entity-IsSafe c s h =
    entity_cases (λ e. IsSafe (prepend e s)) c (λ _. (refl, (refl, (refl, (refl, (refl, h))))))
      (λ _. (refl, (refl, (refl, (refl, h))))) (λ _. (refl, (refl, (refl, (refl, h)))))
      (λ _. (refl, (refl, (refl, (refl, (refl, (refl, h)))))))
      (λ _. (refl, (refl, (refl, (refl, (refl, (refl, h))))))) (λ _ e. (e, h))

-- What `xmlEscape` writes holds no `<`, `>`, `"` or `'`, and as character data of XML it stands for the
-- text that was given.
pub xml_escape_lem : (s : String) → IsSafe (xml_escape s) × (content (xml_escape s) ≡ s)
unfolding xml_escape content
xml_escape_lem String.[] = (tt, refl)
xml_escape_lem (String.◌∷◌ c s) =
    let (safe, same) = xml_escape_lem s in
    (entity-IsSafe c (xml_escape s) safe, content-entity c (xml_escape s) ∙ ap (String.◌∷◌ c) same)
