-- ===== src/Config/Load.antt =====
-- config/config.go, `NewAppConfig`: what the environment changes in the settings.
use dreon_notification.Prelude.{
  ℕ, ◌≡◌, refl, sym, ◌∙◌, ◌⊎◌, inl, inr, true, false, String, ◌==◌, ◌||◌, Option, none, some,
  Bool-cases,
}
use dreon_notification.Go.Error.{Result, ok, err}
use dreon_notification.Go.Int.{ℤ}
use dreon_notification.Config.{
  Setting, text, integer, unsigned, floating, boolean, other, Fields, no_fields, leaf, group,
  parse_int, parse_uint, parse_bool, or_old, set_field_value, override, process_struct, load_over,
  new_app_config,
}
use dreon_notification.Config.Number.{Denotes, parse_int_sound, parse_int_complete}

module _ (parse_float : String → Option ℕ) (getenv : String → String) where
  -- What a field is after a value that is not empty was read for it.
  abbrev pub Takes : String → Setting → Setting → Type 0
  Takes value (text old) new = new ≡ text value
  Takes value (integer old) new =
      ((z : ℤ) × Denotes value z × (new ≡ integer z))
      ⊎ (((z : ℤ) → ¬ Denotes value z) × (new ≡ integer old))
  Takes value (unsigned old) new = new ≡ or_old unsigned old (parse_uint value)
  Takes value (floating old) new = new ≡ or_old floating old (parse_float value)
  Takes value (boolean old) new = new ≡ or_old boolean old (parse_bool value)
  Takes value other new = new ≡ other

  abbrev pub IsLoadedLeaf : String → Setting → Setting → Type 0
  IsLoadedLeaf tag old new =
      (((tag == "" || getenv tag == "") ≡ true) × (new ≡ old))
      ⊎ (((tag == "" || getenv tag == "") ≡ false) × Takes (getenv tag) old new)

  abbrev pub IsLoaded : Fields → Fields → Type 0
  IsLoaded no_fields no_fields = Unit
  IsLoaded (leaf tag old rest) (leaf tag' new rest') =
      (tag' ≡ tag) × IsLoadedLeaf tag old new × IsLoaded rest rest'
  IsLoaded (group inner rest) (group inner' rest') = IsLoaded inner inner' × IsLoaded rest rest'
  IsLoaded _ _ = ⊥

  integer_taken :
      (value : String) (old : ℤ) (o : Option ℤ)
      → parse_int value ≡ o
      → Takes value (integer old) (or_old integer old o)
  integer_taken value old none e = inr ((λ z d. cc (sym (parse_int_complete value z d) ∙ e)), refl)
  integer_taken value old (some z) e = inl (z, parse_int_sound value z e, refl)

  set_field_value-Takes :
      (old : Setting) (value : String)
      → (new : Setting) × (set_field_value parse_float getenv old value ≡ ok new)
        × Takes value old new
  unfolding set_field_value
  set_field_value-Takes (text old) value = (text value, refl, refl)
  set_field_value-Takes (integer old) value =
      (_, refl, integer_taken value old (parse_int value) refl)
  set_field_value-Takes (unsigned old) value = (_, refl, refl)
  set_field_value-Takes (floating old) value = (_, refl, refl)
  set_field_value-Takes (boolean old) value = (_, refl, refl)
  set_field_value-Takes other value = (_, refl, refl)

  override-IsLoadedLeaf :
      (tag : String) (old : Setting)
      → (new : Setting) × (override parse_float getenv tag old (getenv tag) ≡ ok new)
        × IsLoadedLeaf tag old new
  override-IsLoadedLeaf tag old = elim (Bool-cases (tag == "")) [
    | inl no_tag ↦ (old, rw no_tag refl, inl (rw no_tag refl, refl))
    | inr tagged ↦ elim (Bool-cases (getenv tag == "")) [
      | inl unset ↦ (old, rw (tagged, unset) refl, inl (rw (tagged, unset) refl, refl))
      | inr set ↦
          let (new, done, taken) = set_field_value-Takes old (getenv tag) in
          (new, rw (tagged, set) done, inr (rw (tagged, set) refl, taken))
    ]
  ]

  process_struct-IsLoaded :
      (c : Fields) → (c' : Fields) × (process_struct parse_float getenv c ≡ ok c') × IsLoaded c c'
  unfolding process_struct
  process_struct-IsLoaded no_fields = (no_fields, refl, tt)
  process_struct-IsLoaded (leaf tag old rest) =
      let (new, put, taken) = override-IsLoadedLeaf tag old in
      let (rest', done, loaded) = process_struct-IsLoaded rest in
      (leaf tag new rest', rw (put, done) refl, (refl, taken, loaded))
  process_struct-IsLoaded (group inner rest) =
      let (inner', put, taken) = process_struct-IsLoaded inner in
      let (rest', done, loaded) = process_struct-IsLoaded rest in
      (group inner' rest', rw (put, done) refl, (taken, loaded))

  abbrev pub LoadOutcome : Result Fields → Result Fields → Type 0
  LoadOutcome (err e) r = r ≡ err e
  LoadOutcome (ok c) r = (c' : Fields) × (r ≡ ok c') × IsLoaded c c'

  abbrev pub decoded : Option (Fields → Result Fields) → Fields → Result Fields
  decoded none zero_config = ok zero_config
  decoded (some decode) zero_config = decode zero_config

  -- `NewAppConfig` fails only when the file cannot be decoded. Otherwise every field keeps what the file, or
  -- nothing, gave it if its tag or the variable of that name is empty; a text becomes the variable's; an
  -- integer becomes the number that the variable denotes in decimal, if it denotes one in 64 bits, and
  -- otherwise stays as it was.
  pub new_app_config-LoadOutcome :
      (file : Option (Fields → Result Fields)) (zero_config : Fields)
      → LoadOutcome (decoded file zero_config) (new_app_config parse_float getenv file zero_config)
  unfolding new_app_config
  new_app_config-LoadOutcome none zero_config = process_struct-IsLoaded zero_config
  new_app_config-LoadOutcome (some decode) zero_config =
      elim (decode zero_config) as (λ d. LoadOutcome d (load_over parse_float getenv d)) [
        | err e ↦ refl
        | ok c ↦ process_struct-IsLoaded c
      ]
