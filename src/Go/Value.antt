-- ===== src/Go/Value.antt =====
-- The values of Go's `any` that reach the program from a JSON body or from a protobuf struct, which
-- serve as JSON documents too. A number stands for its float64 bits. A Go map is the list of its
-- entries; the order in which `json.Marshal` writes the keys is not modelled, nor is the text of a
-- document.
use dreon_notification.Prelude.{
  ℕ, ◌*◌, Bool, true, false, ◌&&◌, String, ◌==◌, Option, none, some, ltb, if◌then◌else◌,
}

mutual
  pub data Value : Type 0 where
    null : Value
    boolean : Bool → Value
    num : ℕ → Value
    -- NaN or an infinity, which JSON does not have
    not_finite : Value
    str : String → Value
    -- a JSON string that holds the RFC 3339 text of a time
    timestamp : ℕ → Value
    arr : Elements → Value
    obj : Fields → Value

  pub data Elements : Type 0 where
    no_elements : Elements
    element : Value → Elements → Elements

  pub data Fields : Type 0 where
    end : Fields
    field : String → Value → Fields → Fields

-- `json.Marshal` refuses a time past the year 9999.
abbrev pub end_of_years : ℕ
end_of_years = 3652059 * 86400 * 1000000000

-- Whether `json.Marshal` succeeds on a value.
unfoldable mutual
  pub marshals : Value → Bool
  marshals null = true
  marshals (boolean b) = true
  marshals (num n) = true
  marshals not_finite = false
  marshals (str s) = true
  marshals (timestamp t) = ltb t end_of_years
  marshals (arr xs) = marshals_elements xs
  marshals (obj fs) = marshals_fields fs

  pub marshals_elements : Elements → Bool
  marshals_elements no_elements = true
  marshals_elements (element x xs) = marshals x && marshals_elements xs

  pub marshals_fields : Fields → Bool
  marshals_fields end = true
  marshals_fields (field k v fs) = marshals v && marshals_fields fs

-- `json.Marshal(v)`, the document or an error
unfoldable pub marshal : Value → Option Value
marshal v = if marshals v then some v else none

-- A member of an object.
unfoldable pub get_field : String → Fields → Option Value
get_field k end = none
get_field k (field j v fs) = if j == k then some v else get_field k fs
