-- ===== src/Go/Error.antt =====
-- Go errors. The constructors are the ways in which the program makes one: `errorx.New` and
-- `errorx.Wrap` of the SDK, the errors of the validator, `fmt.Errorf` with and without `%w`, the two errors of `gorm` that a
-- table gives by itself, and what a driver or a client outside the program returns.
use dreon_notification.Prelude.{Bool, true, false, String, List}

-- The codes of `errorx` that the program names.
pub data Code : Type 0 where
  bad_request not_found conflict internal : Code

-- A member of `validator.ValidationErrors`: the field, and the tag that it breaks.
pub record FieldError : Type 0 where
  pub field_name : String
  pub tag : String

pub data Error : Type 0 where
  -- errorx.New(code, message)
  new : Code → String → Error
  -- errorx.Wrap(code, err)
  wrap : Code → Error → Error
  -- fmt.Errorf("…: %w", err)
  context : String → Error → Error
  -- errors.New(…), or fmt.Errorf with no `%w`
  plain : String → Error
  -- validator.ValidationErrors
  invalid_fields : List FieldError → Error
  -- gorm.ErrRecordNotFound
  record_not_found : Error
  -- a unique index refuses the row
  duplicate_key : Error
  -- an error of a driver, a service or a library
  outside : String → Error

pub data Result {ℓ} (A : Type ℓ) : Type ℓ where
  ok : A → Result A
  err : Error → Result A

-- `errors.Is(err, gorm.ErrRecordNotFound)`: somewhere along the chain of wrapped errors.
unfoldable pub is_record_not_found : Error → Bool
is_record_not_found (new c m) = false
is_record_not_found (wrap c e) = is_record_not_found e
is_record_not_found (context m e) = is_record_not_found e
is_record_not_found (plain m) = false
is_record_not_found (invalid_fields fs) = false
is_record_not_found record_not_found = true
is_record_not_found duplicate_key = false
is_record_not_found (outside m) = false
