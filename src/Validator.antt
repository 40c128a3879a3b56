-- ===== src/Validator.antt =====
-- pkg/validator/validator.go. The library's answer on a struct is a parameter.
use dreon_notification.Prelude.{String, List, [], ◌∷◌, map}
use dreon_notification.Go.Text.{append}
use dreon_notification.Go.Error.{
  Error, FieldError, new, wrap, context, plain, invalid_fields, record_not_found, duplicate_key,
  outside,
}

-- `strings.Join(parts, "; ")`
unfoldable pub join : List String → String
join [] = ""
join (s ∷ []) = s
join (s ∷ t ∷ rest) = append s (append "; " (join (t ∷ rest)))

abbrev pub part : FieldError → String
part f = append f.field_name (append ": " f.tag)

-- `FormatValidationError`, of an error that is not nil
unfoldable pub format_validation_error : Error → Error
format_validation_error (invalid_fields fs) =
    plain (append "validation failed: " (join (map part fs)))
format_validation_error (new c m) = new c m
format_validation_error (wrap c e) = wrap c e
format_validation_error (context m e) = context m e
format_validation_error (plain m) = plain m
format_validation_error record_not_found = record_not_found
format_validation_error duplicate_key = duplicate_key
format_validation_error (outside m) = outside m
