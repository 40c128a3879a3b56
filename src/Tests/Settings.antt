-- ===== src/Tests/Settings.antt =====
-- The theorem on the settings that the environment gives.
use dreon_notification.Prelude.{ℕ, ◌≡◌, refl, String, ◌==◌, Option, none, if◌then◌else◌}
use dreon_notification.Go.Error.{ok}
use dreon_notification.Go.Int.{pos, negsuc}
use dreon_notification.Go.Text.{code_is}
use dreon_notification.Config.{
  integer, Fields, no_fields, leaf, group, process_struct, parse_int, set_field_value, parse_digits,
  is_digit, new_app_config, app_config,
}
use dreon_notification.Config.Load.{LoadOutcome, new_app_config-LoadOutcome}

abbrev no_float : String → Option ℕ
no_float s = none

abbrev variables : String → String
variables name =
    if name == "REDIS_DB"
    then "-12"
    else if name == "POSTGRES_PORT"
    then "5432x"
    else if name == "HTTP_HOST"
    then "localhost"
    else ""

new_app_config-LoadOutcome_example :
    LoadOutcome no_float variables
      (ok app_config)
      (new_app_config no_float variables none app_config)
new_app_config-LoadOutcome_example = new_app_config-LoadOutcome no_float variables none app_config

abbrev small : Fields
small =
    group (leaf "REDIS_DB" (integer (pos 1)) (leaf "POSTGRES_PORT" (integer (pos 2)) no_fields))
      no_fields

small_is_read :
    process_struct no_float variables small
    ≡ ok (
        group
          (leaf "REDIS_DB" (integer (negsuc 11)) (leaf "POSTGRES_PORT" (integer (pos 2)) no_fields))
          no_fields)
unfolding process_struct set_field_value parse_int code_is parse_digits is_digit
small_is_read = refl
