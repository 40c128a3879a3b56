-- ===== src/Config.antt =====
-- config/config.go: the settings, and how the environment overrides them. The fields of a struct are a list
-- in which a nested struct is a list again; all of them are exported, so that they can be set. The file
-- `.env` is read by a library, a parameter; so is `strconv.ParseFloat`, as no setting is a float.
pub mod Number
pub mod Load
use Prim.Native.Char.{Char, code}
use dreon_notification.Prelude.{
  ℕ, suc, ◌+◌, ◌-◌, ◌*◌, ◌^◌, Bool, true, false, ◌&&◌, ◌||◌, String, ◌==◌, Option, none, some, ltb,
  leb, if◌then◌else◌,
}
use dreon_notification.Go.Error.{Error, Result, ok, err}
use dreon_notification.Go.Int.{ℤ, pos, negsuc}
use dreon_notification.Go.Text.{code_is}

-- A field's value, by its kind. A float is given by its bits.
pub data Setting : Type 0 where
  text : String → Setting
  integer : ℤ → Setting
  unsigned : ℕ → Setting
  floating : ℕ → Setting
  boolean : Bool → Setting
  -- a kind that is not read
  other : Setting

-- The fields of a struct, each with the text of its `env` tag.
pub data Fields : Type 0 where
  no_fields : Fields
  leaf : String → Setting → Fields → Fields
  group : Fields → Fields → Fields

unfoldable pub is_digit : Char → Bool
is_digit c = leb 48 (code c) && leb (code c) 57

-- The digits of a decimal numeral behind the number `n`.
unfoldable pub parse_digits : ℕ → String → Option ℕ
unfolding is_digit
parse_digits n String.[] = some n
parse_digits n (String.◌∷◌ c s) =
    let rest = parse_digits (n * 10 + (code c - 48)) s in if is_digit c then rest else none

abbrev pub parse_numeral : String → Option ℕ
parse_numeral String.[] = none
parse_numeral (String.◌∷◌ c s) = parse_digits 0 (String.◌∷◌ c s)

-- `strconv.ParseUint(value, 10, 64)`
abbrev pub up_to : ℕ → Option ℕ → Option ℕ
up_to limit none = none
up_to limit (some n) = if leb n limit then some n else none

unfoldable pub parse_uint : String → Option ℕ
parse_uint s = up_to (2 ^ 64 - 1) (parse_numeral s)

-- -n
abbrev pub negated : ℕ → ℤ
negated ℕ.zero = pos 0
negated (suc n) = negsuc n

abbrev pub positive_of : Option ℕ → Option ℤ
positive_of none = none
positive_of (some n) = some (pos n)

abbrev pub negative_of : Option ℕ → Option ℤ
negative_of none = none
negative_of (some n) = some (negated n)

-- A numeral that begins with `c`, which may be a minus or a plus sign.
abbrev pub signed : Bool → Bool → Char → String → Option ℤ
signed true plus c s = negative_of (up_to (2 ^ 63) (parse_numeral s))
signed false true c s = positive_of (up_to (2 ^ 63 - 1) (parse_numeral s))
signed false false c s = positive_of (up_to (2 ^ 63 - 1) (parse_numeral (String.◌∷◌ c s)))

-- `strconv.ParseInt(value, 10, 64)`: a sign may stand before the digits.
unfoldable pub parse_int : String → Option ℤ
parse_int String.[] = none
parse_int (String.◌∷◌ c s) = signed (code_is (code c) 45) (code_is (code c) 43) c s

-- `strconv.ParseBool`
unfoldable pub parse_bool : String → Option Bool
parse_bool s =
    if s == "1" || s == "t" || s == "T" || s == "TRUE" || s == "true" || s == "True"
    then some true
    else if s == "0" || s == "f" || s == "F" || s == "FALSE" || s == "false" || s == "False"
    then some false
    else none

abbrev pub or_old : {A : Type 0} → (A → Setting) → A → Option A → Setting
or_old f old none = f old
or_old f old (some a) = f a

module _ (parse_float : String → Option ℕ) (getenv : String → String) where
  -- `setFieldValue`
  unfoldable pub set_field_value : Setting → String → Result Setting
  set_field_value (text old) value = ok (text value)
  set_field_value (integer old) value = ok (or_old integer old (parse_int value))
  set_field_value (unsigned old) value = ok (or_old unsigned old (parse_uint value))
  set_field_value (floating old) value = ok (or_old floating old (parse_float value))
  set_field_value (boolean old) value = ok (or_old boolean old (parse_bool value))
  set_field_value other value = ok other

  abbrev pub override : String → Setting → String → Result Setting
  override tag old value =
      if tag == "" then ok old else if value == "" then ok old else set_field_value old value

  abbrev pub with_leaf : String → Result Setting → Result Fields → Result Fields
  with_leaf tag (err e) rest = err e
  with_leaf tag (ok v) (err e) = err e
  with_leaf tag (ok v) (ok fs) = ok (leaf tag v fs)

  abbrev pub with_group : Result Fields → Result Fields → Result Fields
  with_group (err e) rest = err e
  with_group (ok inner) (err e) = err e
  with_group (ok inner) (ok fs) = ok (group inner fs)

  -- `processStruct`, and so `loadFromEnv`. The fields that an error leaves set are not kept.
  unfoldable pub process_struct : Fields → Result Fields
  process_struct no_fields = ok no_fields
  process_struct (leaf tag old rest) =
      with_leaf tag (override tag old (getenv tag)) (process_struct rest)
  process_struct (group inner rest) = with_group (process_struct inner) (process_struct rest)

  abbrev pub load_over : Result Fields → Result Fields
  load_over (err e) = err e
  load_over (ok c) = process_struct c

  -- `NewAppConfig`: the file, if there is one, and then the environment.
  unfoldable pub new_app_config : Option (Fields → Result Fields) → Fields → Result Fields
  new_app_config none zero_config = process_struct zero_config
  new_app_config (some decode) zero_config = load_over (decode zero_config)

abbrev string_field : String → Fields → Fields
string_field tag = leaf tag (text "")

abbrev int_field : String → Fields → Fields
int_field tag = leaf tag (integer (pos 0))

-- `AppConfig`, with the zero value of each field
unfoldable pub app_config : Fields
app_config = group (string_field "APP_NAME" (string_field "APP_VERSION" no_fields)) (
    group (string_field "HTTP_HOST" (string_field "HTTP_PORT" (string_field "GRPC_PORT" no_fields)))
      (group (string_field "LOG_LEVEL" no_fields) (
        group
          (int_field "CACHE_DEFAULT_EXPIRE_TIME_SEC" (
            int_field "CACHE_CLEANUP_INTERVAL_HOUR" (
              string_field "REDIS_HOST" (
                string_field "REDIS_PORT"
                  (string_field "REDIS_PASSWORD" (int_field "REDIS_DB" no_fields))))))
          (group
            (string_field "POSTGRES_CONNECTION_NAME" (
              string_field "POSTGRES_HOST" (
                int_field "POSTGRES_PORT" (
                  string_field "POSTGRES_USERNAME" (
                    string_field "POSTGRES_PASSWORD" (
                      string_field "POSTGRES_DBNAME" (
                        leaf "POSTGRES_SSL" (boolean false) (
                          int_field "POSTGRES_MAX_IDLE_CONNS"
                            (int_field "POSTGRES_MAX_OPEN_CONNS" no_fields)))))))))
            (group
              (int_field "NOTIFICATION_MAX_ATTEMPTS" (
                int_field "NOTIFICATION_RETRY_INTERVAL_SEC" (
                  int_field "NOTIFICATION_RETRY_BATCH_SIZE" (
                    int_field "NOTIFICATION_RETRY_BACKOFF_INITIAL_SEC" (
                      int_field "NOTIFICATION_RETRY_BACKOFF_MAX_SEC" (
                        int_field "NOTIFICATION_RETRY_PUBLISH_LEASE_SEC" (
                          int_field "NOTIFICATION_SCHEDULED_POLL_INTERVAL_SEC" (
                            int_field "NOTIFICATION_SCHEDULED_BATCH_SIZE"
                              (int_field "NOTIFICATION_SCHEDULED_DEDUP_TTL_SEC" no_fields)))))))))
              (group
                (string_field "EMAIL_SENDER" (
                  string_field "EMAIL_TEMPLATE_DIR"
                    (string_field "EMAIL_RESEND_API_KEY" no_fields)))
                (group
                  (string_field "TWILIO_ACCOUNT_SID" (
                    string_field "TWILIO_AUTH_TOKEN" (
                      string_field "TWILIO_FROM_NUMBER"
                        (string_field "SMS_TEMPLATE_DIR" no_fields))))
                  (group (string_field "RABBITMQ_URL" no_fields)
                    (group (string_field "FIREBASE_CREDENTIALS_PATH" no_fields) no_fields)))))))))
