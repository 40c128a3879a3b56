-- ===== src/Sms.antt =====
-- pkg/sms: the Twilio client, the client that stands in where Twilio is not configured, and the renderer
-- of bodies. Twilio's API, the file system and the templates of Go are parameters.
pub mod Prefix
use dreon_notification.Prelude.{
  ℕ, Bool, String, ◌==◌, List, [], ◌∷◌, ◌++◌, Option, none, some, is_nil, length, if◌then◌else◌,
}
use dreon_notification.Go.Error.{Error, Result, ok, err, plain, context}
use dreon_notification.Go.Text.{append}
use dreon_notification.Go.Value.{Fields}
use dreon_notification.World.{SmsData}
use dreon_notification.Service.{SmsClient}

-- openapi.CreateMessageParams, as far as the client sets it
pub record CreateMessageParams : Type 0 where
  pub recipient : String
  pub from : String
  pub body : String

-- What a call returns, and the requests that it has made. Twilio answers by the number of the request.
pub record Sending : Type 0 where
  pub failure : Option Error
  pub requests : List CreateMessageParams

module _ (create_message : ℕ → CreateMessageParams → Option Error) (from : String) where
  abbrev pub params : SmsData → String → CreateMessageParams
  params d to = record { recipient = to; from = from; body = d.body }

  -- The loop over the recipients: an error ends it.
  unfoldable pub send_each : SmsData → List String → List CreateMessageParams → Sending
  send_each d [] log = record { failure = none; requests = log }
  send_each d (to ∷ rest) log = elim (create_message (length log) (params d to)) [
    | none ↦ send_each d rest (log ++ params d to ∷ [])
    | some e ↦ record {
      failure = some (context (append "send SMS to " to) e);
      requests = log ++ params d to ∷ [];
    }
  ]

  -- `TwilioClient.SendSMS`
  unfoldable pub twilio_send_sms : SmsData → Sending
  twilio_send_sms d =
      if is_nil d.recipients
      then record {
        failure = some (plain "sms/twilio: at least one recipient required");
        requests = [];
      }
      else if from == ""
      then record {
        failure = some (plain "sms/twilio: TwilioFromNumber is required");
        requests = [];
      }
      else send_each d d.recipients []

-- `NewTwilioClient` refuses empty credentials.
unfoldable pub new_twilio_client :
    (ℕ → ℕ → CreateMessageParams → Option Error) → String → String → String → Result SmsClient
new_twilio_client create_message account token from =
    if account == ""
    then err (plain "sms/twilio: TwilioAccountSID and TwilioAuthToken are required")
    else if token == ""
    then err (plain "sms/twilio: TwilioAccountSID and TwilioAuthToken are required")
    else ok (record { send = λ n d. (twilio_send_sms (create_message n) from d).failure })

-- `MockClient`
unfoldable pub mock_client : SmsClient
mock_client = record {
  send = λ n d. some (
      plain
        "sms: client not configured (set TWILIO_ACCOUNT_SID, TWILIO_AUTH_TOKEN, TWILIO_FROM_NUMBER)");
}

-- What reading a file of a directory, and parsing and executing a template, gives.
pub record Templates : Type 0 where
  pub read : String → String → Result String
  pub parse : String → Result String
  pub execute : String → Fields → Result String

abbrev pub labelled : {A : Type 0} → String → String → Result A → Result A
labelled what name (ok a) = ok a
labelled what name (err e) = err (context (append what name) e)

abbrev pub after : {A B : Type 0} → Result A → (A → Result B) → Result B
after (ok a) f = f a
after (err e) f = err e

-- The directory of the templates, of which `NewBodyRenderer` has its own default
unfoldable pub sms_template_dir : String → String
sms_template_dir configured = if configured == "" then "templates/sms" else configured

-- `BodyRenderer.RenderBody`
unfoldable pub render_body : Templates → String → String → Fields → Result String
render_body t dir name fs =
    after (labelled "read sms template " name (t.read dir (append name ".txt"))) λ text.
      after (labelled "parse template " name (t.parse text))
        λ tpl. labelled "execute template " name (t.execute tpl fs)
