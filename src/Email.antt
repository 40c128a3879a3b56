-- ===== src/Email.antt =====
-- pkg/email: the escape of text, the renderer and the Resend client. The file system, the templates of Go,
-- MJML and Resend are parameters.
pub mod Escape
use Prim.Native.Char.{Char, code}
use dreon_notification.Prelude.{String, ◌==◌, Option, List}
use dreon_notification.Go.Error.{Error, Result, ok, err, context}
use dreon_notification.Go.Text.{append, code_is}
use dreon_notification.Go.Value.{Value, null, Fields}
use dreon_notification.World.{EmailData}
use dreon_notification.Prelude.{if◌then◌else◌}
use dreon_notification.Sms.{Templates, labelled, after}

-- What the replacer of `xmlEscape` writes for a character.
unfoldable pub entity : Char → String
unfolding code_is
entity c =
    if code_is (code c) 38
    then "&amp;"
    else if code_is (code c) 60
    then "&lt;"
    else if code_is (code c) 62
    then "&gt;"
    else if code_is (code c) 34
    then "&quot;"
    else if code_is (code c) 39
    then "&apos;"
    else String.◌∷◌ c String.[]

-- What stands before a text.
abbrev pub prepend : String → String → String
prepend String.[] t = t
prepend (String.◌∷◌ c s) t = String.◌∷◌ c (prepend s t)

-- `xmlEscape`
unfoldable pub xml_escape : String → String
unfolding entity
xml_escape String.[] = String.[]
xml_escape (String.◌∷◌ c s) = prepend (entity c) (xml_escape s)

-- `xmlEscapeAny`: nil is nothing, and `fmt.Sprint` is a parameter.
unfoldable pub xml_escape_any : (Value → String) → Value → String
xml_escape_any sprint null = ""
xml_escape_any sprint v = xml_escape (sprint v)

-- The directory of the templates, of which `NewRenderer` has its own default
unfoldable pub email_template_dir : String → String
email_template_dir configured = if configured == "" then "templates/emails" else configured

-- The templates know the function `xml`, by which they escape a value.
module _ (templates : (Value → String) → Templates) (sprint : Value → String)
    (mjml : String → Result String) where
  abbrev known : Templates
  known = templates (xml_escape_any sprint)

  -- `Renderer.Render`
  unfoldable pub render : String → String → Fields → Result String
  render dir name fs =
      after (labelled "read mjml template " name (known.read dir (append name ".mjml"))) λ text.
        after (labelled "parse template " name (known.parse text)) λ tpl.
          after (labelled "execute template " name (known.execute tpl fs))
            λ page. labelled "mjml render " name (mjml page)

-- resend.SendEmailRequest, as far as the client sets it
pub record SendEmailRequest : Type 0 where
  pub from : String
  pub recipients : List String
  pub subject : String
  pub html : String

-- `ResendEmailClient.SendEmail`: the sender is that of the configuration.
unfoldable pub resend_send_email :
    (SendEmailRequest → Option Error) → String → EmailData → Option Error
resend_send_email send sender d =
    send (record { from = sender; recipients = d.recipients; subject = d.subject; html = d.html })
