-- ===== src/Tests/Messages.antt =====
-- The theorems on Twilio and on the escape of text.
use dreon_notification.Prelude.{ℕ, zero, suc, ◌≡◌, [], ◌∷◌, Option, none, some}
use dreon_notification.Go.Error.{Error, plain}
use dreon_notification.World.{SmsData}
use dreon_notification.Sms.{CreateMessageParams, twilio_send_sms}
use dreon_notification.Sms.Prefix.{SmsOutcome, twilio_send_sms-SmsOutcome}
use dreon_notification.Email.{xml_escape}
use dreon_notification.Email.Escape.{IsSafe, content, xml_escape_lem}

-- The second request is refused.
abbrev refuse_second : ℕ → CreateMessageParams → Option Error
refuse_second (suc zero) r = some (plain "21211")
refuse_second _ r = none

abbrev three : SmsData
three = record { recipients = "+1" ∷ "+2" ∷ "+3" ∷ []; body = "Hi" }

twilio_send_sms-SmsOutcome_example :
    SmsOutcome refuse_second "+9" three (twilio_send_sms refuse_second "+9" three)
twilio_send_sms-SmsOutcome_example = twilio_send_sms-SmsOutcome refuse_second "+9" three

xml_escape_lem_example :
    IsSafe (xml_escape "Tom & <b>'J'</b>")
    × (content (xml_escape "Tom & <b>'J'</b>") ≡ "Tom & <b>'J'</b>")
xml_escape_lem_example = xml_escape_lem "Tom & <b>'J'</b>"
