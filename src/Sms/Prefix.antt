-- ===== src/Sms/Prefix.antt =====
-- pkg/sms/twilio.go, `SendSMS`: who gets a message, also where Twilio fails.
use mathlib.Core.Path.{subst}
use mathlib.Core.List.{append_assoc, append-nil, map-append}
use dreon_notification.Prelude.{
  ℕ, suc, ◌+◌, ◌≡◌, refl, sym, ap, ◌∙◌, ◌⊎◌, inl, inr, String, ◌==◌, eq_iff, List, [], ◌∷◌, ◌++◌,
  map, Option, none, some, arith, is_nil, empty_of_is_nil, length, length-map, Bool-cases,
  Option-cases,
}
use dreon_notification.Go.Error.{Error, context}
use dreon_notification.Go.Text.{append}
use dreon_notification.World.{SmsData}
use dreon_notification.Sms.{CreateMessageParams, Sending, params, send_each, twilio_send_sms}

module _ (create_message : ℕ → CreateMessageParams → Option Error) (from : String)
    (d : SmsData) where
  -- Twilio accepts each of the requests, the first of which has the number `k`.
  abbrev pub Accepted : ℕ → List CreateMessageParams → Type 0
  Accepted k [] = Unit
  Accepted k (r ∷ rs) = (create_message k r ≡ none) × Accepted (suc k) rs

  abbrev pub requests_for : List String → List CreateMessageParams
  requests_for = map (params create_message from d)

  -- Every recipient has a request that Twilio has accepted; or those before one for whom it has refused
  -- it, which the error says, and none after that one has any.
  abbrev pub PrefixOutcome : List String → Sending → Type 0
  PrefixOutcome tos s =
      ((s.failure ≡ none) × (s.requests ≡ requests_for tos) × Accepted 0 s.requests)
      ⊎ ((before : List String) × (to : String) × (later : List String) × (e : Error) × (tos
            ≡ before ++ to ∷ later)
          × (s.requests ≡ requests_for (before ++ to ∷ []))
          × Accepted 0 (requests_for before)
          × (create_message (length before) (params create_message from d to) ≡ some e)
          × (s.failure ≡ some (context (append "send SMS to " to) e)))

  Accepted-append :
      (k : ℕ) (rs : List CreateMessageParams) (r : CreateMessageParams)
      → Accepted k rs
      → create_message (k + length rs) r ≡ none
      → Accepted k (rs ++ r ∷ [])
  Accepted-append k [] r h e = (subst (λ n. create_message n r ≡ none) (omega arith) e, tt)
  Accepted-append k (q ∷ rs) r (p, h) e =
      (p, Accepted-append (suc k) rs r h (subst (λ n. create_message n r ≡ none) (omega arith) e))

  send_each-PrefixOutcome :
      (done rest : List String) (log : List CreateMessageParams)
      → log ≡ requests_for done
      → Accepted 0 log
      → PrefixOutcome (done ++ rest) (send_each create_message from d rest log)
  unfolding send_each
  send_each-PrefixOutcome done [] log same ok =
      inl (refl, same ∙ ap requests_for (sym (append-nil done)), ok)
  send_each-PrefixOutcome done (to ∷ rest) log same ok =
      let longer : log ++ params create_message from d to ∷ [] ≡ requests_for (done ++ to ∷ []) =
        ap (λ l. l ++ params create_message from d to ∷ []) same
        ∙ sym (map-append (params create_message from d) done (to ∷ [])) in
      elim (Option-cases (create_message (length log) (params create_message from d to))) [
        | inl fine ↦
            let log' = log ++ params create_message from d to ∷ [] in
            rw (fine, send_each)
              (subst (λ tos. PrefixOutcome tos (send_each create_message from d rest log'))
                (append_assoc done (to ∷ []) rest)
                (send_each-PrefixOutcome (done ++ to ∷ []) rest log' longer (
                  Accepted-append 0 log (params create_message from d to) ok (
                    subst (λ n. create_message n (params create_message from d to) ≡ none)
                      (omega arith) fine))))
        | inr (e, bad) ↦
            rw (bad, send_each)
              (inr (
                done,
                to,
                rest,
                e,
                refl,
                longer,
                subst (Accepted 0) same ok,
                subst (λ n. create_message n (params create_message from d to) ≡ some e)
                    (ap length same ∙ length-map (params create_message from d) done) bad,
                refl,
              ))
      ]

  -- A call with no recipient, or with no number to send from, makes no request and fails.
  abbrev pub SmsOutcome : Sending → Type 0
  SmsOutcome s =
      ((e : Error) × (s.failure ≡ some e) × (s.requests ≡ []) × ((d.recipients ≡ []) ⊎ (from ≡ "")))
      ⊎ PrefixOutcome d.recipients s

  -- `SendSMS` fails and makes no request if there are no recipients or no number to send from. Else it
  -- makes one request for each recipient, in order, up to the first that Twilio refuses: with no error all
  -- have been accepted; the error names the first for whom Twilio has refused it, those before have been
  -- accepted, and those behind have no request.
  pub twilio_send_sms-SmsOutcome : SmsOutcome (twilio_send_sms create_message from d)
  unfolding twilio_send_sms
  twilio_send_sms-SmsOutcome = elim (Bool-cases (is_nil d.recipients)) [
    | inl e ↦ rw e (inl (_, refl, refl, inl (empty_of_is_nil d.recipients e)))
    | inr e ↦ elim (Bool-cases (from == "")) [
      | inl none_set ↦ rw (e, none_set) (inl (_, refl, refl, inr ((eq_iff from "").0 none_set)))
      | inr set ↦ rw (e, set) (inr (send_each-PrefixOutcome [] d.recipients [] refl tt))
    ]
  ]
