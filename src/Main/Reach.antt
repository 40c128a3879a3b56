-- ===== src/Main/Reach.antt =====
-- main.go with internal/service/notification.go, pkg/email/resend.go, pkg/sms/mock.go and
-- pkg/fcm/client.go: whom a send reaches.
use mathlib.Core.Path.{subst}
use mathlib.Core.Option.{some-injective}
use dreon_notification.Prelude.{
  ℕ, ◌≡◌, refl, ap, sym, ◌∙◌, ◌<◌, ◌⊎◌, inl, inr, false, String, ◌==◌, List, [], ◌∷◌, ◌++◌, map,
  Option, none, some, ltb→lt, All,
}
use dreon_notification.Go.Error.{Error, Result, ok, err}
use dreon_notification.Model.{channel_in_app}
use dreon_notification.World.{
  World, Env, Delivery, email, sms, push_tokens, push_topics, PushMessage,
}
use dreon_notification.Aggregate.{SendNotificationReq}
use dreon_notification.Service.{SendOutcome}
use dreon_notification.Service.Send.{send_notification}
use dreon_notification.Service.Delivery.{addressees, Reached, Accepted}
use dreon_notification.Service.Delivery.Channels.{send_notification-SendResult}
use dreon_notification.Sms.{mock_client}
use dreon_notification.Email.{resend_send_email}
use dreon_notification.Fcm.{answer, firebase_client, send_to_tokens, to_topic_message}
use dreon_notification.Fcm.Batches.{sent, real_tokens, IsBatch, send_to_tokens-BatchesOutcome}
use dreon_notification.Fcm.Topics.{real_topics, accepted, send_to_topics-TopicsOutcome}
use dreon_notification.Main.{Outside, Settings, new_notification_svc}

Succeeds : Option Error → Option SendOutcome → Type 0
Succeeds f o = (f ≡ none) × ((s : SendOutcome) × (o ≡ some s) × (0 < s.success_count))

Reached-answer : (f : Option Error) (o : Option SendOutcome) → Reached (answer f o) → Succeeds f o
unfolding Succeeds
Reached-answer (some e) o h = absurd h
Reached-answer none none h = cc
Reached-answer none (some o) h = (refl, (o, refl, ltb→lt 0 o.success_count h))

module _ (o : Outside) (s : Settings) where
  -- What the provider of the channel has done in the call with the number `k`.
  abbrev pub Provided : ℕ → Delivery → Type 0
  Provided k (email d) =
      o.resend k
        (record { from = s.sender; recipients = d.recipients; subject = d.subject; html = d.html })
      ≡ none
  Provided k (sms d) = ⊥
  Provided k (push_tokens ts m) =
      let r = send_to_tokens (o.messaging k) ts (some m) in
      All (IsBatch m) r.requests
      × (sent r.requests ≡ real_tokens ts)
      × ((c : SendOutcome) × (r.outcome ≡ some c) × (0 < c.success_count))
  Provided k (push_topics ts m) =
      0 < accepted (o.messaging k) 0 (map (to_topic_message m) (real_topics ts))

  tokens-Provided :
      (k : ℕ) (ts : List String) (m : PushMessage)
      → Reached ((firebase_client o.messaging).send_to_tokens k ts m)
      → Provided k (push_tokens ts m)
  unfolding firebase_client Succeeds
  tokens-Provided k ts m h =
      let (fine, reached) = Reached-answer _ _ h in
      let (batches, how) = send_to_tokens-BatchesOutcome (o.messaging k) ts m in
      elim how [ inl (_, whole) ↦ (batches, whole, reached) | inr (e, unsent, failed, _, _) ↦ cc ]

  topics-Provided :
      (k : ℕ) (ts : List String) (m : PushMessage)
      → Reached ((firebase_client o.messaging).send_to_topics k ts m)
      → Provided k (push_topics ts m)
  unfolding firebase_client Succeeds
  topics-Provided k ts m h =
      let (fine, (c, given, reached)) = Reached-answer _ _ h in
      elim (send_to_topics-TopicsOutcome (o.messaging k) ts m) [
        | inl (e, failed, _, _, _) ↦ cc
        | inr (c', outcome, asked, count, _, _) ↦
            let same : c ≡ c' = some-injective _ _ (sym given ∙ outcome) in
            subst (λ rs. 0 < accepted (o.messaging k) 0 rs) asked
              (subst (λ n. 0 < n) (ap (λ x. x.success_count) same ∙ count) reached)
      ]

  Accepted-Provided :
      (k : ℕ) (d : Delivery) → Accepted (new_notification_svc o s) k d → Provided k d
  unfolding new_notification_svc mock_client resend_send_email
  Accepted-Provided k (email d) h = h
  Accepted-Provided k (sms d) (c, same, h) =
      let refused = subst (λ c. c.send k d ≡ none) (sym (some-injective _ _ same)) h in cc
  Accepted-Provided k (push_tokens ts m) (c, same, h) =
      tokens-Provided k ts m
        (subst (λ c. Reached (c.send_to_tokens k ts m)) (sym (some-injective _ _ same)) h)
  Accepted-Provided k (push_topics ts m) (c, same, h) =
      topics-Provided k ts m
        (subst (λ c. Reached (c.send_to_topics k ts m)) (sym (some-injective _ _ same)) h)

module _ (o : Outside) (s : Settings) (env : Env) (req : SendNotificationReq) where
  -- A send fails with at most one call of a client, or it succeeds, and then the provider has done its part.
  abbrev pub ProviderOutcome : World → Result (Unit {0}) → World → Type 0
  ProviderOutcome w r v =
      ((e : Error) × (r ≡ err e)
        × ((v.deliveries ≡ w.deliveries)
            ⊎ ((d : Delivery) × (v.deliveries ≡ w.deliveries ++ d ∷ []))))
      ⊎ ((d : Delivery) × (k : ℕ) × (r ≡ ok tt)
          × (addressees d ≡ req.recipients)
          × Provided o s k d
          × (v.deliveries ≡ w.deliveries ++ d ∷ []))

  -- In the program as `main` puts it together, a send by email, SMS or push fails with at most one call of a
  -- client; or Resend has accepted one email to all recipients from the configured sender; or Firebase was
  -- asked, in batches of at most 500, for every token that is not blank, and one at least was reached; or
  -- for every topic, and one at least was accepted. A send by SMS never succeeds.
  pub send_notification-ProviderOutcome :
      (w : World)
      → (req.channel == channel_in_app) ≡ false
      → ProviderOutcome w
          (send_notification env (new_notification_svc o s) req w).0
          (send_notification env (new_notification_svc o s) req w).1
  send_notification-ProviderOutcome w h =
      elim (send_notification-SendResult env (new_notification_svc o s) req w h) [
        | inl failed ↦ inl failed
        | inr (d, k, done, everyone, accepted_by, _, log) ↦
            inr (d, k, done, everyone, Accepted-Provided o s k d accepted_by, log)
      ]
