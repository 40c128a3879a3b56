-- ===== src/Service/Delivery.antt =====
-- internal/service/notification.go, `SendNotification`: what one call of one client, for all recipients,
-- comes to.
pub mod Channels
use dreon_notification.Prelude.{
  ℕ, suc, ◌≡◌, refl, ap, ◌∙◌, sym, ◌⊎◌, inl, inr, Bool, true, false, not, String, ◌==◌, List, [],
  ◌∷◌, ◌++◌, Option, none, some, arith, ltb, Bool-cases, Option-cases, if◌then◌else◌,
}
use dreon_notification.Go.Error.{Error, Result, ok, err, internal, wrap, context}
use dreon_notification.Model.{channel_in_app}
use dreon_notification.World.{
  World, Env, Delivery, email, sms, push_tokens, push_topics, EmailData, SmsData, PushMessage,
}
use dreon_notification.World.Exec.{
  Exec, raise, pure, lift, ask, ◌>>=◌, ◌>>◌, fail_with, guard, map_error, relabel,
}
use dreon_notification.World.Frame.{Untouched, Untouched-refl, Untouched-trans, Result-cases}
use dreon_notification.Aggregate.{SendNotificationReq}
use dreon_notification.Service.{NotificationSvc, SmsClient, FcmClient, Renderer, SendOutcome}
use dreon_notification.Service.Send.{
  or_fail, deliver, params_or_empty, none_sent, sms_text, send_email, send_sms, send_push,
  send_notification, is_group,
}

abbrev pub addressees : Delivery → List String
addressees (email m) = m.recipients
addressees (sms m) = m.recipients
addressees (push_tokens ts m) = ts
addressees (push_topics ts m) = ts

-- Some device or topic got the message.
abbrev pub Reached : Result SendOutcome → Type 0
Reached (ok o) = ltb 0 o.success_count ≡ true
Reached (err e) = ⊥

-- The client has accepted the call with the number `k`.
abbrev pub Accepted : NotificationSvc → ℕ → Delivery → Type 0
Accepted svc k (email m) = svc.email_client.send k m ≡ none
Accepted svc k (sms m) = (c : SmsClient) × (svc.sms_client ≡ some c) × (c.send k m ≡ none)
Accepted svc k (push_tokens ts m) =
    (c : FcmClient) × (svc.fcm_client ≡ some c) × Reached (c.send_to_tokens k ts m)
Accepted svc k (push_topics ts m) =
    (c : FcmClient) × (svc.fcm_client ≡ some c) × Reached (c.send_to_topics k ts m)

-- A send fails with at most one call of a client, or it succeeds, and then one client has accepted one
-- call for all the recipients.
abbrev pub SendResult :
    NotificationSvc → SendNotificationReq → World → Result (Unit {0}) → World → Type 0
SendResult svc req w r v =
    ((e : Error) × (r ≡ err e)
      × ((v.deliveries ≡ w.deliveries)
          ⊎ ((d : Delivery) × (v.deliveries ≡ w.deliveries ++ d ∷ []))))
    ⊎ ((d : Delivery) × (k : ℕ) × (r ≡ ok tt)
        × (addressees d ≡ req.recipients)
        × Accepted svc k d
        × (v.tables ≡ w.tables)
        × (v.deliveries ≡ w.deliveries ++ d ∷ []))

-- The result of a method that is run when no client has been called yet.
pub record Sends (svc : NotificationSvc) (req : SendNotificationReq) (w : World)
    (m : Exec (Unit {0})) : Type 0 where
  pub at : (u : World) → Untouched w u → SendResult svc req w (m u).0 (m u).1

module _ (svc : NotificationSvc) (req : SendNotificationReq) (w : World) where
  guard-at :
      (b : Bool) (e : Error) (m : Exec (Unit {0})) (u : World)
      → Untouched w u
      → SendResult svc req w (m u).0 (m u).1
      → SendResult svc req w ((guard b e >> m) u).0 ((guard b e >> m) u).1
  guard-at true e m u same h = inl (e, refl, inl same.same_deliveries)
  guard-at false e m u same h = h

  pub Sends-guard :
      (b : Bool) (e : Error) {m : Exec (Unit {0})}
      → Sends svc req w m
      → Sends svc req w (guard b e >> m)
  Sends-guard b e {m} h = record { at = λ u same. guard-at b e m u same (h.at u same) }

  pub counted-Untouched :
      (u : World) → Untouched w u → Untouched w (record u { calls = suc u.calls })
  counted-Untouched u same = record {
    same_tables = same.same_tables;
    same_published = same.same_published;
    same_deliveries = same.same_deliveries;
    same_cache = same.same_cache;
  }

  pub Sends-ask :
      {A : Type 0} (f : ℕ → A) {g : A → Exec (Unit {0})}
      → ((a : A) → Sends svc req w (g a))
      → Sends svc req w (ask f >>= g)
  Sends-ask f {g} h = record {
    at = λ u same. (h (f u.calls)).at (record u { calls = suc u.calls }) (counted-Untouched u same);
  }

  pub lift-at :
      {A : Type 0} (f : Error → Error) (r : Result A) (g : A → Exec (Unit {0})) (u : World)
      → Untouched w u
      → ((a : A) → Sends svc req w (g a))
      → SendResult svc req w ((map_error f (lift r) >>= g) u).0 ((map_error f (lift r) >>= g) u).1
  lift-at f (ok a) g u same h = (h a).at u same
  lift-at f (err e) g u same h = inl (f e, refl, inl same.same_deliveries)

  pub Sends-lift :
      {A : Type 0} (f : Error → Error) (r : Result A) {g : A → Exec (Unit {0})}
      → ((a : A) → Sends svc req w (g a))
      → Sends svc req w (map_error f (lift r) >>= g)
  Sends-lift f r {g} h = record { at = λ u same. lift-at f r g u same h }

  or_fail-at :
      {A : Type 0} (o : Option A) (e : Error) (g : A → Exec (Unit {0})) (u : World)
      → Untouched w u
      → ((a : A) → o ≡ some a → Sends svc req w (g a))
      → SendResult svc req w ((or_fail o e >>= g) u).0 ((or_fail o e >>= g) u).1
  or_fail-at none e g u same h = inl (e, refl, inl same.same_deliveries)
  or_fail-at (some a) e g u same h = (h a refl).at u same

  pub Sends-or_fail :
      {A : Type 0} (o : Option A) (e : Error) {g : A → Exec (Unit {0})}
      → ((a : A) → o ≡ some a → Sends svc req w (g a))
      → Sends svc req w (or_fail o e >>= g)
  Sends-or_fail o e {g} h = record { at = λ u same. or_fail-at o e g u same h }

  -- The last step where the client answers with an error or none.
  answered-at :
      (d : Delivery) (f : Error → Error) (o : Option Error) (k : ℕ) (v : World)
      → addressees d ≡ req.recipients
      → (o ≡ none → Accepted svc k d)
      → v.tables ≡ w.tables
      → v.deliveries ≡ w.deliveries ++ d ∷ []
      → SendResult svc req w (map_error f (fail_with o) v).0 (map_error f (fail_with o) v).1
  answered-at d f none k v to took same one = inr (d, k, refl, to, took refl, same, one)
  answered-at d f (some e) k v to took same one = inl (f e, refl, inr (d, one))

  pub Sends-delivery :
      (d : Delivery) (answer : ℕ → Option Error) (f : Error → Error)
      → addressees d ≡ req.recipients
      → ((k : ℕ) → answer k ≡ none → Accepted svc k d)
      → Sends svc req w (deliver d answer >>= λ a. map_error f (fail_with a))
  Sends-delivery d answer f to took = record {
    at = λ u same.
        answered-at d f (answer u.calls) u.calls _ to (took u.calls) same.same_tables
          (ap (λ ds. ds ++ d ∷ []) same.same_deliveries);
  }

  push_result_at :
      (d : Delivery) (f : Error → Error) (answer : Result SendOutcome) (none_reached : Error)
      (k : ℕ) (v : World)
      → addressees d ≡ req.recipients
      → (Reached answer → Accepted svc k d)
      → v.tables ≡ w.tables
      → v.deliveries ≡ w.deliveries ++ d ∷ []
      → let m : Exec (Unit {0}) =
          map_error f (lift answer) >>= λ o. guard (not (ltb 0 o.success_count)) none_reached in
        SendResult svc req w (m v).0 (m v).1
  push_result_at d f (err e) none_reached k v to took same one = inl (f e, refl, inr (d, one))
  push_result_at d f (ok o) none_reached k v to took same one =
      elim (Bool-cases (ltb 0 o.success_count)) [
        | inl e ↦ rw e (inr (d, k, refl, to, took e, same, one))
        | inr e ↦ rw e (inl (none_reached, refl, inr (d, one)))
      ]

  pub Sends-push :
      (d : Delivery) (answer : ℕ → Result SendOutcome) (f : Error → Error) (none_reached : Error)
      → addressees d ≡ req.recipients
      → ((k : ℕ) → Reached (answer k) → Accepted svc k d)
      → Sends svc req w (
          deliver d answer >>= λ a.
          map_error f (lift a) >>= λ o. guard (not (ltb 0 o.success_count)) none_reached)
  Sends-push d answer f none_reached to took = record {
    at = λ u same.
        push_result_at d f (answer u.calls) none_reached u.calls _ to (took u.calls)
          same.same_tables (ap (λ ds. ds ++ d ∷ []) same.same_deliveries);
  }

  if-at :
      {A : Type 0} (b : Bool) (m n : Exec A) (g : A → Exec (Unit {0})) (u : World)
      → Untouched w u
      → Sends svc req w (m >>= g)
      → Sends svc req w (n >>= g)
      → SendResult svc req w (((if b then m else n) >>= g) u).0 (((if b then m else n) >>= g) u).1
  if-at true m n g u same h k = h.at u same
  if-at false m n g u same h k = k.at u same

  pub Sends-if :
      {A : Type 0} (b : Bool) (m n : Exec A) (g : A → Exec (Unit {0}))
      → Sends svc req w (m >>= g)
      → Sends svc req w (n >>= g)
      → Sends svc req w ((if b then m else n) >>= g)
  Sends-if b m n g h k = record { at = λ u same. if-at b m n g u same h k }

  pub raise-Sends : (e : Error) → Sends svc req w (raise e)
  raise-Sends e = record { at = λ u same. inl (e, refl, inl same.same_deliveries) }

  choice-at :
      (b : Bool) (m n : Exec (Unit {0})) (u : World)
      → Untouched w u
      → (b ≡ false ⊎ Sends svc req w m)
      → Sends svc req w n
      → SendResult svc req w ((if b then m else n) u).0 ((if b then m else n) u).1
  choice-at true m n u same (inl e) k = ground arith
  choice-at true m n u same (inr h) k = h.at u same
  choice-at false m n u same h k = k.at u same

  pub Sends-choice :
      (b : Bool) (m n : Exec (Unit {0}))
      → (b ≡ false ⊎ Sends svc req w m)
      → Sends svc req w n
      → Sends svc req w (if b then m else n)
  Sends-choice b m n h k = record { at = λ u same. choice-at b m n u same h k }
