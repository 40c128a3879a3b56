-- ===== src/Service/Delivery/Channels.antt =====
-- internal/service/notification.go, `sendEmail`, `sendSMS` and `sendPush`.
use dreon_notification.Prelude.{
  suc, ◌≡◌, refl, inl, inr, false, not, String, ◌==◌, Option, none, some, ltb,
}
use dreon_notification.Go.Error.{Error, internal, wrap, context}
use dreon_notification.Model.{channel_in_app}
use dreon_notification.World.{World, Env, sms, push_tokens, push_topics, SmsData, PushMessage}
use dreon_notification.World.Exec.{Exec, lift, ◌>>=◌, fail_with, guard, map_error}
use dreon_notification.World.Frame.{Untouched-refl}
use dreon_notification.Aggregate.{SendNotificationReq}
use dreon_notification.Service.{NotificationSvc, SmsClient, FcmClient, Renderer}
use dreon_notification.Service.Send.{
  deliver, params_or_empty, sms_text, send_email, send_sms, send_push, send_notification,
}
use dreon_notification.Service.Delivery.{
  SendResult, Sends, Sends-guard, Sends-ask, Sends-lift, Sends-or_fail, Sends-delivery, Sends-push,
  Sends-if, Sends-choice, raise-Sends, lift-at, counted-Untouched,
}

module _ (svc : NotificationSvc) (req : SendNotificationReq) (w : World) where
  email-Sends : Sends svc req w (send_email svc req)
  unfolding send_email
  email-Sends = search (Sends-guard, Sends-or_fail, Sends-ask, Sends-lift, Sends-delivery) depth 14

  text-Sends :
      (o : Option String) (r : Option Renderer) {g : String → Exec (Unit {0})}
      → ((text : String) → Sends svc req w (g text))
      → Sends svc req w (sms_text svc req o r >>= g)
  unfolding sms_text
  text-Sends none r {g} h = record { at = (h req.message).at }
  text-Sends (some t) none {g} h = record { at = (h req.message).at }
  text-Sends (some t) (some r) {g} h = record {
    at = λ u same.
        lift-at svc req w (λ e. wrap internal (context "render sms template" e))
          (r.render u.calls t (params_or_empty req.params)) g (record u { calls = suc u.calls })
          (counted-Untouched svc req w u same) h;
  }

  sms_delivery :
      (c : SmsClient) (text : String) (f : Error → Error)
      → svc.sms_client ≡ some c
      → let message : SmsData = record { recipients = req.recipients; body = text } in
        Sends svc req w
          (deliver (sms message) (λ n. c.send n message) >>= λ a. map_error f (fail_with a))
  sms_delivery c text f on =
      let message : SmsData = record { recipients = req.recipients; body = text } in
      Sends-delivery svc req w (sms message) (λ n. c.send n message) f refl (λ k e. (c, on, e))

  sms-Sends : Sends svc req w (send_sms svc req)
  unfolding send_sms
  sms-Sends = search (Sends-guard, Sends-or_fail, text-Sends, sms_delivery) depth 14

  tokens_push :
      (c : FcmClient) (m : PushMessage) (f : Error → Error) (none_reached : Error)
      → svc.fcm_client ≡ some c
      → Sends svc req w (
          deliver (push_tokens req.recipients m) (λ n. c.send_to_tokens n req.recipients m) >>= λ a.
          map_error f (lift a) >>= λ o. guard (not (ltb 0 o.success_count)) none_reached)
  tokens_push c m f none_reached on =
      Sends-push svc req w (push_tokens req.recipients m) (λ n. c.send_to_tokens n req.recipients m)
        f none_reached refl (λ k e. (c, on, e))

  topics_push :
      (c : FcmClient) (m : PushMessage) (f : Error → Error) (none_reached : Error)
      → svc.fcm_client ≡ some c
      → Sends svc req w (
          deliver (push_topics req.recipients m) (λ n. c.send_to_topics n req.recipients m) >>= λ a.
          map_error f (lift a) >>= λ o. guard (not (ltb 0 o.success_count)) none_reached)
  topics_push c m f none_reached on =
      Sends-push svc req w (push_topics req.recipients m) (λ n. c.send_to_topics n req.recipients m)
        f none_reached refl (λ k e. (c, on, e))

  push-Sends : Sends svc req w (send_push svc req)
  unfolding send_push
  push-Sends = search (Sends-or_fail, Sends-if, tokens_push, topics_push) depth 14

module _ (env : Env) (svc : NotificationSvc) (req : SendNotificationReq) (w : World) where
  send_notification-Sends :
      (req.channel == channel_in_app) ≡ false → Sends svc req w (send_notification env svc req)
  unfolding send_notification
  send_notification-Sends h = Sends-choice svc req w _ _ _ (inr (email-Sends svc req w)) (
      Sends-choice svc req w _ _ _ (inr (sms-Sends svc req w)) (
        Sends-choice svc req w _ _ _ (inr (push-Sends svc req w))
          (Sends-choice svc req w _ _ _ (inl h) (raise-Sends svc req w _))))

  -- A send by email, SMS or push, or on a channel that does not exist, fails with at most one call of a
  -- client, or it succeeds: then it has called one client once, for all the recipients of the request,
  -- that client has accepted the call (a push has reached a device or a topic), and the tables are as
  -- they were.
  pub send_notification-SendResult :
      (req.channel == channel_in_app) ≡ false
      → SendResult svc req w (send_notification env svc req w).0 (send_notification env svc req w).1
  send_notification-SendResult h = (send_notification-Sends h).at w (Untouched-refl w)
