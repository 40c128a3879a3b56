-- ===== src/Service/Enqueue.antt =====
-- internal/service/notification.go, `EnqueueNotification`: what a caller can rely on.
use dreon_notification.Prelude.{
  ℕ, suc, ◌≡◌, refl, ap, ◌∙◌, ◌⊎◌, inl, inr, Bool, true, false, String, ◌==◌, [], ◌∷◌, ◌++◌, Option,
  none, some, Bool-cases, Option-cases, if◌then◌else◌, ltb,
}
use dreon_notification.Go.Error.{Error, Result, ok, err, internal, new, wrap, context, plain}
use dreon_notification.Go.Value.{Value, marshal}
use dreon_notification.Model.{Notification}
use dreon_notification.World.{World, Env, Message}
use dreon_notification.World.Exec.{◌>>=◌, ◌>>◌, pure, map_error, guard}
use dreon_notification.Repository.{fresh_row, refused, create}
use dreon_notification.Repository.Schema.{notifications}
use dreon_notification.Repository.Create.{create-CreateOutcome}
use dreon_notification.Aggregate.{SendNotificationReq, to_model, params_value}
use dreon_notification.Aggregate.Payload.{enqueue_value, enqueue_payload}
use dreon_notification.Aggregate.RoundTrip.{enqueue_payload-marshal}
use dreon_notification.Service.{NotificationSvc, Publisher}
use dreon_notification.Service.Send.{or_fail}
use dreon_notification.Service.Published.{publish_up, publish_down}
use dreon_notification.Service.Queue.{
  topic_send, with_params, is_in_future, payload_for, publish, publish_send, refuse_invalid,
  enqueue_notification,
}

module _ (req : SendNotificationReq) where
  -- The message that a consumer reads back as the notification `id` and the request.
  pub record IsMessageFor (id : String) (m : Message) : Type 0 where
    pub on_topic : m.topic ≡ topic_send
    pub named : m.uuid ≡ id
    pub decodes : enqueue_payload m.payload ≡ some (payload_for id req)

  -- The publication fails and leaves the tables and the queue alone, or puts the message on the queue.
  abbrev PublishOutcome : String → World → Result String × World → Type 0
  PublishOutcome id w (r, v) =
      (v.tables ≡ w.tables)
      × (((e : Error) × (r ≡ err e) × (v.published ≡ w.published))
          ⊎ ((m : Message) × (r ≡ ok id)
              × (v.published ≡ w.published ++ m ∷ [])
              × IsMessageFor id m))

  document-PublishOutcome :
      (p : Publisher) (id : String) (o : Option Value) (w : World)
      → marshal (enqueue_value (payload_for id req)) ≡ o
      → PublishOutcome id w (
          (do
            document ← or_fail o (
                wrap internal (context "marshal enqueue payload" (plain "json: unsupported value")))
            map_error
                (λ e. wrap internal (context "publish to queue" e))
                (publish p (record { topic = topic_send; uuid = id; payload = some document }))
            pure id)
            w)
  document-PublishOutcome p id none w h = (refl, inl (_, refl, refl))
  document-PublishOutcome p id (some d) w h =
      let m : Message = record { topic = topic_send; uuid = id; payload = some d } in
      elim (Option-cases (p.publish w.calls m)) [
        | inl up ↦ rw (publish_up p m w up) (
          refl,
          inr (
            m,
            refl,
            refl,
            record {
              on_topic = refl;
              named = refl;
              decodes = enqueue_payload-marshal (payload_for id req) d h;
            },
          ),
        )
        | inr (e, down) ↦ rw (publish_down p m w e down) (refl, inl (_, refl, refl))
      ]

module _ (env : Env) (svc : NotificationSvc) (req : SendNotificationReq) where
  -- The row that is stored for the request: PENDING, never tried.
  abbrev pub new_row : ℕ → String → Notification
  new_row n id =
      fresh_row env notifications n id
        (with_params (marshal (params_value req.params)) svc.cfg.max_attempts (to_model req))

  -- The row is added, and no row had its id or its idempotency key.
  abbrev pub Stored : ℕ → String → World → World → Type 0
  Stored n id w v =
      (refused notifications w.notifications (new_row n id) ≡ false)
      × (v.tables ≡ record w.tables { notifications = w.notifications ++ new_row n id ∷ [] })

  -- The request is for a time that has not come, or its message is on the queue.
  abbrev pub Queued : String → World → World → Type 0
  Queued id w v =
      ((t : ℕ) × (k : ℕ) × (req.scheduled_at ≡ some t)
        × (ltb (env.clock k) t ≡ true)
        × (v.published ≡ w.published))
      ⊎ ((m : Message) × (v.published ≡ w.published ++ m ∷ []) × IsMessageFor req id m)

  abbrev pub EnqueueOutcome : World → Result String × World → Type 0
  EnqueueOutcome w (r, v) =
      ((e : Error) × (r ≡ err e)
        × (v.published ≡ w.published)
        × ((v.tables ≡ w.tables) ⊎ ((n : ℕ) × (id : String) × Stored n id w v)))
      ⊎ ((n : ℕ) × (id : String) × (r ≡ ok id) × Stored n id w v × Queued id w v)

  publish_send-PublishOutcome :
      (id : String) (w : World) → PublishOutcome req id w (publish_send env svc id req w)
  unfolding publish_send
  publish_send-PublishOutcome id w = on svc.publisher
    where
      on :
          (o : Option Publisher)
          → PublishOutcome req id w (
              (do
                p ← or_fail o (new internal "message publisher not configured")
                document ← or_fail (marshal (enqueue_value (payload_for id req))) (
                    wrap internal
                      (context "marshal enqueue payload" (plain "json: unsupported value")))
                map_error
                    (λ e. wrap internal (context "publish to queue" e))
                    (publish p (record { topic = topic_send; uuid = id; payload = some document }))
                pure id)
                w)
      on none = (refl, inl (_, refl, refl))
      on (some p) = document-PublishOutcome req p id _ w refl

  -- What follows the INSERT, in the world `u` that it left.
  Stored-EnqueueOutcome :
      (n : ℕ) (id : String) (w u : World)
      → Stored n id w u
      → u.published ≡ w.published
      → EnqueueOutcome w (publish_send env svc id req u)
  Stored-EnqueueOutcome n id w u h quiet =
      let (same, o) = publish_send-PublishOutcome id u in
      let kept : Stored n id w (publish_send env svc id req u).1 = (h.0, same ∙ h.1) in
      elim o [
        | inl (e, eq, none_new) ↦ inl (e, eq, none_new ∙ quiet, inr (n, id, kept))
        | inr (m, eq, one_new, m_ok) ↦
            inr (n, id, eq, kept, inr (m, one_new ∙ ap (λ ms. ms ++ m ∷ []) quiet, m_ok))
      ]

  future-EnqueueOutcome :
      (n k : ℕ) (id : String) (t : ℕ) (b : Bool) (w u : World)
      → req.scheduled_at ≡ some t
      → ltb (env.clock k) t ≡ b
      → Stored n id w u
      → u.published ≡ w.published
      → EnqueueOutcome w ((if b then pure id else publish_send env svc id req) u)
  future-EnqueueOutcome n k id t true w u s e h quiet =
      inr (n, id, refl, h, inl (t, k, s, e, quiet))
  future-EnqueueOutcome n k id t false w u s e h quiet = Stored-EnqueueOutcome n id w u h quiet

  time-EnqueueOutcome :
      (n : ℕ) (id : String) (o : Option ℕ) (w u : World)
      → req.scheduled_at ≡ o
      → Stored n id w u
      → u.published ≡ w.published
      → EnqueueOutcome w
          ((is_in_future env svc o >>= λ b. if b then pure id else publish_send env svc id req) u)
  unfolding is_in_future
  time-EnqueueOutcome n id none w u s h quiet = Stored-EnqueueOutcome n id w u h quiet
  time-EnqueueOutcome n id (some t) w u s h quiet =
      future-EnqueueOutcome n u.calls id t _ w (record u { calls = suc u.calls }) s refl h quiet

  created-EnqueueOutcome :
      (w : World)
      → EnqueueOutcome w (
          (do
            created ← create env notifications (
                with_params (marshal (params_value req.params)) svc.cfg.max_attempts (to_model req))
            guard (created.id == "") (new internal "notification created but ID is empty")
            future ← is_in_future env svc req.scheduled_at
            if future then pure created.id else publish_send env svc created.id req)
            w)
  created-EnqueueOutcome w =
      elim (create-CreateOutcome env notifications
        (with_params (marshal (params_value req.params)) svc.cfg.max_attempts (to_model req)) w) [
          | inl (e, eq, calm) ↦ rw eq (inl (e, refl, calm.same_published, inl calm.same_tables))
          | inr (n, id, eq, free, grown) ↦ elim (Bool-cases (id == "")) [
            | inl blank ↦
                rw (eq, blank)
                  (inl (_, refl, grown.same_published, inr (n, id, (free, grown.added))))
            | inr given ↦
                rw (eq, given)
                  (time-EnqueueOutcome n id req.scheduled_at w _ refl (free, grown.added)
                    grown.same_published)
          ]
        ]

  -- A request that is accepted has its row stored, new in id and idempotency key, PENDING and never
  -- tried; and either it is for a time that has not come and nothing is published, or exactly one
  -- message is, from which a consumer reads the row's id and the whole request. A request that is
  -- refused has no message published, and at most its row is stored.
  pub enqueue_notification-EnqueueOutcome :
      (w : World) → EnqueueOutcome w (enqueue_notification env svc req w)
  unfolding enqueue_notification
  enqueue_notification-EnqueueOutcome w = valid (svc.validate req)
    where
      valid :
          (o : Option Error)
          → EnqueueOutcome w (
              (do
                refuse_invalid o
                created ← create env notifications (
                    with_params
                      (marshal (params_value req.params))
                      svc.cfg.max_attempts
                      (to_model req))
                guard (created.id == "") (new internal "notification created but ID is empty")
                future ← is_in_future env svc req.scheduled_at
                if future then pure created.id else publish_send env svc created.id req)
                w)
      valid none = created-EnqueueOutcome w
      valid (some e) = inl (_, refl, refl, inl refl)
