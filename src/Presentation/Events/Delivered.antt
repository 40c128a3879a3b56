-- ===== src/Presentation/Events/Delivered.antt =====
-- internal/service/notification.go with presentation/events/consumer.go: from the request of a caller to
-- the row that its delivery leaves.
use dreon_notification.Prelude.{
  ℕ, ◌^◌, ◌<◌, ◌≡◌, refl, ap, ◌∙◌, ◌⊎◌, inl, inr, true, false, ◌&&◌, String, ◌==◌, eq_refl, List,
  [], ◌∷◌, ◌++◌, map, some, arith, ltb, All-append, contains, Bool-cases,
}
use mathlib.Core.List.{map-append}
use dreon_notification.Go.Error.{Error, Result, ok, err}
use dreon_notification.Go.Int.{nat_lt_int}
use dreon_notification.Model.{Notification, status_pending, status_completed, status_failed}
use dreon_notification.World.{World, Env, Message}
use dreon_notification.Repository.{is_live, has_id}
use dreon_notification.Repository.Schema.{notifications, default_attempts}
use dreon_notification.Repository.Sound.{ids, IsSoundTable, refused-keys}
use dreon_notification.Repository.Failure.{InRange}
use dreon_notification.Aggregate.{SendNotificationReq, to_model}
use dreon_notification.Service.{NotificationSvc}
use dreon_notification.Service.Send.{send_notification}
use dreon_notification.Service.Queue.{
  topic_send, payload_for, request_of, completed_first, enqueue_notification, process_from_queue,
}
use dreon_notification.Service.Enqueue.{
  IsMessageFor, new_row, Stored, enqueue_notification-EnqueueOutcome,
}
use dreon_notification.Service.Invariant.Queue.{enqueue_notification-KeepsSound}
use dreon_notification.Service.Outcome.{IsUp, initial_delay, InRangeFor, settled}
use dreon_notification.Service.Outcome.Consumers.{process_from_queue-Handled}
use dreon_notification.Presentation.Events.{dispatch, run_consumers}

module _ (env : Env) (svc : NotificationSvc) (req : SendNotificationReq) where
  -- The row after its first send.
  abbrev pub Tried : Result (Unit {0}) → Notification → Type 0
  Tried (ok u) r = (r.status ≡ status_completed) × (r.attempt_count ≡ 1)
  Tried (err e) r =
      (r.attempt_count ≡ 1)
      × (((nat_lt_int 1 (default_attempts svc.cfg.max_attempts) ≡ true)
            × (r.status ≡ status_pending)
            × ((t : ℕ) × (r.next_retry_at ≡ some t)))
          ⊎ ((nat_lt_int 1 (default_attempts svc.cfg.max_attempts) ≡ false)
              × (r.status ≡ status_failed)))

  abbrev pub sent_from : String → World → Result (Unit {0}) × World
  sent_from id v = send_notification env svc (request_of (payload_for id req)) v

  pub record Delivered (id : String) (w v u : World) : Type 0 where
    pub row : Notification
    pub rows : u.notifications ≡ w.notifications ++ row ∷ []
    pub named : row.id ≡ id
    pub keyed : row.idempotency_key ≡ req.idempotency_key
    pub tried : Tried (sent_from id v).0 row
    pub deliveries_of_send : u.deliveries ≡ (sent_from id v).1.deliveries
    pub same_published : u.published ≡ v.published

  settled_others :
      (id : String) (sent : Result (Unit {0})) (n : ℕ) (rs : List Notification)
      → contains id (ids rs) ≡ false
      → map (settled env svc id completed_first sent n) rs ≡ rs
  settled_others id sent n [] h = refl
  settled_others id (ok u) n (r ∷ rs) h =
      elim (Bool-cases (is_live notifications r && has_id notifications id r)) [
        | inl e ↦ absurd (ground arith)
        | inr e ↦ rw e (ap (◌∷◌ r) (settled_others id (ok u) n rs (ground arith)))
      ]
  settled_others id (err f) n (r ∷ rs) h = elim (Bool-cases (r.id == id)) [
    | inl e ↦ absurd (ground arith)
    | inr e ↦ rw e (ap (◌∷◌ r) (settled_others id (err f) n rs (ground arith)))
  ]

  settled_new-Tried :
      (n k : ℕ) (id : String) (sent : Result (Unit {0}))
      → let r = settled env svc id completed_first sent k (new_row env svc req n id) in
        (r.id ≡ id) × (r.idempotency_key ≡ req.idempotency_key) × Tried sent r
  unfolding to_model
  settled_new-Tried n k id (ok u) = rw (eq_refl id) (refl, refl, (refl, refl))
  settled_new-Tried n k id (err e) =
      rw (eq_refl id) (elim (Bool-cases (nat_lt_int 1 (default_attempts svc.cfg.max_attempts))) [
        | inl e ↦ rw e (refl, refl, (refl, inl (refl, refl, (_, refl))))
        | inr e ↦ rw e (refl, refl, (refl, inr (refl, refl)))
      ])

  others_in_range :
      (id : String) (rs : List Notification)
      → contains id (ids rs) ≡ false
      → InRangeFor env svc id rs
  others_in_range id [] h = tt
  others_in_range id (r ∷ rs) h =
      ((λ e. absurd (ground arith)), others_in_range id rs (ground arith))

  run_consumers-sent :
      (m : Message) (v : World)
      → m.topic ≡ topic_send
      → run_consumers env svc m v ≡ process_from_queue env svc m v
  unfolding run_consumers dispatch
  run_consumers-sent m v e = rw e refl

  consumed-Delivered :
      (w v : World) (n : ℕ) (id : String) (m : Message)
      → IsUp env
      → env.to_double (initial_delay env svc) ≡ initial_delay env svc
      → initial_delay env svc < 2 ^ 63
      → IsSoundTable v.notifications
      → Stored env svc req n id w v
      → IsMessageFor req id m
      → Delivered id w v (run_consumers env svc m v).1
  unfolding to_model
  consumed-Delivered w v n id m up exact fits sound (free, grown) mail =
      let new = new_row env svc req n id in
      let fresh = (refused-keys w.notifications new free).0 in
      let sent = sent_from id v in
      let rows : v.notifications ≡ w.notifications ++ new ∷ [] = ap (λ t. t.notifications) grown in
      let in_range : InRangeFor env svc id v.notifications = rw rows (
        All-append (λ r. (r.id == id) ≡ true → InRange (initial_delay env svc) r) w.notifications
          (new ∷ []) (others_in_range id w.notifications fresh) ((λ _. omega arith), tt)) in
      let done =
        process_from_queue-Handled env svc m (payload_for id req) v up exact in_range sound
          mail.decodes in
      let (named, keyed, tried) = settled_new-Tried n sent.1.calls id sent.0 in
      rw (run_consumers-sent m v mail.on_topic) (record {
        row = settled env svc id completed_first sent.0 sent.1.calls new;
        rows =
            done.rows
            ∙ ap (map (settled env svc id completed_first sent.0 sent.1.calls)) rows
            ∙ map-append (settled env svc id completed_first sent.0 sent.1.calls) w.notifications
                (new ∷ [])
            ∙ ap (λ rs. rs ++ settled env svc id completed_first sent.0 sent.1.calls new ∷ [])
                (settled_others id sent.0 sent.1.calls w.notifications fresh);
        named = named;
        keyed = keyed;
        tried = tried;
        deliveries_of_send = done.deliveries_of_send;
        same_published = done.same_published;
      })

  -- The request is refused, scheduled for later, or on the queue, where its consumer delivers it.
  abbrev pub DeliveryOutcome : World → Result String → World → Type 0
  DeliveryOutcome w r v =
      ((e : Error) × (r ≡ err e) × (v.published ≡ w.published))
      ⊎ ((id : String) × (r ≡ ok id)
          × (((t : ℕ) × (k : ℕ) × (req.scheduled_at ≡ some t)
                × (ltb (env.clock k) t ≡ true)
                × (v.published ≡ w.published))
              ⊎ ((m : Message) × (v.published ≡ w.published ++ m ∷ [])
                  × Delivered id w v (run_consumers env svc m v).1)))

  -- With a database that answers, an initial delay that a double holds exactly and that fits a `bigint`, and
  -- a sound table: a request is refused and no message is published; or it is accepted for a time that has
  -- not come; or it is accepted and one message is published, and once the router has handed that to its
  -- consumer, the table has exactly one row more than before the request, every other row is as it was, and
  -- the new one, with the id that the caller got, is COMPLETED after one attempt if the send succeeded, and
  -- if not it has one attempt, and is PENDING with a time for the next, or FAILED if only one was allowed.
  pub enqueue_notification-DeliveryOutcome :
      (w : World)
      → IsUp env
      → env.to_double (initial_delay env svc) ≡ initial_delay env svc
      → initial_delay env svc < 2 ^ 63
      → IsSoundTable w.notifications
      → DeliveryOutcome w
          (enqueue_notification env svc req w).0
          (enqueue_notification env svc req w).1
  enqueue_notification-DeliveryOutcome w up exact fits sound =
      elim (enqueue_notification-EnqueueOutcome env svc req w) [
        | inl (e, eq, quiet, _) ↦ inl (e, eq, quiet)
        | inr (n, id, eq, stored, queued) ↦ inr (
          id,
          eq,
          elim queued [
            | inl (t, k, at, later, quiet) ↦ inl (t, k, at, later, quiet)
            | inr (m, one_new, mail) ↦ inr (
              m,
              one_new,
              consumed-Delivered w (enqueue_notification env svc req w).1 n id m up exact fits
                  ((enqueue_notification-KeepsSound env svc req).at w sound) stored mail,
            )
          ],
        )
      ]
