-- ===== src/Presentation/Http/Contract.antt =====
-- presentation/http/handler/notification.go, with base.go and the service behind it: what a response to
-- POST /api/v1/notifications means.
use dreon_notification.Prelude.{
  ℕ, ◌≤◌, ◌≡◌, refl, ap, ◌⊎◌, inl, inr, String, Option, none, some, arith, List, Option-cases,
}
use dreon_notification.Go.Error.{Error, FieldError, Code, Result, ok, err}
use dreon_notification.World.{World, Env}
use dreon_notification.World.Frame.{Result-cases}
use dreon_notification.Aggregate.{SendNotificationReq}
use dreon_notification.Service.{NotificationSvc}
use dreon_notification.Service.Queue.{enqueue_notification}
use dreon_notification.Service.Enqueue.{
  Stored, Queued, EnqueueOutcome, enqueue_notification-EnqueueOutcome,
}
use dreon_notification.Presentation.Http.{
  Errorx, Response, notification_id, handle_error, handle_success, error_response, other_response,
  app_response, as_validation, as_app, respond, handle_send_notification,
}

module _ (x : Errorx) (numbers : (c : Code) → 400 ≤ x.number c) where
  app_response_status :
      (c : Code) (e : Error) (o : Option (List FieldError)) → 400 ≤ (app_response x c e o).status
  app_response_status c e none = ground (arith, numbers c)
  app_response_status c e (some fs) = omega arith

  other_response_status : (o : Option (Code × Error)) → 400 ≤ (other_response x o).status
  other_response_status none = omega arith
  other_response_status (some (c, e)) = app_response_status c e (as_validation e)

  error_response_status :
      (e : Error) (o : Option (List FieldError)) → 400 ≤ (error_response x e o).status
  error_response_status e none = other_response_status (as_app e)
  error_response_status e (some fs) = omega arith

  handle_error_status : (e : Error) → 400 ≤ (handle_error x e).status
  unfolding handle_error
  handle_error_status e = error_response_status e (as_validation e)

  module _ (env : Env) (svc : NotificationSvc) (bound : Result SendNotificationReq)
      (refusal : SendNotificationReq → Option Error) where
    -- The body is no request, or the validator refuses it.
    abbrev pub IsRefused : Error → Type 0
    IsRefused e =
        (bound ≡ err e) ⊎ ((req : SendNotificationReq) × (bound ≡ ok req) × (refusal req ≡ some e))

    abbrev pub Rejected : World → Response → World → Type 0
    Rejected w r v = (e : Error) × IsRefused e × (r ≡ handle_error x e) × (400 ≤ r.status) × (v ≡ w)

    abbrev pub Served : SendNotificationReq → World → Response → World → Type 0
    Served req w r v =
        ((n : ℕ) × (id : String) × (r ≡ handle_success x (notification_id id))
          × Stored env svc req n id w v
          × Queued env svc req id w v)
        ⊎ ((400 ≤ r.status)
            × (v.published ≡ w.published)
            × ((v.tables ≡ w.tables) ⊎ ((n : ℕ) × (id : String) × Stored env svc req n id w v)))

    abbrev pub Contract : World → Response → World → Type 0
    Contract w r v =
        Rejected w r v
        ⊎ ((req : SendNotificationReq) × (bound ≡ ok req) × (refusal req ≡ none) × Served req w r v)

    served :
        (req : SendNotificationReq) (w : World) (r : Result String) (v : World)
        → EnqueueOutcome env svc req w (r, v)
        → Served req w (respond x notification_id r) v
    served req w r v (inl (e, eq, quiet, kept)) = inr (rw eq (handle_error_status e), quiet, kept)
    served req w r v (inr (n, id, eq, stored, queued)) =
        inl (n, id, ap (respond x notification_id) eq, stored, queued)

    -- If the numbers of `errorx` are at least 400: a request whose body is no request, or is refused by the
    -- validator, changes nothing and gets the response of `HandleError`, with a status from 400. Any
    -- other is answered either by 200 and an id: its row is stored under the id, and it is for a later
    -- time or its message is on the queue; or by a status from 400, and no message is on the queue, though
    -- the row may be stored.
    pub handle_send_notification-Contract :
        (w : World)
        → Contract w
            (handle_send_notification x env svc bound refusal w).0
            (handle_send_notification x env svc bound refusal w).1
    unfolding handle_send_notification
    handle_send_notification-Contract w = elim (Result-cases bound) [
      | inl (e, bad) ↦ rw bad (inl (e, inl refl, refl, handle_error_status e, refl))
      | inr (req, good) ↦ elim (Option-cases (refusal req)) [
        | inl fine ↦
            rw (good, fine)
              (inr (
                req,
                refl,
                fine,
                served req w (enqueue_notification env svc req w).0
                    (enqueue_notification env svc req w).1
                    (enqueue_notification-EnqueueOutcome env svc req w),
              ))
        | inr (e, refused) ↦
            rw (good, refused)
              (inl (e, inr (req, refl, refused), refl, handle_error_status e, refl))
      ]
    ]
