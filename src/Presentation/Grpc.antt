-- ===== src/Presentation/Grpc.antt =====
-- presentation/grpc/server.go: `SendNotification` and the codes of its errors.
use dreon_notification.Prelude.{ℕ, String, List, Option}
use dreon_notification.Go.Error.{
  Error, Result, ok, err, Code, bad_request, not_found, conflict, internal,
}
use dreon_notification.Go.Value.{Fields}
use dreon_notification.World.{World, Env}
use dreon_notification.Aggregate.{SendNotificationReq}
use dreon_notification.Service.{NotificationSvc}
use dreon_notification.Service.Queue.{enqueue_notification}
use dreon_notification.Presentation.Http.{Errorx}

-- The fields of the generated `SendNotificationRequest` that the server reads.
pub record SendNotificationRequest : Type 0 where
  pub idempotency_key : String
  pub source : String
  pub channel : String
  pub kind : String
  pub title : String
  pub message : String
  pub recipients : List String
  pub params : Option Fields
  pub scheduled_at : Option ℕ
  pub expired_at : Option ℕ

unfoldable pub to_req : SendNotificationRequest → SendNotificationReq
to_req m = record {
  idempotency_key = m.idempotency_key;
  source = m.source;
  channel = m.channel;
  kind = m.kind;
  title = m.title;
  message = m.message;
  recipients = m.recipients;
  params = m.params;
  scheduled_at = m.scheduled_at;
  expired_at = m.expired_at;
  notification_id = "";
}

-- The codes of gRPC that the server answers with.
pub data Status : Type 0 where
  invalid_argument internal_error : Status

pub data Answer : Type 0 where
  response : String → Answer
  failed : Status → Error → Answer

abbrev pub status_of : Code → Status
status_of bad_request = invalid_argument
status_of not_found = internal_error
status_of conflict = internal_error
status_of internal = internal_error

module _ (x : Errorx) where
  -- `errToStatus`, of an error that is not nil
  unfoldable pub err_to_status : Error → Answer
  err_to_status e = failed (status_of (x.get_code e)) e

  abbrev pub answer_of : Result String → Answer
  answer_of (ok id) = response id
  answer_of (err e) = err_to_status e

  -- `NotiInternalServer.SendNotification`
  unfoldable pub send_notification :
      Env → NotificationSvc → SendNotificationRequest → World → Answer × World
  send_notification env svc m w =
      let (r, v) = enqueue_notification env svc (to_req m) w in (answer_of r, v)
