-- ===== src/Tests/Presentation.antt =====
-- The theorems on the handlers and workers, at the fixtures.
use dreon_notification.Prelude.{ℕ, ◌≤◌, arith, none, ltb→lt, refl}
use dreon_notification.Go.Error.{Code, ok, bad_request, not_found, conflict, internal}
use dreon_notification.World.{Env}
use dreon_notification.Service.{backoff_params}
use dreon_notification.Presentation.Http.{Errorx, handle_send_notification}
use dreon_notification.Presentation.Http.Contract.{Contract, handle_send_notification-Contract}
use dreon_notification.Service.Queue.{enqueue_notification}
use dreon_notification.Presentation.Events.Delivered.{
  DeliveryOutcome, enqueue_notification-DeliveryOutcome,
}
use dreon_notification.Cache.{AppCache}
use dreon_notification.Tests.{calm_env, service, welcome, start, start-IsSoundTable}

abbrev number : Code → ℕ
number bad_request = 400
number not_found = 404
number conflict = 409
number internal = 500

abbrev errorx : Errorx
errorx = record {
  number = number;
  message = λ e. "";
  default_message = λ c. "";
  get_code = λ e. internal;
}

numbers : (c : Code) → 400 ≤ errorx.number c
numbers bad_request = omega arith
numbers not_found = omega arith
numbers conflict = omega arith
numbers internal = omega arith

handle_send_notification-Contract_example :
    Contract errorx numbers calm_env service
      (ok welcome)
      (λ req. none)
      start
      (handle_send_notification errorx calm_env service (ok welcome) (λ req. none) start).0
      (handle_send_notification errorx calm_env service (ok welcome) (λ req. none) start).1
handle_send_notification-Contract_example =
    handle_send_notification-Contract errorx numbers calm_env service (ok welcome) (λ req. none)
      start

-- A clock that stands still during the run.
abbrev still_env : Env
still_env = record calm_env { clock = λ n. 7 }

enqueue_notification-DeliveryOutcome_example :
    DeliveryOutcome calm_env service welcome start
      (enqueue_notification calm_env service welcome start).0
      (enqueue_notification calm_env service welcome start).1
unfolding backoff_params
enqueue_notification-DeliveryOutcome_example =
    enqueue_notification-DeliveryOutcome calm_env service welcome start (λ n. refl) refl
      (ltb→lt _ _ refl) start-IsSoundTable

abbrev notification_cache : AppCache
notification_cache = record { service_name = "notification" }
