-- ===== src/Tests/Polling.antt =====
-- The theorems on the two workers, the settings and the cache, at the fixtures.
use dreon_notification.Prelude.{◌≡◌, refl, [], ◌∷◌, ◌++◌, map, ltb→lt, sort_by}
use dreon_notification.Go.Int.{pos, add_duration, seconds}
use dreon_notification.Repository.{db_call, update_where, update_rows}
use dreon_notification.Repository.Notifications.{
  lock_pending_retries_due, update_next_retry_at, run_in_transaction, transaction_body,
  is_due_retry,
}
use dreon_notification.Cache.{AppCache}
use dreon_notification.Service.{publish_lease}
use dreon_notification.Service.Lease.Tick.{Exclusive, enqueue_pending_retries-Exclusive}
use dreon_notification.Service.Poll.{
  enqueue_pending_retries, claim, extend_leases, for_each, publish_retry,
}
use dreon_notification.Service.Queue.{publish}
use dreon_notification.Go.Value.{marshal, marshals}
use dreon_notification.Aggregate.Payload.{retry_value}
use dreon_notification.Service.Published.{retry_message, for_each_up}
use dreon_notification.Tests.{calm_env, service, broker, tried_row, start, start-IsSoundTable}

enqueue_pending_retries-Exclusive_example :
    Exclusive calm_env service start (enqueue_pending_retries calm_env service (pos 10) start).1 []
unfolding enqueue_pending_retries run_in_transaction transaction_body claim lock_pending_retries_due
    extend_leases update_next_retry_at update_where update_rows db_call is_due_retry sort_by
    for_each publish_retry publish add_duration publish_lease seconds marshal marshals retry_value
enqueue_pending_retries-Exclusive_example =
    enqueue_pending_retries-Exclusive calm_env service (pos 10) (pos 10) 7 start []
      start-IsSoundTable (ltb→lt _ _ refl) refl

for_each_up_example :
    (for_each (publish_retry calm_env service broker) (tried_row ∷ []) start).1.published
    ≡ [] ++ map retry_message (tried_row ∷ [])
for_each_up_example = for_each_up calm_env service broker (tried_row ∷ []) start (λ n m. refl)

abbrev keys_of_service : AppCache
keys_of_service = record { service_name = "notification" }
