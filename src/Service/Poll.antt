-- ===== src/Service/Poll.antt =====
-- internal/service/notification.go: `EnqueueDueScheduledNotifications` and `EnqueuePendingRetries`,
-- which the two workers call on every tick.
use dreon_notification.Prelude.{ℕ, Bool, true, false, String, List, [], ◌∷◌, some, if◌then◌else◌}
use dreon_notification.Go.Error.{internal, new, context, plain}
use dreon_notification.Go.Int.{ℤ, is_nonpositive, seconds, add_duration, to_ℕ}
use dreon_notification.Go.Text.{append}
use dreon_notification.Go.Value.{marshal}
use dreon_notification.Model.{Notification}
use dreon_notification.World.{Env}
use dreon_notification.World.Exec.{Exec, pure, ask, ◌>>=◌, ◌>>◌, map_error, attempt}
use dreon_notification.Repository.Notifications.{
  run_in_transaction, find_due_scheduled, lock_pending_retries_due, update_next_retry_at,
}
use dreon_notification.Cache.{AppCache, set_nx}
use dreon_notification.Aggregate.{from_model}
use dreon_notification.Aggregate.Payload.{enqueue_value, retry_value}
use dreon_notification.Service.{NotificationSvc, Publisher, or_default, publish_lease}
use dreon_notification.Service.Send.{or_fail}
use dreon_notification.Service.Queue.{topic_send, topic_retry, publish, payload_for}

-- `CacheKeyScheduledEnqueueDedup`
abbrev pub dedup_prefix : String
dedup_prefix = "scheduled_enqueue:"

-- An error in one round of a loop is logged, and the loop goes on.
abbrev pub logged : Exec (Unit {0}) → Exec (Unit {0})
logged m = do done ← attempt m; pure tt

-- The rows that the caller gets carry the lease as well.
abbrev pub with_lease : ℕ → List Notification → List Notification
with_lease until [] = []
with_lease until (n ∷ rest) = record n { next_retry_at = some until } ∷ with_lease until rest

unfoldable pub for_each : (Notification → Exec (Unit {0})) → List Notification → Exec (Unit {0})
for_each body [] = pure tt
for_each body (n ∷ rest) = do logged (body n); for_each body rest

module _ (env : Env) (svc : NotificationSvc) where
  -- The rest of a round, once `SetNX` has answered.
  unfoldable pub publish_scheduled : Publisher → Notification → Bool → Exec (Unit {0})
  publish_scheduled publisher n false = pure tt
  publish_scheduled publisher n true = do
    document ←
        or_fail (marshal (enqueue_value (payload_for n.id (from_model n))))
          (plain "json: unsupported value")
    publish publisher (record { topic = topic_send; uuid = n.id; payload = some document })

  unfoldable pub enqueue_scheduled : Publisher → AppCache → ℤ → Notification → Exec (Unit {0})
  enqueue_scheduled publisher cache ttl n = do
    first ← set_nx env cache (append dedup_prefix n.id) ttl
    publish_scheduled publisher n first

  unfoldable pub dedup_ttl : ℤ
  dedup_ttl = seconds (to_ℕ (or_default svc.cfg.scheduled_dedup_ttl_sec 86400))

  unfoldable pub enqueue_due_scheduled : ℤ → Exec (Unit {0})
  enqueue_due_scheduled batch = if is_nonpositive batch then pure tt else do
    publisher ← or_fail svc.publisher (new internal "message publisher not configured")
    cache ← or_fail svc.cache (new internal "cache not configured")
    now ← ask env.clock
    rows ← map_error (context "find due scheduled notifications") (find_due_scheduled env batch now)
    for_each (enqueue_scheduled publisher cache dedup_ttl) rows

  -- The loop inside the transaction: an error ends it.
  unfoldable pub extend_leases : ℕ → List Notification → Exec (Unit {0})
  extend_leases until [] = pure tt
  extend_leases until (n ∷ rest) = do update_next_retry_at env n.id until; extend_leases until rest

  -- The body of the transaction.
  unfoldable pub claim : ℤ → ℕ → ℕ → Exec (List Notification)
  claim batch now until = do
    found ← lock_pending_retries_due env batch now
    extend_leases until found
    pure (with_lease until found)

  unfoldable pub publish_retry : Publisher → Notification → Exec (Unit {0})
  publish_retry publisher n = do
    document ← or_fail (marshal (retry_value n.id)) (plain "json: unsupported value")
    publish publisher (record { topic = topic_retry; uuid = n.id; payload = some document })

  unfoldable pub enqueue_pending_retries : ℤ → Exec (Unit {0})
  enqueue_pending_retries batch = if is_nonpositive batch then pure tt else do
    publisher ← or_fail svc.publisher (new internal "message publisher not configured")
    now ← ask env.clock
    rows ←
        map_error (context "claim pending retries for publish")
          (run_in_transaction env (claim batch now (add_duration now (publish_lease svc.cfg))))
    for_each (publish_retry publisher) rows
