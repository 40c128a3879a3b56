-- ===== src/Presentation/Worker.antt =====
-- presentation/worker: the two workers, as the ticks of their tickers. A tick whose call fails is logged, and
-- the worker goes on.
pub mod Course
pub mod Scheduled
use dreon_notification.Prelude.{ℕ, zero, suc}
use dreon_notification.Go.Int.{ℤ, seconds, to_ℕ}
use dreon_notification.World.{World, Env}
use dreon_notification.World.Exec.{Exec}
use dreon_notification.Service.{NotificationSvc, or_default}
use dreon_notification.Service.Poll.{logged, enqueue_pending_retries, enqueue_due_scheduled}

module _ (svc : NotificationSvc) where
  -- The intervals, as durations, and the batches.
  unfoldable pub retry_interval : ℤ
  retry_interval = seconds (to_ℕ (or_default svc.cfg.retry_interval_sec 60))

  unfoldable pub scheduled_interval : ℤ
  scheduled_interval = seconds (to_ℕ (or_default svc.cfg.scheduled_poll_interval_sec 60))

  abbrev pub retry_batch : ℤ
  retry_batch = or_default svc.cfg.retry_batch_size 10

  abbrev pub scheduled_batch : ℤ
  scheduled_batch = or_default svc.cfg.scheduled_batch_size 10

-- The loop over the ticks, until the worker is stopped.
unfoldable pub run_ticks : Exec (Unit {0}) → ℕ → World → World
run_ticks body zero w = w
run_ticks body (suc k) w = run_ticks body k (logged body w).1

module _ (env : Env) (svc : NotificationSvc) where
  -- `RunPendingRetryWorker` and `RunScheduledNotificationWorker`
  unfoldable pub run_pending_retry_worker : ℕ → World → World
  run_pending_retry_worker = run_ticks (enqueue_pending_retries env svc (retry_batch svc))

  unfoldable pub run_scheduled_notification_worker : ℕ → World → World
  run_scheduled_notification_worker =
      run_ticks (enqueue_due_scheduled env svc (scheduled_batch svc))
