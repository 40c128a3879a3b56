-- ===== src/Presentation/Worker/Scheduled.antt =====
-- presentation/worker/scheduled.go, with the deduplication keys of the service: what the scheduled worker
-- publishes while its keys live.
use dreon_notification.Prelude.{◌≡◌, List, ◌++◌, All, IsDistinct}
use dreon_notification.World.{World, Env, Message}
use dreon_notification.Service.{NotificationSvc}
use dreon_notification.Service.Scheduled.{uuids, IsForDue}

module _ (env : Env) (svc : NotificationSvc) where
  -- Messages for rows that are due, no two for the same id.
  abbrev pub ScheduledOutcome : World → World → Type 0
  ScheduledOutcome w v =
      (v.tables ≡ w.tables)
      × ((new : List Message) × (v.published ≡ w.published ++ new)
          × All (IsForDue w.tables) new
          × IsDistinct (uuids new))
