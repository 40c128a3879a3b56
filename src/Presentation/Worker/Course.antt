-- ===== src/Presentation/Worker/Course.antt =====
-- presentation/worker/retry.go, with the leases of the service: what the retry worker publishes while a
-- lease lasts.
use dreon_notification.Prelude.{ℕ, ◌<◌, ◌≡◌, true, String, List, [], ◌∷◌, ◌++◌, All, contains}
use dreon_notification.Go.Int.{ℤ, add_duration}
use dreon_notification.Model.{Notification}
use dreon_notification.World.{World, Env, Message}
use dreon_notification.Repository.Sound.{ids}
use dreon_notification.Service.{NotificationSvc, publish_lease}
use dreon_notification.Service.Lease.{NotDue}
use dreon_notification.Service.Lease.Exclusive.{NoneOf}
use dreon_notification.Service.Published.{MessagesOf}

-- The claims of the ticks, each of rows that no earlier one has taken.
abbrev pub Apart : List (List Notification) → Type 0
Apart [] = Unit
Apart (found ∷ later) = All (NoneOf (ids found)) later × Apart later

abbrev pub concat : List (List Notification) → List Notification
concat [] = []
concat (rs ∷ rest) = rs ++ concat rest

module _ (env : Env) (svc : NotificationSvc) (batch : ℤ)
    (early : (m n : ℕ) → env.clock n < add_duration (env.clock m) (publish_lease svc.cfg)) where
  -- No row with one of the ids is due at any reading of the clock.
  abbrev Held : List String → World → Type 0
  Held xs w =
      (n : ℕ) (j : String) → contains j xs ≡ true → NotDue env j (env.clock n) w.notifications

  record Course (xs : List String) (w v : World) : Type 0 where
    claims : List (List Notification)
    new : List Message
    grown : v.published ≡ w.published ++ new
    messages : MessagesOf (concat claims) new
    apart : Apart claims
    fresh : All (NoneOf xs) claims

module _ (env : Env) (svc : NotificationSvc) where
  -- Messages for rows that the ticks have claimed, of which no tick claims one that another has.
  abbrev pub CourseOutcome : World → World → Type 0
  CourseOutcome w v =
      (claims : List (List Notification)) × (new : List Message) × (v.published
        ≡ w.published ++ new)
      × MessagesOf (concat claims) new
      × Apart claims
