-- ===== src/Service/Refused.antt =====
-- internal/service: a request that the validator is asked about leaves the tables alone.
use dreon_notification.Prelude.{◌≡◌, refl, Option, none, some}
use dreon_notification.Go.Error.{Error}
use dreon_notification.World.{World}
use dreon_notification.Service.Queue.{refuse_invalid}

pub refuse_quiet : (o : Option Error) (w : World) → (refuse_invalid o w).1.tables ≡ w.tables
refuse_quiet none w = refl
refuse_quiet (some e) w = refl
