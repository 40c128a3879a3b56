-- ===== src/Repository/PushTopics.antt =====
-- internal/repository/pushtopic.go
use dreon_notification.Prelude.{String, ◌==◌, Option}
use dreon_notification.Model.{PushTopic}
use dreon_notification.World.{Env}
use dreon_notification.World.Exec.{Exec}
use dreon_notification.Repository.{find_one}
use dreon_notification.Repository.Schema.{push_topics}

unfoldable pub find_by_name : Env → String → Exec (Option PushTopic)
find_by_name env name = find_one env push_topics (λ r. r.name == name)
