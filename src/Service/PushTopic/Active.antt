-- ===== src/Service/PushTopic/Active.antt =====
-- internal/service/pushtopic.go, `Create`, with the column's `default:true` in
-- internal/model/pushtopic.go.
use mathlib.Core.Path.{subst}
use dreon_notification.Prelude.{◌≡◌, refl, sym, ◌∙◌, inl, inr, true, ◌==◌, Option}
use dreon_notification.Go.Error.{Error, ok}
use dreon_notification.Model.{PushTopic}
use dreon_notification.World.{World, Env}
use dreon_notification.World.Exec.{◌>>=◌, ◌>>◌, map_error, pure, guard}
use dreon_notification.World.Frame.{ok-injective}
use dreon_notification.World.Ensures.{
  Ensures, Ensures-then, Ensures-with, Ensures-map_error, Ensures-pure,
}
use dreon_notification.Repository.{create}
use dreon_notification.Repository.Schema.{push_topics}
use dreon_notification.Repository.Create.{create-CreateOutcome}
use dreon_notification.Aggregate.PushTopic.{CreatePushTopicReq, PushTopicAggregate, topic_view}
use dreon_notification.Service.PushTopic.{create_topic, topic_row}

created_active :
    (env : Env) (r created : PushTopic) (w : World)
    → (create env push_topics r w).0 ≡ ok created
    → created.is_active ≡ true
created_active env r created w h = elim (create-CreateOutcome env push_topics r w) [
  | inl (e, eq, calm) ↦ cc
  | inr (n, id, eq, free, grown) ↦ subst (λ t. t.is_active ≡ true) (ok-injective (sym eq ∙ h)) refl
]

module _ (env : Env) (validate : CreatePushTopicReq → Option Error) (req : CreatePushTopicReq) where
  stored_active : Ensures (λ r. r.is_active ≡ true) (create env push_topics (topic_row req))
  stored_active = record { at = λ w r h. created_active env (topic_row req) r w h }

  last_step :
      (f : Error → Error) (blank : Error)
      → Ensures
          (λ a. a.is_active ≡ true)
          (map_error f (create env push_topics (topic_row req)) >>= λ created.
            guard (created.id == "") blank >> pure (topic_view created))
  last_step f blank =
      Ensures-with {Q = λ r. r.is_active ≡ true}
        (Ensures-map_error f (create env push_topics (topic_row req)) stored_active)
        (λ created active.
          Ensures-then (guard (created.id == "") blank)
            (λ _. Ensures-pure (topic_view created) active))

  create_topic-Ensures : Ensures (λ a. a.is_active ≡ true) (create_topic env validate req)
  unfolding create_topic
  create_topic-Ensures = search (Ensures-then, last_step) depth 14

  -- Every topic that is created is active, also where the request asks for an inactive one.
  pub create_topic_active :
      (w : World) (a : PushTopicAggregate)
      → (create_topic env validate req w).0 ≡ ok a
      → a.is_active ≡ true
  create_topic_active w a h = create_topic-Ensures.at w a h
