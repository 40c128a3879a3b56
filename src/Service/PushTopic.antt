-- ===== src/Service/PushTopic.antt =====
-- internal/service/pushtopic.go
pub mod Active
pub mod Renaming
use dreon_notification.Prelude.{
  ℕ, Bool, true, false, ◌&&◌, not, String, ◌==◌, List, map, Option, none, some, if◌then◌else◌,
}
use dreon_notification.Go.Error.{
  Error, internal, bad_request, not_found, conflict, new, wrap, context,
}
use dreon_notification.Go.Text.{trim_space}
use dreon_notification.Model.{PushTopic}
use dreon_notification.World.{World, Env}
use dreon_notification.World.Exec.{Exec, pure, raise, ◌>>=◌, ◌>>◌, guard, map_error}
use dreon_notification.Repository.{create, update, find_all, find_one_by_id}
use dreon_notification.Repository.Schema.{push_topics}
use dreon_notification.Repository.PushTopics.{find_by_name}
use dreon_notification.Aggregate.{zero_base}
use dreon_notification.Aggregate.PushTopic.{
  CreatePushTopicReq, UpdatePushTopicReq, PushTopicAggregate, topic_view,
}
use dreon_notification.Service.Send.{or_fail}
use dreon_notification.Service.Queue.{refuse_invalid}

abbrev pub is_some {ℓ} : {A : Type ℓ} → Option A → Bool
is_some none = false
is_some (some a) = true

abbrev pub or_else {ℓ} : {A : Type ℓ} → Option A → A → A
or_else none a = a
or_else (some b) a = b

-- The row of a new topic: active unless the request says otherwise.
abbrev pub topic_row : CreatePushTopicReq → PushTopic
topic_row req = record {
  base = zero_base;
  name = trim_space req.name;
  description = req.description;
  is_active = or_else req.is_active true;
}

-- Whether the row that has the new name is another one.
abbrev pub is_other : String → Option PushTopic → Bool
is_other id none = false
is_other id (some r) = not (r.id == id)

-- `Select(fields...).Updates(updates)`
abbrev pub assign_topic : Option String → UpdatePushTopicReq → PushTopic → PushTopic
assign_topic name req r = record r {
  name = or_else name r.name;
  description = or_else req.description r.description;
  is_active = or_else req.is_active r.is_active;
}

module _ (env : Env) where
  unfoldable pub all_topics : Exec (List PushTopicAggregate)
  all_topics = do
    rows ← map_error (λ e. wrap internal (context "list push topics" e)) (find_all env push_topics)
    pure (map topic_view rows)

  unfoldable pub create_topic :
      (CreatePushTopicReq → Option Error) → CreatePushTopicReq → Exec PushTopicAggregate
  create_topic validate req = do
    refuse_invalid (validate req)
    guard (trim_space req.name == "") (new bad_request "name is required")
    existing ← find_by_name env (trim_space req.name)
    guard (is_some existing) (new conflict "push topic name already exists")
    created ←
        map_error (λ e. wrap internal (context "create push topic" e))
          (create env push_topics (topic_row req))
    guard (created.id == "") (new internal "push topic created but ID is empty")
    pure (topic_view created)

  -- The name that the update is to set, if any.
  unfoldable pub new_name : String → Option String → Exec (Option String)
  new_name id none = pure none
  new_name id (some raw) = do
    guard (trim_space raw == "") (new bad_request "name cannot be empty")
    other ← find_by_name env (trim_space raw)
    guard (is_other id other) (new conflict "push topic name already exists")
    pure (some (trim_space raw))

  unfoldable pub update_topic :
      (UpdatePushTopicReq → Option Error) → String → UpdatePushTopicReq → Exec (Unit {0})
  update_topic validate id req = do
    guard (trim_space id == "") (new bad_request "id is required")
    refuse_invalid (validate req)
    found ← find_one_by_id env push_topics id
    current ← or_fail found (new not_found "push topic not found")
    name ← new_name id req.name
    guard (not (is_some name) && not (is_some req.description) && not (is_some req.is_active))
        (new bad_request "no fields to update")
    map_error (λ e. wrap internal (context "update push topic" e))
        (update env push_topics id (assign_topic name req))
