-- ===== src/Aggregate/PushTopic.antt =====
-- internal/aggregate/pushtopic.go
use dreon_notification.Prelude.{ℕ, Bool, String, Option}
use dreon_notification.Model.{PushTopic}

pub record CreatePushTopicReq : Type 0 where
  pub name : String
  pub description : String
  pub is_active : Option Bool

pub record UpdatePushTopicReq : Type 0 where
  pub name : Option String
  pub description : Option String
  pub is_active : Option Bool

pub record PushTopicAggregate : Type 0 where
  pub id : String
  pub name : String
  pub description : String
  pub is_active : Bool
  pub created_at : ℕ
  pub updated_at : ℕ

-- `FromModel`
abbrev pub topic_view : PushTopic → PushTopicAggregate
topic_view m = record {
  id = m.id;
  name = m.name;
  description = m.description;
  is_active = m.is_active;
  created_at = m.created_at;
  updated_at = m.updated_at;
}
