-- ===== src/Tests/Users.antt =====
-- The theorems on mailboxes, device tokens and push topics, at the fixtures.
use dreon_notification.Prelude.{
  ◌≡◌, refl, [], ◌∷◌, Option, none, some, false, true, sort_desc, sort_by,
}
use dreon_notification.Go.Int.{pos}
use dreon_notification.Go.Text.{trim_space}
use dreon_notification.Repository.{db_call, create, before_create, insert_row, find_one}
use dreon_notification.Repository.Mailboxes.{list_by_created_by}
use dreon_notification.Repository.PushTopics.{find_by_name}
use dreon_notification.Aggregate.Mailbox.{mailbox_view}
use dreon_notification.Aggregate.PushTopic.{
  CreatePushTopicReq, UpdatePushTopicReq, PushTopicAggregate,
}
use dreon_notification.Aggregate.{zero_base}
use dreon_notification.Service.Mailbox.{mark_as_read, list_for_user}
use dreon_notification.Service.Mailbox.Access.{MarkOutcome, mark_as_read-MarkOutcome}
use dreon_notification.Service.Mailbox.Listing.{IsListing, list_for_user-IsListing}
use dreon_notification.Go.Error.{Error}
use dreon_notification.Go.Value.{end}
use dreon_notification.World.{World}
use dreon_notification.Aggregate.FcmToken.{RegisterUserFcmTokenReq}
use dreon_notification.Service.FcmToken.{delete_for_user, register}
use dreon_notification.Service.FcmToken.Registration.{RegisterOutcome, register-RegisterOutcome}
use dreon_notification.Service.FcmToken.Spent.{FailsFrom, register-FailsFrom}
use dreon_notification.Service.FcmToken.Removal.{RemovalOutcome, delete_for_user-RemovalOutcome}
use dreon_notification.Service.PushTopic.{create_topic, update_topic}
use dreon_notification.Service.PushTopic.Renaming.{RenamingOutcome, update_topic-RenamingOutcome}
use dreon_notification.Service.PushTopic.Active.{create_topic_active}
use dreon_notification.Tests.{calm_env, start, unread, phone}

mark_as_read-MarkOutcome_example :
    MarkOutcome calm_env "mail" "user" start
      (mark_as_read calm_env "mail" "user" start).0
      (mark_as_read calm_env "mail" "user" start).1
mark_as_read-MarkOutcome_example = mark_as_read-MarkOutcome calm_env "mail" "user" start

list_for_user-IsListing_example : IsListing calm_env "user" (pos 5) (mailbox_view unread ∷ [])
unfolding list_for_user list_by_created_by db_call sort_desc sort_by
list_for_user-IsListing_example =
    list_for_user-IsListing calm_env "user" (pos 5) start (mailbox_view unread ∷ []) refl

delete_for_user-RemovalOutcome_example :
    RemovalOutcome calm_env "phone" "user" start
      (delete_for_user calm_env "phone" "user" start).0
      (delete_for_user calm_env "phone" "user" start).1
delete_for_user-RemovalOutcome_example =
    delete_for_user-RemovalOutcome calm_env "phone" "user" start

abbrev quiet_topic : CreatePushTopicReq
quiet_topic = record { name = "news"; description = ""; is_active = some false }

abbrev created : PushTopicAggregate
created = record {
  id = "new";
  name = "news";
  description = "";
  is_active = true;
  created_at = 2;
  updated_at = 2;
}

create_topic_active_example : created.is_active ≡ true
unfolding create_topic create before_create insert_row db_call find_by_name find_one trim_space
create_topic_active_example =
    create_topic_active calm_env (λ req. none) quiet_topic start created refl

-- The phone of `start`, registered by another user.
abbrev handed_on : RegisterUserFcmTokenReq
handed_on = record { user_id = "other"; token = " token "; platform = "IOS"; device_metadata = end }

abbrev handed_on_is_valid : RegisterUserFcmTokenReq → Option Error
handed_on_is_valid req = none

register-RegisterOutcome_example :
    RegisterOutcome calm_env handed_on
      (register calm_env handed_on_is_valid handed_on start).0
      (register calm_env handed_on_is_valid handed_on start).1
register-RegisterOutcome_example =
    register-RegisterOutcome calm_env handed_on handed_on_is_valid start (refl, tt)

abbrev deleted : World
deleted = record start {
  tables = record start.tables {
    fcm_tokens = record phone { base = record phone.base { deleted_at = some 5 } } ∷ [];
  };
}

register-FailsFrom_example :
    FailsFrom calm_env handed_on deleted
      (register calm_env handed_on_is_valid handed_on deleted).0
      (register calm_env handed_on_is_valid handed_on deleted).1
unfolding trim_space
register-FailsFrom_example =
    register-FailsFrom calm_env handed_on handed_on_is_valid deleted (refl, refl)

abbrev news : World
news = record start {
  tables = record start.tables {
    push_topics =
        record {
          base = record zero_base { id = "topic" };
          name = "news";
          description = "all";
          is_active = true;
        }
        ∷ [];
  };
}

abbrev rename : UpdatePushTopicReq
rename = record { name = some " daily "; description = none; is_active = some false }

update_topic-RenamingOutcome_example :
    RenamingOutcome calm_env "topic" rename news
      (update_topic calm_env (λ req. none) "topic" rename news).0
      (update_topic calm_env (λ req. none) "topic" rename news).1
update_topic-RenamingOutcome_example =
    update_topic-RenamingOutcome calm_env "topic" rename (λ req. none) news
