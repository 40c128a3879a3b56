-- ===== src/Tests/Push.antt =====
-- The theorems on the FCM client, at a Firebase that reaches every token of a request and refuses the
-- second topic.
use dreon_notification.Prelude.{ℕ, suc, String, List, [], ◌∷◌, none, some, length}
use dreon_notification.Go.Error.{ok, outside}
use dreon_notification.World.{PushMessage}
use dreon_notification.Fcm.{Messaging, send_to_tokens, send_to_topics}
use dreon_notification.Fcm.Batches.{BatchesOutcome, real_tokens, send_to_tokens-BatchesOutcome}
use dreon_notification.Fcm.Topics.{TopicsOutcome, real_topics, send_to_topics-TopicsOutcome}

abbrev message : PushMessage
message = record { title = "Hello"; body = ""; entries = [] }

abbrev names : List String
names = " a" ∷ "  " ∷ "b" ∷ []

abbrev pub firebase : Messaging
firebase = record {
  send_each = λ k r. ok (record { success_count = length r.tokens; failure_count = 0 });
  send = λ k r. elim k [ ℕ.zero ↦ none | suc n ↦ some (outside "unavailable") ];
}

send_to_tokens-BatchesOutcome_example :
    BatchesOutcome firebase message
      (real_tokens names)
      (send_to_tokens firebase names (some message))
send_to_tokens-BatchesOutcome_example = send_to_tokens-BatchesOutcome firebase names message

send_to_topics-TopicsOutcome_example :
    TopicsOutcome firebase message
      (real_topics names)
      (send_to_topics firebase names (some message))
send_to_topics-TopicsOutcome_example = send_to_topics-TopicsOutcome firebase names message
