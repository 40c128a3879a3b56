-- ===== src/Fcm.antt =====
-- pkg/fcm/client.go: the FCM client. Firebase's messaging client is a parameter, which answers by the
-- number of the request; the requests are kept in order. Logging is left out.
pub mod Batches
pub mod Counts
pub mod Topics
use dreon_notification.Prelude.{
  ℕ, zero, suc, ◌+◌, Bool, true, false, ◌&&◌, ◌||◌, not, String, ◌==◌, List, [], ◌∷◌, ◌++◌, Option,
  none, some, length, take, drop, is_nil, ltb, if◌then◌else◌,
}
use dreon_notification.Go.Error.{Error, Result, ok, err, plain, context}
use dreon_notification.Go.Text.{trim_space}
use dreon_notification.World.{PushMessage}
use dreon_notification.Service.{SendOutcome, FcmClient}

-- messaging.Notification, messaging.MulticastMessage, messaging.Message and messaging.BatchResponse, as
-- far as the client uses them
pub record Notice : Type 0 where
  pub title : String
  pub body : String

pub record MulticastMessage : Type 0 where
  pub tokens : List String
  pub entries : Option (List (String × String))
  pub notice : Option Notice

pub record TopicMessage : Type 0 where
  pub topic : String
  pub entries : Option (List (String × String))
  pub notice : Option Notice

pub record BatchResponse : Type 0 where
  pub success_count : ℕ
  pub failure_count : ℕ

pub record Messaging : Type 0 where
  pub send_each : ℕ → MulticastMessage → Result BatchResponse
  pub send : ℕ → TopicMessage → Option Error

-- What a method returns, `(*SendOutcome, error)`, and the requests that it has made.
pub record Reply (M : Type 0) : Type 0 where
  pub outcome : Option SendOutcome
  pub failure : Option Error
  pub requests : List M

abbrev pub max_tokens_per_multicast : ℕ
max_tokens_per_multicast = 500

abbrev pub has_notice : PushMessage → Bool
has_notice m = not (m.title == "") || not (m.body == "")

-- `validatePushMessage`
unfoldable pub validate_message : Option PushMessage → Result PushMessage
validate_message none = err (plain "fcm: message is nil")
validate_message (some m) =
    if not (has_notice m) && is_nil m.entries
    then err (context "fcm" (plain "message must include title/body and/or data payload"))
    else ok m

-- The clone of the data, or nil where there is none.
unfoldable pub entries_of : PushMessage → Option (List (String × String))
entries_of m = if is_nil m.entries then none else some m.entries

unfoldable pub notice_of : PushMessage → Option Notice
notice_of m = if has_notice m then some (record { title = m.title; body = m.body }) else none

-- `toMulticastMessage` and `toTopicMessage`
unfoldable pub to_multicast : PushMessage → List String → MulticastMessage
to_multicast m tokens = record { tokens = tokens; entries = entries_of m; notice = notice_of m }

unfoldable pub to_topic_message : PushMessage → String → TopicMessage
to_topic_message m topic = record { topic = topic; entries = entries_of m; notice = notice_of m }

-- `filterNonEmptyTokens` and `filterNonEmptyTopics`
unfoldable pub non_empty_tokens : List String → List String
non_empty_tokens [] = []
non_empty_tokens (t ∷ ts) =
    let rest = non_empty_tokens ts in if not (trim_space t == "") then trim_space t ∷ rest else rest

unfoldable pub non_empty_topics : List String → List String
non_empty_topics [] = []
non_empty_topics (t ∷ ts) =
    let rest = non_empty_topics ts in if not (trim_space t == "") then trim_space t ∷ rest else rest

abbrev pub nothing_sent : SendOutcome
nothing_sent = record { success_count = 0; failure_count = 0 }

abbrev pub refused : {M : Type 0} → Error → Reply M
refused e = record { outcome = none; failure = some e; requests = [] }

abbrev pub add_counts : SendOutcome → BatchResponse → SendOutcome
add_counts o b = record {
  success_count = o.success_count + b.success_count;
  failure_count = o.failure_count + b.failure_count;
}

-- An error ends the loop, with the counts of the batches before it.
abbrev pub after_batch :
    SendOutcome
    → List MulticastMessage
    → (SendOutcome → Reply MulticastMessage)
    → Result BatchResponse
    → Reply MulticastMessage
after_batch o log next (ok b) = next (add_counts o b)
after_batch o log next (err e) = record {
  outcome = some o;
  failure = some (context "fcm: send multicast" e);
  requests = log;
}

abbrev pub count_answer : SendOutcome → Option Error → SendOutcome
count_answer o none = record o { success_count = suc o.success_count }
count_answer o (some e) = record o { failure_count = suc o.failure_count }

module _ (c : Messaging) (m : PushMessage) where
  -- The loop over the tokens that are left, at most 500 in a batch. Each turn takes at least one of them,
  -- so their number is enough fuel.
  unfoldable pub send_batches :
      ℕ → List String → SendOutcome → List MulticastMessage → Reply MulticastMessage
  send_batches zero ts o log = record { outcome = some o; failure = none; requests = log }
  send_batches (suc n) [] o log = record { outcome = some o; failure = none; requests = log }
  send_batches (suc n) (t ∷ ts) o log =
      let request = to_multicast m (take max_tokens_per_multicast (t ∷ ts)) in
      after_batch o (log ++ request ∷ [])
        (λ o'. send_batches n (drop max_tokens_per_multicast (t ∷ ts)) o' (log ++ request ∷ []))
        (c.send_each (length log) request)

  -- The loop over the topics: an error is counted, and the loop goes on.
  unfoldable pub send_each_topic :
      List String → SendOutcome → List TopicMessage → SendOutcome × List TopicMessage
  send_each_topic [] o log = (o, log)
  send_each_topic (t ∷ ts) o log =
      send_each_topic ts (count_answer o (c.send (length log) (to_topic_message m t)))
        (log ++ to_topic_message m t ∷ [])

abbrev pub topics_reply : SendOutcome → List TopicMessage → Reply TopicMessage
topics_reply o log = record {
  outcome = some o;
  failure =
      if ltb 0 o.success_count then none else some (plain "fcm: no topics were successfully sent");
  requests = log;
}

module _ (c : Messaging) where
  abbrev pub send_checked_tokens : List String → Result PushMessage → Reply MulticastMessage
  send_checked_tokens [] r = refused (context "fcm" (plain "no FCM registration tokens"))
  send_checked_tokens (t ∷ ts) (err e) = refused e
  send_checked_tokens (t ∷ ts) (ok m) = send_batches c m (length (t ∷ ts)) (t ∷ ts) nothing_sent []

  -- `SendToTokens`
  unfoldable pub send_to_tokens : List String → Option PushMessage → Reply MulticastMessage
  send_to_tokens tokens message =
      send_checked_tokens (non_empty_tokens tokens) (validate_message message)

  abbrev pub send_checked_topics : List String → Result PushMessage → Reply TopicMessage
  send_checked_topics [] r = refused (context "fcm" (plain "no FCM topic names"))
  send_checked_topics (t ∷ ts) (err e) = refused e
  send_checked_topics (t ∷ ts) (ok m) =
      let (o, log) = send_each_topic c m (t ∷ ts) nothing_sent [] in topics_reply o log

  -- `SendToTopics`
  unfoldable pub send_to_topics : List String → Option PushMessage → Reply TopicMessage
  send_to_topics topics message =
      send_checked_topics (non_empty_topics topics) (validate_message message)

-- The two results of a method, for a caller that looks at the error first. No method returns neither.
abbrev pub answer : Option Error → Option SendOutcome → Result SendOutcome
answer (some e) o = err e
answer none (some o) = ok o
answer none none = ok nothing_sent

-- `firebaseClient`, whose Firebase answers by the number of the call
unfoldable pub firebase_client : (ℕ → Messaging) → FcmClient
firebase_client c = record {
  send_to_tokens = λ n ts m. let r = send_to_tokens (c n) ts (some m) in answer r.failure r.outcome;
  send_to_topics = λ n ts m. let r = send_to_topics (c n) ts (some m) in answer r.failure r.outcome;
}
