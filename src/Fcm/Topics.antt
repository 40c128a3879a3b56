-- ===== src/Fcm/Topics.antt =====
-- pkg/fcm/client.go, `SendToTopics`.
use mathlib.Core.List.{append-nil, append_assoc}
use dreon_notification.Prelude.{
  ℕ, suc, ◌+◌, ◌<◌, ◌≡◌, refl, sym, ap, ◌∙◌, ◌⊎◌, inl, inr, not, String, ◌==◌, List, [], ◌∷◌, ◌++◌,
  map, Option, none, some, arith, Bool-cases, length, select, length-append, ltb, if◌then◌else◌,
}
use dreon_notification.Go.Error.{Error, Result, ok, err, plain}
use dreon_notification.Go.Text.{trim_space}
use dreon_notification.World.{PushMessage}
use dreon_notification.Service.{SendOutcome}
use dreon_notification.Fcm.Batches.{IsVain, validate_message-same, validate_message-IsVain}
use dreon_notification.Fcm.{
  Messaging, TopicMessage, Reply, to_topic_message, non_empty_topics, validate_message,
  send_each_topic, count_answer, send_checked_topics, send_to_topics, topics_reply, nothing_sent,
}

-- The trimmed topics that are not blank.
abbrev pub real_topics : List String → List String
real_topics ts = select (λ t. not (t == "")) (map trim_space ts)

abbrev accepted_one : Option Error → ℕ
accepted_one none = 1
accepted_one (some e) = 0

-- How many of the requests Firebase accepts, the first of them having the number `k`.
abbrev pub accepted : Messaging → ℕ → List TopicMessage → ℕ
accepted c k [] = 0
accepted c k (r ∷ rs) = accepted_one (c.send k r) + accepted c (suc k) rs

-- Nothing is sent, since there is nothing to send or nobody to send it to; or every topic is sent to once, in order, the counts are those of Firebase's answers,
-- and there is an error exactly if none was accepted.
abbrev pub TopicsOutcome : Messaging → PushMessage → List String → Reply TopicMessage → Type 0
TopicsOutcome c m ts r =
    ((e : Error) × (r.failure ≡ some e) × (r.requests ≡ []) × (r.outcome ≡ none) × IsVain m ts)
    ⊎ ((o : SendOutcome) × (r.outcome ≡ some o)
        × (r.requests ≡ map (to_topic_message m) ts)
        × (o.success_count ≡ accepted c 0 r.requests)
        × (o.success_count + o.failure_count ≡ length ts)
        × (((r.failure ≡ none) × (0 < o.success_count))
            ⊎ ((e : Error) × (r.failure ≡ some e) × (o.success_count ≡ 0))))

length-snoc : {A : Type 0} (xs : List A) (x : A) → length (xs ++ x ∷ []) ≡ suc (length xs)
length-snoc xs x = omega (arith, length-append xs (x ∷ []))

count_answer_success :
    (o : SendOutcome) (a : Option Error)
    → (count_answer o a).success_count ≡ o.success_count + accepted_one a
count_answer_success o none = omega arith
count_answer_success o (some e) = omega arith

count_answer_total :
    (o : SendOutcome) (a : Option Error)
    → (count_answer o a).success_count + (count_answer o a).failure_count
      ≡ suc (o.success_count + o.failure_count)
count_answer_total o none = omega arith
count_answer_total o (some e) = omega arith

module _ (c : Messaging) (m : PushMessage) where
  send_each_topic-requests :
      (ts : List String) (o : SendOutcome) (log : List TopicMessage)
      → (send_each_topic c m ts o log).1 ≡ log ++ map (to_topic_message m) ts
  unfolding send_each_topic
  send_each_topic-requests [] o log = sym (append-nil log)
  send_each_topic-requests (t ∷ ts) o log =
      send_each_topic-requests ts _ (log ++ to_topic_message m t ∷ [])
      ∙ append_assoc log (to_topic_message m t ∷ []) (map (to_topic_message m) ts)

  send_each_topic_success :
      (ts : List String) (o : SendOutcome) (log : List TopicMessage) (k : ℕ)
      → length log ≡ k
      → (send_each_topic c m ts o log).0.success_count
        ≡ o.success_count + accepted c k (map (to_topic_message m) ts)
  unfolding send_each_topic
  send_each_topic_success [] o log k h = omega arith
  send_each_topic_success (t ∷ ts) o log k h =
      let message = to_topic_message m t in
      let answer = c.send (length log) message in
      let rest =
        send_each_topic_success ts (count_answer o answer) (log ++ message ∷ []) (suc (length log))
          (length-snoc log message) in
      rw (sym h) (omega (arith, rest, count_answer_success o answer))

  send_each_topic_total :
      (ts : List String) (o : SendOutcome) (log : List TopicMessage)
      → (send_each_topic c m ts o log).0.success_count
          + (send_each_topic c m ts o log).0.failure_count
        ≡ o.success_count + o.failure_count + length ts
  unfolding send_each_topic
  send_each_topic_total [] o log = omega arith
  send_each_topic_total (t ∷ ts) o log =
      let answer = c.send (length log) (to_topic_message m t) in
      omega (
        arith,
        count_answer_total o answer,
        send_each_topic_total ts (count_answer o answer) (log ++ to_topic_message m t ∷ []),
      )

  topics_reply-TopicsOutcome :
      (ts : List String) (o : SendOutcome) (log : List TopicMessage)
      → log ≡ map (to_topic_message m) ts
      → o.success_count ≡ accepted c 0 (map (to_topic_message m) ts)
      → o.success_count + o.failure_count ≡ length ts
      → TopicsOutcome c m ts (topics_reply o log)
  topics_reply-TopicsOutcome ts o log same success total = inr (
    o,
    refl,
    same,
    success ∙ ap (accepted c 0) (sym same),
    total,
    elim (Bool-cases (ltb 0 o.success_count)) [
      | inl e ↦ inl (ground arith, ground arith)
      | inr e ↦ inr (
        _,
        ap (λ b. if b then none else some (plain "fcm: no topics were successfully sent")) e,
        ground arith,
      )
    ],
  )

  send_checked_topics-TopicsOutcome :
      (ts : List String) (r : Result PushMessage)
      → ((m' : PushMessage) → r ≡ ok m' → m' ≡ m)
      → ((e : Error) → r ≡ err e → IsVain m ts)
      → TopicsOutcome c m ts (send_checked_topics c ts r)
  send_checked_topics-TopicsOutcome [] r h v = inl (_, refl, refl, refl, inl refl)
  send_checked_topics-TopicsOutcome (t ∷ ts) (err e) h v = inl (_, refl, refl, refl, v e refl)
  send_checked_topics-TopicsOutcome (t ∷ ts) (ok m') h v = rw (h m' refl) (
      topics_reply-TopicsOutcome (t ∷ ts) _ _ (send_each_topic-requests (t ∷ ts) nothing_sent [])
        (omega (arith, send_each_topic_success (t ∷ ts) nothing_sent [] 0 refl))
        (omega (arith, send_each_topic_total (t ∷ ts) nothing_sent [])))

non_empty_topics_real : (ts : List String) → non_empty_topics ts ≡ real_topics ts
unfolding non_empty_topics
non_empty_topics_real [] = refl
non_empty_topics_real (t ∷ ts) =
    ap (λ rest. if not (trim_space t == "") then trim_space t ∷ rest else rest)
      (non_empty_topics_real ts)

module _ (c : Messaging) (topics : List String) (m : PushMessage) where
  -- `SendToTopics` makes one request for each trimmed topic that is not blank, in order, whatever the
  -- answers; its counts are those of the answers, and it returns an error exactly when Firebase has
  -- accepted none of them. Only if no topic is left, or if the message has no title, no body and no data,
  -- does it make no request and return an error and no counts.
  pub send_to_topics-TopicsOutcome :
      TopicsOutcome c m (real_topics topics) (send_to_topics c topics (some m))
  unfolding send_to_topics
  send_to_topics-TopicsOutcome = rw (sym (non_empty_topics_real topics)) (
      send_checked_topics-TopicsOutcome c m (non_empty_topics topics) (validate_message (some m))
        (validate_message-same m) (λ e h. validate_message-IsVain m _ e h))
