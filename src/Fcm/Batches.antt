-- ===== src/Fcm/Batches.antt =====
-- pkg/fcm/client.go, `SendToTokens`.
use mathlib.Core.List.{append-nil, append_assoc}
use dreon_notification.Prelude.{
  ℕ, zero, suc, ◌+◌, ◌≤◌, ◌<◌, ◌≡◌, refl, sym, ap, ◌∙◌, ◌⊎◌, inl, inr, not, eq_iff, empty_of_is_nil,
  String, ◌==◌, List, [], ◌∷◌, ◌++◌, map, none, some, arith, All, All-append, length, take, drop,
  select, take-append-drop, if◌then◌else◌,
}
use dreon_notification.Go.Error.{Error, Result, ok, err}
use dreon_notification.Go.Text.{trim_space}
use dreon_notification.World.{PushMessage}
use dreon_notification.Service.{SendOutcome}
use dreon_notification.Fcm.{
  Messaging, MulticastMessage, BatchResponse, Reply, after_batch, to_multicast, non_empty_tokens,
  validate_message, send_batches, send_checked_tokens, send_to_tokens, add_counts, nothing_sent,
}

-- The tokens of the requests, in order.
abbrev pub sent : List MulticastMessage → List String
sent [] = []
sent (r ∷ rs) = r.tokens ++ sent rs

-- The trimmed tokens that are not blank.
abbrev pub real_tokens : List String → List String
real_tokens ts = select (λ t. not (t == "")) (map trim_space ts)

-- A request with the message's content, for at least one token and at most 500.
abbrev pub IsBatch : PushMessage → MulticastMessage → Type 0
IsBatch m r = (r ≡ to_multicast m r.tokens) × (0 < length r.tokens) × (length r.tokens ≤ 500)

-- There is nothing to send, or nobody to send it to.
abbrev pub IsVain : PushMessage → List String → Type 0
IsVain m ts = (ts ≡ []) ⊎ ((m.title ≡ "") × (m.body ≡ "") × (m.entries ≡ []))

-- Firebase has answered the last of the requests with an error.
abbrev pub LastFailed : Messaging → List MulticastMessage → Type 0
LastFailed c rs =
    (before : List MulticastMessage) × (last : MulticastMessage) × (e : Error) × (rs
      ≡ before ++ last ∷ [])
    × (c.send_each (length before) last ≡ err e)

-- Every request is a batch; together they have all the tokens in order, or, after an error, the first
-- of them.
abbrev pub BatchesOutcome : Messaging → PushMessage → List String → Reply MulticastMessage → Type 0
BatchesOutcome c m ts r =
    All (IsBatch m) r.requests
    × (((r.failure ≡ none) × (sent r.requests ≡ ts))
        ⊎ ((e : Error) × (unsent : List String) × (r.failure ≡ some e)
            × (sent r.requests ++ unsent ≡ ts)
            × ((IsVain m ts × (r.requests ≡ [])) ⊎ LastFailed c r.requests)))

sent-append :
    (log : List MulticastMessage) (r : MulticastMessage)
    → sent (log ++ r ∷ []) ≡ sent log ++ r.tokens
sent-append [] r = append-nil r.tokens
sent-append (l ∷ log) r =
    ap (◌++◌ l.tokens) (sent-append log r) ∙ sym (append_assoc l.tokens (sent log) r.tokens)

-- One batch more, and the tokens behind it.
sent-batch :
    (log : List MulticastMessage) (r : MulticastMessage) (ts all : List String)
    → r.tokens ≡ take 500 ts
    → sent log ++ ts ≡ all
    → sent (log ++ r ∷ []) ++ drop 500 ts ≡ all
sent-batch log r ts all same h =
    ap (λ s. s ++ drop 500 ts) (sent-append log r)
    ∙ append_assoc (sent log) r.tokens (drop 500 ts)
    ∙ ap (λ s. sent log ++ (s ++ drop 500 ts)) same
    ∙ ap (λ s. sent log ++ s) (take-append-drop 500 ts)
    ∙ h

pub length-drop_le : {A : Type 0} (n : ℕ) (xs : List A) → length (drop n xs) ≤ length xs
length-drop_le zero xs = omega arith
length-drop_le (suc n) [] = omega arith
length-drop_le (suc n) (x ∷ xs) = omega (arith, length-drop_le n xs)

pub length-take-drop :
    {A : Type 0} (n : ℕ) (xs : List A) → length (take n xs) + length (drop n xs) ≡ length xs
length-take-drop zero xs = omega arith
length-take-drop (suc n) [] = omega arith
length-take-drop (suc n) (x ∷ xs) = omega (arith, length-take-drop n xs)

length-take_le : {A : Type 0} (n : ℕ) (xs : List A) → length (take n xs) ≤ n
length-take_le zero xs = omega arith
length-take_le (suc n) [] = omega arith
length-take_le (suc n) (x ∷ xs) = omega (arith, length-take_le n xs)

pub validate_message-same : (m m' : PushMessage) → validate_message (some m) ≡ ok m' → m' ≡ m
unfolding validate_message
validate_message-same m m' h = ground arith

pub validate_message-IsVain :
    (m : PushMessage) (ts : List String) (e : Error)
    → validate_message (some m) ≡ err e
    → IsVain m ts
unfolding validate_message
validate_message-IsVain m ts e h = inr (
  ground (arith, eq_iff m.title ""),
  ground (arith, eq_iff m.body ""),
  empty_of_is_nil m.entries (ground arith),
)

module _ (c : Messaging) (m : PushMessage) where
  to_multicast-IsBatch :
      (t : String) (ts : List String) → IsBatch m (to_multicast m (take 500 (t ∷ ts)))
  unfolding to_multicast
  to_multicast-IsBatch t ts = (refl, omega arith, length-take_le 500 (t ∷ ts))

  after_batch-BatchesOutcome :
      (o : SendOutcome) (log : List MulticastMessage) (all rest : List String)
      (next : SendOutcome → Reply MulticastMessage) (r : Result BatchResponse)
      → All (IsBatch m) log
      → sent log ++ rest ≡ all
      → ((e : Error) → r ≡ err e → LastFailed c log)
      → ((o' : SendOutcome) → BatchesOutcome c m all (next o'))
      → BatchesOutcome c m all (after_batch o log next r)
  after_batch-BatchesOutcome o log all rest next (ok b) batches h f k = k (add_counts o b)
  after_batch-BatchesOutcome o log all rest next (err e) batches h f k =
      (batches, inr (_, rest, refl, h, inr (f e refl)))

  send_batches-BatchesOutcome :
      (n : ℕ) (ts : List String) (o : SendOutcome) (log : List MulticastMessage) (all : List String)
      → length ts ≤ n
      → All (IsBatch m) log
      → sent log ++ ts ≡ all
      → BatchesOutcome c m all (send_batches c m n ts o log)
  unfolding send_batches to_multicast
  send_batches-BatchesOutcome zero [] o log all fuel ok_log h =
      (ok_log, inl (refl, sym (append-nil (sent log)) ∙ h))
  send_batches-BatchesOutcome zero (t ∷ ts) o log all fuel ok_log h = absurd (omega arith)
  send_batches-BatchesOutcome (suc n) [] o log all fuel ok_log h =
      (ok_log, inl (refl, sym (append-nil (sent log)) ∙ h))
  send_batches-BatchesOutcome (suc n) (t ∷ ts) o log all fuel ok_log h =
      let request = to_multicast m (take 500 (t ∷ ts)) in
      let longer = sent-batch log request (t ∷ ts) all refl h in
      let batches =
        All-append (IsBatch m) log (request ∷ []) ok_log (to_multicast-IsBatch t ts, tt) in
      after_batch-BatchesOutcome o (log ++ request ∷ []) all (drop 500 (t ∷ ts))
        (λ o'. send_batches c m n (drop 500 (t ∷ ts)) o' (log ++ request ∷ []))
        (c.send_each (length log) request) batches longer
        (λ e failed. (log, request, e, refl, failed))
        (λ o'.
          send_batches-BatchesOutcome n (drop 500 (t ∷ ts)) o' (log ++ request ∷ []) all
            (omega (arith, length-drop_le 499 ts)) batches longer)

  -- The number of tokens is the fuel, and nothing has been sent before.
  send_checked_tokens-BatchesOutcome :
      (ts : List String) (r : Result PushMessage)
      → ((m' : PushMessage) → r ≡ ok m' → m' ≡ m)
      → ((e : Error) → r ≡ err e → IsVain m ts)
      → BatchesOutcome c m ts (send_checked_tokens c ts r)
  send_checked_tokens-BatchesOutcome [] r h v = (tt, inr (_, [], refl, refl, inl (inl refl, refl)))
  send_checked_tokens-BatchesOutcome (t ∷ ts) (err e) h v =
      (tt, inr (_, t ∷ ts, refl, refl, inl (v e refl, refl)))
  send_checked_tokens-BatchesOutcome (t ∷ ts) (ok m') h v = rw (h m' refl) (
      send_batches-BatchesOutcome (length (t ∷ ts)) (t ∷ ts) nothing_sent [] (t ∷ ts) (omega arith)
        tt refl)

pub non_empty_tokens_real : (ts : List String) → non_empty_tokens ts ≡ real_tokens ts
unfolding non_empty_tokens
non_empty_tokens_real [] = refl
non_empty_tokens_real (t ∷ ts) =
    ap (λ rest. if not (trim_space t == "") then trim_space t ∷ rest else rest)
      (non_empty_tokens_real ts)

module _ (c : Messaging) (tokens : List String) (m : PushMessage) where
  -- `SendToTokens` divides the trimmed tokens that are not blank into requests of at least one token and
  -- at most 500, each with the message's content. Without an error these requests have all those tokens,
  -- each in its place; with one they have the first of them, and the rest is not sent. There is an error
  -- only if Firebase has answered the last request with one, or if nothing is sent because no token is
  -- left or the message has no title, no body and no data.
  pub send_to_tokens-BatchesOutcome :
      BatchesOutcome c m (real_tokens tokens) (send_to_tokens c tokens (some m))
  unfolding send_to_tokens
  send_to_tokens-BatchesOutcome = rw (sym (non_empty_tokens_real tokens)) (
      send_checked_tokens-BatchesOutcome c m (non_empty_tokens tokens) (validate_message (some m))
        (validate_message-same m) (λ e h. validate_message-IsVain m _ e h))
