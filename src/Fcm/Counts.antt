-- ===== src/Fcm/Counts.antt =====
-- pkg/fcm/client.go, `SendToTokens`: the counts over all batches.
use dreon_notification.Prelude.{
  ℕ, zero, suc, ◌+◌, ◌≤◌, ◌≡◌, refl, ap, ◌∙◌, String, List, [], ◌∷◌, ◌++◌, none, some, arith,
  length, take, drop,
}
use dreon_notification.Go.Error.{Result, ok, err}
use dreon_notification.World.{PushMessage}
use dreon_notification.Service.{SendOutcome}
use dreon_notification.Fcm.{
  Messaging, MulticastMessage, BatchResponse, Reply, after_batch, to_multicast, non_empty_tokens,
  validate_message, send_batches, send_checked_tokens, send_to_tokens, add_counts, nothing_sent,
}
use dreon_notification.Fcm.Batches.{
  real_tokens, length-drop_le, length-take-drop, non_empty_tokens_real,
}

-- With no error, the counts add up to a total.
unfoldable Counted : ℕ → Reply MulticastMessage → Type 0
Counted total r =
    r.failure ≡ none
    → (final : SendOutcome) × (r.outcome ≡ some final)
      × (final.success_count + final.failure_count ≡ total)

module _ (c : Messaging) (m : PushMessage) where
  after_batch-Counted :
      (o : SendOutcome) (log : List MulticastMessage) (total : ℕ)
      (next : SendOutcome → Reply MulticastMessage) (r : Result BatchResponse)
      → ((b : BatchResponse) → r ≡ ok b → Counted total (next (add_counts o b)))
      → Counted total (after_batch o log next r)
  unfolding Counted
  after_batch-Counted o log total next (ok b) k = k b refl
  after_batch-Counted o log total next (err e) k = λ done. absurd (cc)

  send_batches-Counted :
      ((k : ℕ) (r : MulticastMessage) (b : BatchResponse)
        → c.send_each k r ≡ ok b
        → b.success_count + b.failure_count ≡ length r.tokens)
      → (n : ℕ) (ts : List String) (o : SendOutcome) (log : List MulticastMessage) (total : ℕ)
      → length ts ≤ n
      → o.success_count + o.failure_count + length ts ≡ total
      → Counted total (send_batches c m n ts o log)
  unfolding send_batches to_multicast Counted
  send_batches-Counted counted zero [] o log total fuel h done = (o, refl, omega arith)
  send_batches-Counted counted zero (t ∷ ts) o log total fuel h done = absurd (omega arith)
  send_batches-Counted counted (suc n) [] o log total fuel h done = (o, refl, omega arith)
  send_batches-Counted counted (suc n) (t ∷ ts) o log total fuel h done =
      let request = to_multicast m (take 500 (t ∷ ts)) in
      after_batch-Counted o (log ++ request ∷ []) total
        (λ o'. send_batches c m n (drop 500 (t ∷ ts)) o' (log ++ request ∷ []))
        (c.send_each (length log) request)
        (λ b eq.
          send_batches-Counted counted n (drop 500 (t ∷ ts)) (add_counts o b) (log ++ request ∷ [])
            total (omega (arith, length-drop_le 499 ts))
            (omega (arith, counted (length log) request b eq, length-take-drop 499 ts)))
        done

module _ (c : Messaging) where
  send_checked_tokens-Counted :
      ((k : ℕ) (r : MulticastMessage) (b : BatchResponse)
        → c.send_each k r ≡ ok b
        → b.success_count + b.failure_count ≡ length r.tokens)
      → (ts : List String) (r : Result PushMessage)
      → Counted (length ts) (send_checked_tokens c ts r)
  unfolding Counted
  send_checked_tokens-Counted counted [] r done = absurd (cc)
  send_checked_tokens-Counted counted (t ∷ ts) (err e) done = absurd (cc)
  send_checked_tokens-Counted counted (t ∷ ts) (ok m') done =
      send_batches-Counted c m' counted (length (t ∷ ts)) (t ∷ ts) nothing_sent [] (length (t ∷ ts))
        (omega arith) (omega arith) done

module _ (c : Messaging) (tokens : List String) (m : PushMessage) where
  -- If every answer of Firebase counts one result for each token of its request, a call of `SendToTokens`
  -- with no error returns counts that add up to the number of trimmed tokens that are not blank.
  send_to_tokens_counts :
      ((k : ℕ) (r : MulticastMessage) (b : BatchResponse)
        → c.send_each k r ≡ ok b
        → b.success_count + b.failure_count ≡ length r.tokens)
      → (send_to_tokens c tokens (some m)).failure ≡ none
      → (final : SendOutcome) × ((send_to_tokens c tokens (some m)).outcome ≡ some final)
        × (final.success_count + final.failure_count ≡ length (real_tokens tokens))
  unfolding send_to_tokens Counted
  send_to_tokens_counts counted done =
      let (final, same, total) =
        send_checked_tokens-Counted c counted (non_empty_tokens tokens) (validate_message (some m))
          done in
      (final, same, total ∙ ap length (non_empty_tokens_real tokens))
