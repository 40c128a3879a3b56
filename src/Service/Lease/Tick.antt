-- ===== src/Service/Lease/Tick.antt =====
-- internal/service/notification.go, `EnqueuePendingRetries`: one tick of the retry worker.
use mathlib.Core.Path.{subst}
use dreon_notification.Prelude.{
  ℕ, suc, ◌≡◌, refl, ap, ◌∙◌, ◌≤◌, ◌<◌, ◌⊎◌, inl, inr, List, [], ◌∷◌, ◌++◌, Option, none, some, All,
  Bool-cases, length, contains, true, String,
}
use dreon_notification.Go.Error.{Error, ok, context}
use dreon_notification.Go.Int.{ℤ, is_nonpositive, to_ℕ, add_duration}
use dreon_notification.Model.{Notification}
use dreon_notification.World.{World, Env, Message}
use dreon_notification.World.Exec.{Exec, ◌>>=◌, ask, map_error}
use dreon_notification.Repository.Sound.{ids, IsSoundTable}
use dreon_notification.Repository.Transaction.{
  run_in_transaction-TablesOnly, run_in_transaction-TransactionOutcome,
}
use dreon_notification.Repository.Notifications.{lock_pending_retries_due, run_in_transaction}
use dreon_notification.Service.{NotificationSvc, Publisher, publish_lease}
use dreon_notification.Service.Lease.{IsClaimable, NotDue}
use dreon_notification.Service.Lease.Exclusive.{NoneOf, lock_pending_retries_due-NoneOf}
use dreon_notification.Service.Published.{MessagesOf, skipped, sent, Publishes, for_each-Publishes}
use dreon_notification.Service.Send.{or_fail}
use dreon_notification.Service.Poll.{
  with_lease, claim, publish_retry, for_each, enqueue_pending_retries,
}
use dreon_notification.Service.Lease.Claim.{Claimed, claim-Claimed, claim-TablesOnly}

with_lease-MessagesOf :
    (until : ℕ) (found : List Notification) (ms : List Message)
    → MessagesOf (with_lease until found) ms
    → MessagesOf found ms
with_lease-MessagesOf until [] ms h = h
with_lease-MessagesOf until (r ∷ rs) ms (skipped h) = skipped (with_lease-MessagesOf until rs ms h)
with_lease-MessagesOf until (r ∷ rs) (m ∷ ms) (sent h) = sent (with_lease-MessagesOf until rs ms h)

module _ (env : Env) (svc : NotificationSvc) where
  -- A tick that has published messages for some of the rows that it took.
  pub record Ticked (batch : ℤ) (w v : World) : Type 0 where
    pub found : List Notification
    pub new : List Message
    pub grown : v.published ≡ w.published ++ new
    pub messages : MessagesOf found new
    pub at_most : length found ≤ to_ℕ batch
    pub claimable : All (IsClaimable env (suc (suc w.calls)) (env.clock w.calls)) found

  -- And no claim takes one of them before the lease ends.
  pub record Leased (batch : ℤ) (w v : World) : Type 0 where
    pub ticked : Ticked batch w v
    pub located :
        (lock_pending_retries_due env batch
          (env.clock w.calls)
          (record w { calls = suc (suc w.calls) })).0
        ≡ ok ticked.found
    pub not_due :
        (t : ℕ) (j : String)
        → t < add_duration (env.clock w.calls) (publish_lease svc.cfg)
        → NotDue env j t w.notifications ⊎ (contains j (ids ticked.found) ≡ true)
        → NotDue env j t v.notifications
    pub exclusive :
        (limit : ℤ) (t : ℕ) (rs : List Notification)
        → t < add_duration (env.clock w.calls) (publish_lease svc.cfg)
        → (lock_pending_retries_due env limit t v).0 ≡ ok rs
        → NoneOf (ids ticked.found) rs

  abbrev pub Unchanged : World → World → Type 0
  Unchanged w v = (v.tables ≡ w.tables) × (v.published ≡ w.published)

  -- Nothing is published and nothing changed, or the tick has claimed rows.
  abbrev pub TickOutcome : ℤ → World → World → Type 0
  TickOutcome batch w v = Unchanged w v ⊎ Ticked batch w v

  abbrev pub LeaseOutcome : ℤ → World → World → Type 0
  LeaseOutcome batch w v = Unchanged w v ⊎ Leased batch w v

  leased :
      (batch : ℤ) (w u v : World) (rows : List Notification)
      → let now = env.clock w.calls in
        let until = add_duration now (publish_lease svc.cfg) in
        let start = record w { calls = suc (suc w.calls) } in
        Claimed env svc batch now until start (claim env svc batch now until start).1 rows
        → u.tables ≡ (claim env svc batch now until start).1.tables
        → u.published ≡ w.published
        → Publishes rows u v
        → Leased batch w v
  leased batch w u v rows c kept quiet p =
      let until = add_duration (env.clock w.calls) (publish_lease svc.cfg) in
      let same = ap (λ t. t.notifications) (p.same_tables ∙ kept) in
      record {
        ticked = record {
          found = c.found;
          new = p.new;
          grown = p.grown ∙ ap (λ ms. ms ++ p.new) quiet;
          messages =
              with_lease-MessagesOf until c.found p.new
                (subst (λ rs. MessagesOf rs p.new) c.leased_rows p.messages);
          at_most = c.taken.0;
          claimable = c.taken.1;
        };
        located = c.located;
        not_due = λ t j lt k. rw same (c.extended.not_due t j lt k);
        exclusive = λ limit t rs lt done.
            lock_pending_retries_due-NoneOf env (ids c.found) limit t v rs
              (λ j named. rw same (c.extended.not_due t j lt (inr named))) done;
      }

  abbrev claim_of : ℤ → World → Exec (List Notification)
  claim_of batch w =
      claim env svc batch (env.clock w.calls)
        (add_duration (env.clock w.calls) (publish_lease svc.cfg))

  published-LeaseOutcome :
      (p : Publisher) (batch : ℤ) (w : World)
      → IsSoundTable w.notifications
      → LeaseOutcome batch w
          ((map_error
                (context "claim pending retries for publish")
                (run_in_transaction env (claim_of batch w))
              >>= λ rows. for_each (publish_retry env svc p) rows)
            (record w { calls = suc w.calls })).1
  published-LeaseOutcome p batch w h =
      let start = record w { calls = suc w.calls } in
      let quiet =
        (run_in_transaction-TablesOnly env (
            claim-TablesOnly env svc batch (env.clock w.calls)
              (add_duration (env.clock w.calls) (publish_lease svc.cfg)))).at
          start in
      elim (run_in_transaction-TransactionOutcome env (claim_of batch w) start) [
        | inl (e, eq, same) ↦ rw eq (inl (same, quiet.same_published))
        | inr (rows, eq, done, kept) ↦
            let u = (run_in_transaction env (claim_of batch w) start).1 in
            rw eq (
              inr (
                leased batch w u _ rows (claim-Claimed env svc batch _ _ _ rows h done) kept
                  quiet.same_published (for_each-Publishes env svc p rows u)))
      ]

  publisher-LeaseOutcome :
      (o : Option Publisher) (off : Error) (batch : ℤ) (w : World)
      → IsSoundTable w.notifications
      → LeaseOutcome batch w
          ((do
            publisher ← or_fail o off
            now ← ask env.clock
            rows ← map_error (context "claim pending retries for publish") (
                run_in_transaction env
                  (claim env svc batch now (add_duration now (publish_lease svc.cfg))))
            for_each (publish_retry env svc publisher) rows)
            w).1
  publisher-LeaseOutcome none off batch w h = inl (refl, refl)
  publisher-LeaseOutcome (some p) off batch w h = published-LeaseOutcome p batch w h

  pub tick :
      (batch : ℤ) (w : World)
      → IsSoundTable w.notifications
      → LeaseOutcome batch w (enqueue_pending_retries env svc batch w).1
  unfolding enqueue_pending_retries
  tick batch w h = elim (Bool-cases (is_nonpositive batch)) [
    | inl e ↦ rw e (inl (refl, refl))
    | inr e ↦ rw e (publisher-LeaseOutcome svc.publisher _ batch w h)
  ]

  -- What a tick has published is about rows of which none is among `rs`.
  abbrev pub Exclusive : World → World → List Notification → Type 0
  Exclusive w v rs =
      Unchanged w v
      ⊎ ((found : List Notification) × (new : List Message) × (v.published ≡ w.published ++ new)
          × MessagesOf found new
          × NoneOf (ids found) rs)

  -- A claim `rs` that succeeds after a tick, at a time before the tick's lease ends, takes none of the
  -- rows for which the tick has published messages.
  pub enqueue_pending_retries-Exclusive :
      (batch limit : ℤ) (t : ℕ) (w : World) (rs : List Notification)
      → IsSoundTable w.notifications
      → t < add_duration (env.clock w.calls) (publish_lease svc.cfg)
      → (lock_pending_retries_due env limit t (enqueue_pending_retries env svc batch w).1).0 ≡ ok rs
      → Exclusive w (enqueue_pending_retries env svc batch w).1 rs
  enqueue_pending_retries-Exclusive batch limit t w rs h lt done = elim (tick batch w h) [
    | inl same ↦ inl same
    | inr lease ↦ inr (
      lease.ticked.found,
      lease.ticked.new,
      lease.ticked.grown,
      lease.ticked.messages,
      lease.exclusive limit t rs lt done,
    )
  ]
