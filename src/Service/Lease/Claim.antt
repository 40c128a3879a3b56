-- ===== src/Service/Lease/Claim.antt =====
-- internal/service/notification.go, `EnqueuePendingRetries`: the body of its transaction.
use dreon_notification.Prelude.{ℕ, ◌≡◌, refl, ap, sym, Bool, String, List, [], ◌∷◌}
use dreon_notification.Go.Error.{ok}
use dreon_notification.Go.Int.{ℤ}
use dreon_notification.Model.{Notification}
use dreon_notification.World.{World, Env}
use dreon_notification.World.Exec.{◌>>◌, pure, modify}
use dreon_notification.World.Frame.{Untouched, >>=-eq-ok, ok-injective}
use dreon_notification.World.Within.{Within, Within-bind, within_rules}
use dreon_notification.Repository.{update_where, update_rows, store}
use dreon_notification.Repository.Schema.{notifications}
use dreon_notification.Repository.Bulk.{db_call-Within, Untouched-IsFrame}
use dreon_notification.Repository.Sound.{IsSoundTable}
use dreon_notification.Repository.Transaction.{TablesOnly, tables_frame}
use dreon_notification.Repository.Notifications.{lock_pending_retries_due, update_next_retry_at}
use dreon_notification.Service.{NotificationSvc}
use dreon_notification.Service.Lease.{
  TakenAt, lock_pending_retries_due_lem, extend_leases-Extended, Extended,
}
use dreon_notification.Service.Poll.{extend_leases, with_lease, claim}

module _ (env : Env) where
  lock-Untouched : (limit : ℤ) (t : ℕ) → Within Untouched (lock_pending_retries_due env limit t)
  unfolding lock_pending_retries_due
  lock-Untouched limit t = search (within_rules, Untouched-IsFrame, db_call-Within)

Extended-eq :
    (env : Env) (until : ℕ) (found : List Notification) (w u v : World)
    → u.notifications ≡ w.notifications
    → Extended env until found u v
    → Extended env until found w v
Extended-eq env until found w u v same h = record {
  sound_after = h.sound_after;
  not_due = λ t j lt k. h.not_due t j lt (rw same k);
}

module _ (env : Env) (svc : NotificationSvc) where
  -- What a successful claim has taken from the world `w`, and how it leaves the world `v`.
  pub record Claimed (batch : ℤ) (now until : ℕ) (w v : World) (rows : List Notification)
      : Type 0 where
    pub found : List Notification
    pub located : (lock_pending_retries_due env batch now w).0 ≡ ok found
    pub leased_rows : rows ≡ with_lease until found
    pub taken : TakenAt env batch w.calls now found
    pub extended : Extended env until found w v

  pub claim-Claimed :
      (batch : ℤ) (now until : ℕ) (w : World) (rows : List Notification)
      → IsSoundTable w.notifications
      → (claim env svc batch now until w).0 ≡ ok rows
      → Claimed batch now until w (claim env svc batch now until w).1 rows
  unfolding claim
  claim-Claimed batch now until w rows h done =
      let (found, e, more) =
        >>=-eq-ok (λ found. extend_leases env svc until found >> pure (with_lease until found))
          (lock_pending_retries_due env batch now) w done in
      let u = (lock_pending_retries_due env batch now w).1 in
      let same = ap (λ t. t.notifications) ((lock-Untouched env batch now).at w).same_tables in
      let (_, e', last) =
        >>=-eq-ok (λ _. pure (with_lease until found)) (extend_leases env svc until found) u more in
      rw (e, e')
        (record {
          found = found;
          located = e;
          leased_rows = sym (ok-injective last);
          taken = lock_pending_retries_due_lem env batch now w found e;
          extended =
              Extended-eq env until found w u (extend_leases env svc until found u).1 same
                (extend_leases-Extended env svc until found u (rw same h) e');
        })

store-TablesOnly : (rs : List Notification) → Within TablesOnly (modify (store notifications rs))
store-TablesOnly rs = record {
  at = λ w. record { same_published = refl; same_deliveries = refl; same_cache = refl };
}

update_rows-TablesOnly :
    (p : Notification → Bool) (f : Notification → Notification) (now : ℕ)
    → Within TablesOnly (update_rows notifications p f now)
unfolding update_rows
update_rows-TablesOnly p f now = search (within_rules, tables_frame, store-TablesOnly)

module _ (env : Env) (svc : NotificationSvc) where
  update_next_retry_at-TablesOnly :
      (id : String) (until : ℕ) → Within TablesOnly (update_next_retry_at env id until)
  unfolding update_next_retry_at update_where
  update_next_retry_at-TablesOnly id until =
      search (within_rules, tables_frame, db_call-Within, update_rows-TablesOnly)

  extend_leases-TablesOnly :
      (until : ℕ) (rs : List Notification) → Within TablesOnly (extend_leases env svc until rs)
  unfolding extend_leases
  extend_leases-TablesOnly until [] = search (within_rules, tables_frame)
  extend_leases-TablesOnly until (r ∷ rs) =
      Within-bind tables_frame (update_next_retry_at-TablesOnly r.id until)
        (λ _. extend_leases-TablesOnly until rs)

  pub claim-TablesOnly :
      (batch : ℤ) (now until : ℕ) → Within TablesOnly (claim env svc batch now until)
  unfolding claim lock_pending_retries_due
  claim-TablesOnly batch now until =
      search (within_rules, tables_frame, db_call-Within, extend_leases-TablesOnly) depth 14
