-- ===== src/Service/Invariant/Poll.antt =====
-- internal/service/notification.go: the two workers keep the invariant of the table.
use dreon_notification.Prelude.{
  ℕ, refl, Bool, true, false, String, List, [], ◌∷◌, Option, none, some,
}
use dreon_notification.Go.Int.{ℤ}
use dreon_notification.Model.{Notification}
use dreon_notification.World.{Env}
use dreon_notification.World.Exec.{Exec}
use dreon_notification.World.Within.{Within, Within-bind}
use dreon_notification.Repository.Bulk.{db_call-Within}
use dreon_notification.Repository.Notifications.{
  find_due_scheduled, lock_pending_retries_due, update_next_retry_at,
}
use dreon_notification.Repository.Sound.{KeepsRow}
use dreon_notification.Repository.Keeps.{
  KeepsSound, sound_frame, update_where-KeepsSound, run_in_transaction-KeepsSound,
}
use dreon_notification.Cache.{AppCache, set_nx, set_if_absent}
use dreon_notification.Service.{NotificationSvc, Publisher}
use dreon_notification.Service.Invariant.{sound_rules}
use dreon_notification.Service.Invariant.Queue.{publish-KeepsSound}
use dreon_notification.Service.Poll.{
  publish_scheduled, enqueue_scheduled, for_each, enqueue_due_scheduled, extend_leases, claim,
  publish_retry, enqueue_pending_retries, logged,
}

postponed-KeepsRow : (at : ℕ) → KeepsRow (λ r. record r { next_retry_at = some at })
postponed-KeepsRow at = record {
  same_id = λ r. refl;
  same_key = λ r. refl;
  keeps_sound = λ r h. record {
    has_status = h.has_status;
    pending_left = h.pending_left;
    failed_spent = h.failed_spent;
  };
}

set_if_absent-KeepsSound :
    (k : String) (o : Option (Option ℕ)) (b : Bool) → Within KeepsSound (set_if_absent k o b)
set_if_absent-KeepsSound k none b = record { at = λ w h. h }
set_if_absent-KeepsSound k (some t) true = record { at = λ w h. h }
set_if_absent-KeepsSound k (some t) false = record { at = λ w h. h }

module _ (env : Env) where
  set_nx-KeepsSound :
      (c : AppCache) (key : String) (ttl : ℤ) → Within KeepsSound (set_nx env c key ttl)
  unfolding set_nx
  set_nx-KeepsSound c key ttl = search (sound_rules, set_if_absent-KeepsSound) depth 12

  find_due_scheduled-KeepsSound :
      (limit : ℤ) (t : ℕ) → Within KeepsSound (find_due_scheduled env limit t)
  unfolding find_due_scheduled
  find_due_scheduled-KeepsSound limit t = search (sound_rules, db_call-Within)

  lock-KeepsSound : (limit : ℤ) (t : ℕ) → Within KeepsSound (lock_pending_retries_due env limit t)
  unfolding lock_pending_retries_due
  lock-KeepsSound limit t = search (sound_rules, db_call-Within)

  pub update_next_retry_at-KeepsSound :
      (id : String) (t : ℕ) → Within KeepsSound (update_next_retry_at env id t)
  unfolding update_next_retry_at
  update_next_retry_at-KeepsSound id t =
      search (sound_rules, update_where-KeepsSound, postponed-KeepsRow)

logged-KeepsSound : {m : Exec (Unit {0})} → Within KeepsSound m → Within KeepsSound (logged m)
logged-KeepsSound h = search (sound_rules)

for_each-KeepsSound :
    (body : Notification → Exec (Unit {0}))
    → ((n : Notification) → Within KeepsSound (body n))
    → (rs : List Notification) → Within KeepsSound (for_each body rs)
unfolding for_each
for_each-KeepsSound body h [] = search (sound_rules)
for_each-KeepsSound body h (r ∷ rs) =
    Within-bind sound_frame (logged-KeepsSound (h r)) (λ _. for_each-KeepsSound body h rs)

module _ (env : Env) (svc : NotificationSvc) where
  publish_scheduled-KeepsSound :
      (p : Publisher) (n : Notification) (b : Bool)
      → Within KeepsSound (publish_scheduled env svc p n b)
  unfolding publish_scheduled
  publish_scheduled-KeepsSound p n false = search (sound_rules)
  publish_scheduled-KeepsSound p n true = search (sound_rules, publish-KeepsSound)

  enqueue_scheduled-KeepsSound :
      (p : Publisher) (c : AppCache) (ttl : ℤ) (n : Notification)
      → Within KeepsSound (enqueue_scheduled env svc p c ttl n)
  unfolding enqueue_scheduled
  enqueue_scheduled-KeepsSound p c ttl n =
      search (sound_rules, set_nx-KeepsSound, publish_scheduled-KeepsSound)

  pub enqueue_due_scheduled-KeepsSound :
      (batch : ℤ) → Within KeepsSound (enqueue_due_scheduled env svc batch)
  unfolding enqueue_due_scheduled
  enqueue_due_scheduled-KeepsSound batch =
      search
        (
          sound_rules, find_due_scheduled-KeepsSound, for_each-KeepsSound,
          enqueue_scheduled-KeepsSound,
        )
        depth 16

  extend_leases-KeepsSound :
      (until : ℕ) (rs : List Notification) → Within KeepsSound (extend_leases env svc until rs)
  unfolding extend_leases
  extend_leases-KeepsSound until [] = search (sound_rules)
  extend_leases-KeepsSound until (r ∷ rs) =
      Within-bind sound_frame (update_next_retry_at-KeepsSound env r.id until)
        (λ _. extend_leases-KeepsSound until rs)

  claim-KeepsSound : (batch : ℤ) (now until : ℕ) → Within KeepsSound (claim env svc batch now until)
  unfolding claim
  claim-KeepsSound batch now until = search (sound_rules, lock-KeepsSound, extend_leases-KeepsSound)

  publish_retry-KeepsSound :
      (p : Publisher) (n : Notification) → Within KeepsSound (publish_retry env svc p n)
  unfolding publish_retry
  publish_retry-KeepsSound p n = search (sound_rules, publish-KeepsSound)

  pub enqueue_pending_retries-KeepsSound :
      (batch : ℤ) → Within KeepsSound (enqueue_pending_retries env svc batch)
  unfolding enqueue_pending_retries
  enqueue_pending_retries-KeepsSound batch =
      search
        (
          sound_rules, run_in_transaction-KeepsSound, claim-KeepsSound, for_each-KeepsSound,
          publish_retry-KeepsSound,
        )
        depth 16
