-- ===== src/Repository/Keeps.antt =====
-- Every statement of the repositories keeps the invariant of the table of notifications.
use dreon_notification.Prelude.{
  ℕ, ◌≡◌, refl, Bool, true, false, ◌&&◌, String, inl, inr, any, Option-cases, Bool-cases,
  if◌then◌else◌,
}
use dreon_notification.Go.Error.{Result, ok, err}
use dreon_notification.Go.Int.{ℤ}
use dreon_notification.Model.{Notification}
use dreon_notification.World.{World, Env, Tables}
use dreon_notification.World.Exec.{Exec}
use dreon_notification.World.Within.{IsFrame, Within, Within-bind}
use dreon_notification.Repository.{
  create, update_where, db_call, refused, fresh_row, insert_row, update_rows, updated, is_live,
  touch, clashes_in,
}
use dreon_notification.Repository.Schema.{notifications}
use dreon_notification.Repository.Bulk.{before_create-Within, db_call-Within}
use dreon_notification.Repository.Notifications.{
  run_in_transaction, commit, end_of_commit, record_send_failure, fail_rows, failed_row,
  fail_update, transaction_body,
}
use dreon_notification.Repository.Sound.{
  IsSound, IsSoundTable, KeepsRow, map-IsSoundTable, insert-IsSoundTable, fail_rows-IsSoundTable,
}

-- A step that keeps the invariant of the table.
abbrev pub KeepsSound : World → World → Type 0
KeepsSound w v = IsSoundTable w.notifications → IsSoundTable v.notifications

pub sound_frame : IsFrame KeepsSound
sound_frame = record { idle = λ w h. h; chain = λ f g h. g (f h); counted = λ w h. h }

insert_row-KeepsSound :
    (r : Notification) → IsSound r → Within KeepsSound (insert_row notifications r)
unfolding insert_row
insert_row-KeepsSound r new = record {
  at = λ w h. elim (Bool-cases (refused notifications w.notifications r)) [
    | inl e ↦ rw e h
    | inr e ↦ rw e (insert-IsSoundTable w.notifications r e new h)
  ];
}

updated-KeepsRow :
    (p : Notification → Bool) (f : Notification → Notification) (now : ℕ)
    → KeepsRow f
    → KeepsRow (updated notifications p f now)
updated-KeepsRow p f now k = record {
  same_id = λ r. (on (is_live notifications r && p r) r).0;
  same_key = λ r. (on (is_live notifications r && p r) r).1;
  keeps_sound = λ r. (on (is_live notifications r && p r) r).2;
}
  where
    on :
        (b : Bool) (r : Notification)
        → let s = if b then touch notifications now (f r) else r in
          (s.id ≡ r.id) × (s.idempotency_key ≡ r.idempotency_key) × (IsSound r → IsSound s)
    on true r = (
      k.same_id r,
      k.same_key r,
      λ h.
          let h' = k.keeps_sound r h in
          record {
            has_status = h'.has_status;
            pending_left = h'.pending_left;
            failed_spent = h'.failed_spent;
          },
    )
    on false r = (refl, refl, λ h. h)

update_rows-KeepsSound :
    (p : Notification → Bool) (f : Notification → Notification) (now : ℕ)
    → KeepsRow f
    → Within KeepsSound (update_rows notifications p f now)
unfolding update_rows
update_rows-KeepsSound p f now k = record {
  at = λ w h.
      elim (Bool-cases (
        any (λ r. is_live notifications r && p r && clashes_in notifications w.notifications (f r))
          w.notifications)) [
            | inl e ↦ rw e h
            | inr e ↦ rw e (
                map-IsSoundTable (updated notifications p f now) (updated-KeepsRow p f now k)
                  w.notifications h)
          ];
}

module _ (env : Env) where
  pub create-KeepsSound :
      (r : Notification)
      → ((n : ℕ) (id : String) → IsSound (fresh_row env notifications n id r))
      → Within KeepsSound (create env notifications r)
  unfolding create
  create-KeepsSound r new = search (
    Within-bind sound_frame,
    before_create-Within sound_frame,
    db_call-Within sound_frame,
    insert_row-KeepsSound,
  )

  pub update_where-KeepsSound :
      (p : Notification → Bool) (f : Notification → Notification)
      → KeepsRow f
      → Within KeepsSound (update_where env notifications p f)
  unfolding update_where
  update_where-KeepsSound p f k =
      search (Within-bind sound_frame, db_call-Within sound_frame, update_rows-KeepsSound)

  fail_update-KeepsSound :
      (id : String) (initial max now : ℕ) → Within KeepsSound (fail_update env id initial max now)
  unfolding fail_update
  fail_update-KeepsSound id initial max now = record {
    at = λ w h.
        elim (Option-cases (fail_rows id (failed_row env now initial max) w.notifications)) [
          | inl e ↦ rw e h
          | inr (rs, e) ↦
              rw e (fail_rows-IsSoundTable env id now initial max w.notifications rs e h)
        ];
  }

  pub record_send_failure-KeepsSound :
      (id : String) (initial max : ℤ) → Within KeepsSound (record_send_failure env id initial max)
  unfolding record_send_failure
  record_send_failure-KeepsSound id initial max =
      search (Within-bind sound_frame, db_call-Within sound_frame, fail_update-KeepsSound)

  end_of_commit-KeepsSound :
      {A : Type 0} (before : Tables) (a : A) (r : Result ℕ) (w : World)
      → IsSoundTable before.notifications
      → IsSoundTable w.notifications
      → IsSoundTable (end_of_commit before a r w).1.notifications
  end_of_commit-KeepsSound before a (ok n) w h k = k
  end_of_commit-KeepsSound before a (err e) w h k = h

  commit-KeepsSound :
      {A : Type 0} (before : Tables) (r : Result A) (w : World)
      → IsSoundTable before.notifications
      → IsSoundTable w.notifications
      → IsSoundTable (commit env before r w).1.notifications
  commit-KeepsSound before (ok a) w h k =
      end_of_commit-KeepsSound before a (db_call env w).0 (db_call env w).1 h
        ((db_call-Within sound_frame env).at w k)
  commit-KeepsSound before (err e) w h k = h

  transaction_body-KeepsSound :
      {A : Type 0} {body : Exec A}
      → Within KeepsSound body
      → Within KeepsSound (transaction_body env body)
  unfolding transaction_body
  transaction_body-KeepsSound {body} h = record {
    at = λ w k. commit-KeepsSound w.tables (body w).0 (body w).1 k (h.at w k);
  }

  pub run_in_transaction-KeepsSound :
      {A : Type 0} {body : Exec A}
      → Within KeepsSound body
      → Within KeepsSound (run_in_transaction env body)
  unfolding run_in_transaction
  run_in_transaction-KeepsSound h =
      search (Within-bind sound_frame, db_call-Within sound_frame, transaction_body-KeepsSound)
