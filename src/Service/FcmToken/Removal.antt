-- ===== src/Service/FcmToken/Removal.antt =====
-- internal/service/fcmtoken.go, `DeleteForUser`.
use dreon_notification.Prelude.{
  ℕ, ◌≡◌, refl, ap, ◌⊎◌, inl, inr, Bool, true, ◌&&◌, ◌||◌, String, ◌==◌, List, [], ◌∷◌, map, arith,
  count, leb, Bool-cases, Option-cases, if◌then◌else◌,
}
use dreon_notification.Go.Error.{Error, Result, ok, err, record_not_found}
use dreon_notification.Model.{UserFcmToken}
use dreon_notification.World.{World, Env}
use dreon_notification.World.Exec.{◌>>=◌, guard, map_error}
use dreon_notification.Repository.{delete_rows, delete_where, is_live, has_id, mark_deleted}
use dreon_notification.Repository.Schema.{fcm_tokens}
use dreon_notification.Repository.Transaction.{db_call_up, db_call_down}
use dreon_notification.Repository.FcmTokens.{delete_by_id_and_created_by}
use dreon_notification.Service.FcmToken.{delete_for_user, delete_error}

module _ (env : Env) (id user : String) where
  abbrev pub is_theirs : UserFcmToken → Bool
  is_theirs r = has_id fcm_tokens id r && r.created_by == user

  -- The rows after a removal at the time `now`.
  abbrev pub without : ℕ → List UserFcmToken → List UserFcmToken
  without now =
      map (λ r. if is_live fcm_tokens r && is_theirs r then mark_deleted fcm_tokens now r else r)

  abbrev pub RemovalOutcome : World → Result (Unit {0}) → World → Type 0
  RemovalOutcome w r v =
      ((e : Error) × (r ≡ err e) × (v.tables ≡ w.tables))
      ⊎ ((now : ℕ) × (r ≡ ok tt)
          × (v.tables ≡ record w.tables { fcm_tokens = without now w.fcm_tokens }))

  abbrev RemovesOrFails : World → Result (Unit {0}) × World → Type 0
  RemovesOrFails w (r, v) = RemovalOutcome w r v

  none_met :
      (now : ℕ) (rs : List UserFcmToken)
      → leb (count (λ r. is_live fcm_tokens r && is_theirs r) rs) 0 ≡ true
      → without now rs ≡ rs
  none_met now [] h = refl
  none_met now (r ∷ rs) h = elim (Bool-cases (is_live fcm_tokens r && is_theirs r)) [
    | inl e ↦ absurd (let h' = rw e at h in ground arith)
    | inr e ↦ rw e (ap (◌∷◌ r) (none_met now rs (rw e at h)))
  ]

  called-RemovalOutcome :
      (f : Error → Error) (w : World)
      → RemovesOrFails w (
          map_error f
            (do met ← delete_where env fcm_tokens is_theirs; guard (leb met 0) record_not_found)
            w)
  unfolding delete_where delete_rows
  called-RemovalOutcome f w = elim (Option-cases (env.db_fault w.calls)) [
    | inl up ↦
        rw (db_call_up env w up)
          (elim (Bool-cases
            (leb (count (λ r. is_live fcm_tokens r && is_theirs r) w.fcm_tokens) 0)) [
              | inl e ↦ rw e (
                  inl (
                    _,
                    refl,
                    ap (λ rs. record w.tables { fcm_tokens = rs })
                        (none_met (env.clock w.calls) w.fcm_tokens e),
                  ))
              | inr e ↦ rw e (inr (env.clock w.calls, refl, refl))
            ])
    | inr (e, down) ↦ rw (db_call_down env w e down) (inl (_, refl, refl))
  ]

  -- A removal fails and changes nothing, or it marks as deleted exactly the live tokens with this id
  -- that belong to the user.
  pub delete_for_user-RemovalOutcome :
      (w : World)
      → RemovalOutcome w (delete_for_user env id user w).0 (delete_for_user env id user w).1
  unfolding delete_for_user delete_by_id_and_created_by
  delete_for_user-RemovalOutcome w = elim (Bool-cases (id == "" || user == "")) [
    | inl e ↦ rw e (inl (_, refl, refl))
    | inr e ↦ rw e (called-RemovalOutcome delete_error w)
  ]
