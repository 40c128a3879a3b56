-- ===== src/Service/FcmToken/Steps.antt =====
-- internal/service/fcmtoken.go, `Register`: the steps before a row is written leave the tables alone.
use dreon_notification.Prelude.{
  ◌≡◌, refl, ap, ◌∙◌, inl, inr, String, ◌==◌, Option, some, find, Bool-cases, Option-cases,
}
use dreon_notification.Go.Error.{Error, Result, ok, err, bad_request, new}
use dreon_notification.Go.Text.{trim_space}
use dreon_notification.Go.Value.{Value, obj, Fields, end, field, marshal}
use dreon_notification.Model.{UserFcmToken}
use dreon_notification.World.{World, Env, Tables}
use dreon_notification.World.Exec.{◌>>=◌, guard}
use dreon_notification.World.Quiet.{quiet-then, guard_quiet}
use dreon_notification.Repository.Schema.{fcm_tokens}
use dreon_notification.Repository.Found.{find_one_lem}
use dreon_notification.Repository.FcmTokens.{find_by_token}
use dreon_notification.Aggregate.FcmToken.{RegisterUserFcmTokenReq, UserFcmTokenAggregate}
use dreon_notification.Service.Queue.{refuse_invalid}
use dreon_notification.Service.Refused.{refuse_quiet}
use dreon_notification.Service.FcmToken.{metadata_column, store_token, register}
use dreon_notification.Service.FcmToken.Owners.{holds}

-- The token that a request is about
abbrev pub token_of : RegisterUserFcmTokenReq → String
token_of req = trim_space req.token

module _ (env : Env) (req : RegisterUserFcmTokenReq) where
  metadata_quiet : (fs : Fields) (w : World) → (metadata_column fs w).1.tables ≡ w.tables
  metadata_quiet end w = refl
  metadata_quiet (field k v fs) w = elim (Option-cases (marshal (obj (field k v fs)))) [
    | inl e ↦ rw e refl
    | inr (d, e) ↦ rw e refl
  ]

  -- The query for the token finds what the table holds, if it is answered.
  find_by_token_lem :
      (w : World)
      → ((find_by_token env (token_of req) w).1.tables ≡ w.tables)
        × ((r : UserFcmToken)
            → (find_by_token env (token_of req) w).0 ≡ ok (some r)
            → find (holds (token_of req)) w.fcm_tokens ≡ some r)
  unfolding find_by_token
  find_by_token_lem w = elim (Bool-cases (token_of req == "")) [
    | inl e ↦ (rw e refl, λ r h. cc (rw e at h))
    | inr e ↦
        let (same, held) = find_one_lem env fcm_tokens (λ r. r.token == token_of req) w in
        (rw e same, λ r h. held r (rw e at h))
  ]

  -- `Register` up to its last step is shown of once, for what is `Holds` of the tables.
  module _ (Holds : Tables → Type 0) (Outcome : Result UserFcmTokenAggregate × World → Type 0)
      (failed : (e : Error) (v : World) → Holds v.tables → Outcome (err e, v))
      (stored : (meta : Option Value) (existing : Option UserFcmToken) (w : World)
        → Holds w.tables
        → ((r : UserFcmToken)
            → existing ≡ some r
            → find (holds (token_of req)) w.fcm_tokens ≡ some r)
        → Outcome (store_token env req (token_of req) meta existing w)) where
    looked_up :
        (meta : Option Value) (w : World)
        → Holds w.tables
        → Outcome (
            (find_by_token env (token_of req) >>= λ existing.
            store_token env req (token_of req) meta existing)
              w)
    looked_up meta w d =
        let (same, held) = find_by_token_lem w in
        quiet-then Holds Outcome failed (find_by_token env (token_of req))
          (λ existing. store_token env req (token_of req) meta existing) w same d
          λ existing e d'.
            stored meta existing (find_by_token env (token_of req) w).1 d'
              (λ r this. rw same (held r (e ∙ ap ok this)))

    pub register_lem :
        (validate : RegisterUserFcmTokenReq → Option Error) (w : World)
        → Holds w.tables
        → Outcome (register env validate req w)
    unfolding register
    register_lem validate w d =
        quiet-then Holds Outcome failed (refuse_invalid (validate req)) _ w (refuse_quiet _ w) d
          λ _ _ d1.
            quiet-then Holds Outcome failed
              (guard ((token_of req) == "") (new bad_request "token is required")) _ _
              (guard_quiet _ _ _) d1
              λ _ _ d2.
                quiet-then Holds Outcome failed (metadata_column req.device_metadata) _ _
                  (metadata_quiet _ _) d2 λ meta _. looked_up meta _
