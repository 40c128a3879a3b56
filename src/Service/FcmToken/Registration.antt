-- ===== src/Service/FcmToken/Registration.antt =====
-- internal/service/fcmtoken.go, `Register`: whose a token is afterwards.
use dreon_notification.Prelude.{
  ◌≡◌, refl, ap, ◌⊎◌, inl, inr, true, ◌&&◌, String, ◌==◌, [], ◌∷◌, map, Option, none, some, find,
  All-append, IsDistinct, Bool-cases, Option-cases,
}
use dreon_notification.Go.Error.{Error, Result, ok, err}
use dreon_notification.Go.Value.{Value}
use dreon_notification.Model.{UserFcmToken}
use dreon_notification.World.{World, Env}
use dreon_notification.World.Exec.{pure, ◌>>=◌, ◌>>◌, guard, map_error}
use dreon_notification.Repository.{
  is_live, has_id, fresh_row, create, update, find_one, find_one_by_id,
}
use dreon_notification.Repository.Schema.{fcm_tokens}
use dreon_notification.Repository.Create.{create-CreateOutcome}
use dreon_notification.Repository.Change.{update-UpdateOutcome}
use dreon_notification.Repository.Transaction.{db_call_up, db_call_down}
use dreon_notification.Aggregate.FcmToken.{
  RegisterUserFcmTokenReq, UserFcmTokenAggregate, token_view,
}
use dreon_notification.Service.Send.{or_fail}
use dreon_notification.Service.FcmToken.{assign_token, token_row, store_token, register}
use dreon_notification.Service.FcmToken.Owners.{
  tokens, holds, Owned, none-Owned, same_tokens, reassigned, reassigned-Owned, found-Owned,
  free_token, append-IsDistinct,
}
use dreon_notification.Service.FcmToken.Steps.{token_of, register_lem}

module _ (env : Env) (req : RegisterUserFcmTokenReq) where
  -- The tokens stay distinct, and after a success the token is the user's alone.
  abbrev pub RegisterOutcome : Result UserFcmTokenAggregate → World → Type 0
  RegisterOutcome r v =
      IsDistinct (tokens v.fcm_tokens)
      × (((e : Error) × (r ≡ err e))
          ⊎ ((a : UserFcmTokenAggregate) × (r ≡ ok a)
              × (a.user_id ≡ req.user_id)
              × Owned (token_of req) req.user_id v.fcm_tokens))

  abbrev Registers : Result UserFcmTokenAggregate × World → Type 0
  Registers (r, v) = RegisterOutcome r v

  created-RegisterOutcome :
      (meta : Option Value) (f : Error → Error) (blank : Error) (w : World)
      → IsDistinct (tokens w.fcm_tokens)
      → Registers (
          (do
            created ← map_error f (create env fcm_tokens (token_row req (token_of req) meta))
            guard (created.id == "") blank
            pure (token_view created))
            w)
  created-RegisterOutcome meta f blank w d =
      elim (create-CreateOutcome env fcm_tokens (token_row req (token_of req) meta) w) [
        | inl (e, eq, calm) ↦ rw eq (rw (calm.same_tables) d, inl (_, refl))
        | inr (n, id, eq, free, grown) ↦
            let fresh = fresh_row env fcm_tokens n id (token_row req (token_of req) meta) in
            let distinct = append-IsDistinct w.fcm_tokens fresh d free in
            let owned =
              All-append (λ r. (r.token == (token_of req)) ≡ true → r.created_by ≡ req.user_id)
                w.fcm_tokens (fresh ∷ [])
                (none-Owned (token_of req) req.user_id w.fcm_tokens
                  (free_token w.fcm_tokens fresh free))
                ((λ _. refl), tt) in
            elim (Bool-cases (id == "")) [
              | inl e ↦ rw (eq, e) (rw (grown.added) distinct, inl (_, refl))
              | inr e ↦
                  rw (eq, e)
                    (rw (grown.added) distinct, inr (_, refl, refl, rw (grown.added) owned))
            ]
      ]

  found-RegisterOutcome :
      (id : String) (blank : Error) (w : World)
      → IsDistinct (tokens w.fcm_tokens)
      → Owned (token_of req) req.user_id w.fcm_tokens
      → ((u : UserFcmToken)
          → find (λ r. is_live fcm_tokens r && has_id fcm_tokens id r) w.fcm_tokens ≡ some u
          → u.created_by ≡ req.user_id)
      → Registers (
          (do
            found ← find_one_by_id env fcm_tokens id
            updated ← or_fail found blank
            pure (token_view updated))
            w)
  unfolding find_one_by_id find_one
  found-RegisterOutcome id blank w d owned theirs = elim (Option-cases (env.db_fault w.calls)) [
    | inl up ↦
        rw (db_call_up env w up)
          (elim (Option-cases
            (find (λ r. is_live fcm_tokens r && has_id fcm_tokens id r) w.fcm_tokens)) [
              | inl e ↦ rw e (d, inl (_, refl))
              | inr (u, e) ↦ rw e (d, inr (_, refl, theirs u e, owned))
            ])
    | inr (e, down) ↦ rw (db_call_down env w e down) (d, inl (_, refl))
  ]

  store_token-RegisterOutcome :
      (meta : Option Value) (existing : Option UserFcmToken) (w : World)
      → IsDistinct (tokens w.fcm_tokens)
      → ((r : UserFcmToken) → existing ≡ some r → find (holds (token_of req)) w.fcm_tokens ≡ some r)
      → Registers (store_token env req (token_of req) meta existing w)
  unfolding store_token
  store_token-RegisterOutcome meta none w d _ = created-RegisterOutcome meta _ _ w d
  store_token-RegisterOutcome meta (some r) w d held =
      elim (update-UpdateOutcome env fcm_tokens r.id (assign_token req meta) w) [
        | inl (e, eq, same) ↦ rw eq (rw same d, inl (_, refl))
        | inr (now, eq, changed) ↦
            let v = (update env fcm_tokens r.id (assign_token req meta) w).1 in
            let rows : v.fcm_tokens ≡ map (reassigned req meta r.id now) w.fcm_tokens =
              ap (λ t. t.fcm_tokens) changed in
            rw eq (
              found-RegisterOutcome r.id _ v
                (rw (rows, same_tokens req meta r.id now w.fcm_tokens) d)
                (rw rows (
                  reassigned-Owned req meta r.id now (token_of req) w.fcm_tokens r d (held r refl)
                    refl))
                (λ u h. found-Owned req meta r.id now w.fcm_tokens u (rw rows at h)))
      ]

  -- If the tokens of the table are distinct, they are so after a registration, whatever it returns; and
  -- after one that succeeds the token that it returns belongs to the user, and every row with that token
  -- is the user's, whoever had it before.
  pub register-RegisterOutcome :
      (validate : RegisterUserFcmTokenReq → Option Error) (w : World)
      → IsDistinct (tokens w.fcm_tokens)
      → RegisterOutcome (register env validate req w).0 (register env validate req w).1
  register-RegisterOutcome =
      register_lem env req (λ t. IsDistinct (tokens t.fcm_tokens)) Registers
        (λ e v d. (d, inl (e, refl))) store_token-RegisterOutcome
