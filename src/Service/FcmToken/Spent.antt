-- ===== src/Service/FcmToken/Spent.antt =====
-- internal/service/fcmtoken.go, `Register`, for a token that a deleted row holds.
use dreon_notification.Prelude.{
  ◌≡◌, refl, ◌∙◌, inl, inr, true, List, Option, none, some, find, contains,
}
use dreon_notification.Go.Error.{Error, Result, err}
use dreon_notification.Go.Value.{Value}
use dreon_notification.Model.{UserFcmToken}
use dreon_notification.World.{World, Env}
use dreon_notification.Repository.{fresh_row}
use dreon_notification.Repository.Schema.{fcm_tokens}
use dreon_notification.Repository.Create.{create-CreateOutcome}
use dreon_notification.Aggregate.FcmToken.{RegisterUserFcmTokenReq, UserFcmTokenAggregate}
use dreon_notification.Service.FcmToken.{token_row, store_token, register}
use dreon_notification.Service.FcmToken.Owners.{tokens, holds, free_token, clash}
use dreon_notification.Service.FcmToken.Steps.{token_of, register_lem}

module _ (env : Env) (req : RegisterUserFcmTokenReq) where
  -- A row that was deleted holds the token.
  abbrev pub Spent : List UserFcmToken → Type 0
  Spent rs = (contains (token_of req) (tokens rs) ≡ true) × (find (holds (token_of req)) rs ≡ none)

  abbrev pub FailsFrom : World → Result UserFcmTokenAggregate → World → Type 0
  FailsFrom w r v = ((e : Error) × (r ≡ err e)) × (v.tables ≡ w.tables)

  abbrev Fails : World → Result UserFcmTokenAggregate × World → Type 0
  Fails w (r, v) = FailsFrom w r v

  store_token-FailsFrom :
      (meta : Option Value) (existing : Option UserFcmToken) (u w : World)
      → Spent w.fcm_tokens × (w.tables ≡ u.tables)
      → ((r : UserFcmToken) → existing ≡ some r → find (holds (token_of req)) w.fcm_tokens ≡ some r)
      → Fails u (store_token env req (token_of req) meta existing w)
  unfolding store_token
  store_token-FailsFrom meta none u w ((spent, gone), same) _ =
      elim (create-CreateOutcome env fcm_tokens (token_row req (token_of req) meta) w) [
        | inl (e, eq, calm) ↦ rw eq ((_, refl), calm.same_tables ∙ same)
        | inr (n, id, eq, free, grown) ↦ absurd (
            clash
              (free_token w.fcm_tokens
                (fresh_row env fcm_tokens n id (token_row req (token_of req) meta)) free)
              spent)
      ]
  store_token-FailsFrom meta (some r) u w ((spent, gone), same) held = cc (held r refl)

  -- While no live row has the token but a deleted one does, no registration of the token succeeds, by
  -- any user, and none changes the tables.
  pub register-FailsFrom :
      (validate : RegisterUserFcmTokenReq → Option Error) (w : World)
      → Spent w.fcm_tokens
      → FailsFrom w (register env validate req w).0 (register env validate req w).1
  register-FailsFrom validate w h =
      register_lem env req (λ t. Spent t.fcm_tokens × (t ≡ w.tables)) (Fails w)
        (λ e v d. ((e, refl), d.1)) (λ meta existing. store_token-FailsFrom meta existing w)
        validate w (h, refl)
