-- ===== src/Service/FcmToken/Owners.antt =====
-- internal/service/fcmtoken.go, `Register`: the rows with a token, and whose they are.
use mathlib.Core.Path.{subst}
use mathlib.Core.List.{map-append}
use mathlib.Core.Option.{some-injective}
use dreon_notification.Prelude.{
  ℕ, ◌≡◌, refl, ap, sym, ◌∙◌, inl, inr, Bool, true, false, ◌&&◌, String, ◌==◌, eq_iff, eq_refl,
  List, [], ◌∷◌, ◌++◌, map, Option, some, arith, find, All, contains, IsDistinct, IsDistinct-append,
  Bool-cases,
}
use dreon_notification.Go.Value.{Value}
use dreon_notification.Model.{UserFcmToken}
use dreon_notification.Repository.{is_live, has_id, updated, refused}
use dreon_notification.Repository.Schema.{fcm_tokens}
use dreon_notification.Aggregate.FcmToken.{RegisterUserFcmTokenReq}
use dreon_notification.Service.FcmToken.{assign_token}

abbrev pub tokens : List UserFcmToken → List String
tokens = map (λ r. r.token)

abbrev pub holds : String → UserFcmToken → Bool
holds t r = is_live fcm_tokens r && r.token == t

-- Every row with the token is the user's.
abbrev pub Owned : String → String → List UserFcmToken → Type 0
Owned t user = All (λ r. (r.token == t) ≡ true → r.created_by ≡ user)

pub none-Owned :
    (t user : String) (rs : List UserFcmToken) → contains t (tokens rs) ≡ false → Owned t user rs
none-Owned t user [] h = tt
none-Owned t user (r ∷ rs) h = ((λ e. absurd (ground arith)), none-Owned t user rs (ground arith))

pub find-contains :
    (t : String) (rs : List UserFcmToken) (r : UserFcmToken)
    → find (holds t) rs ≡ some r
    → contains t (tokens rs) ≡ true
find-contains t [] r h = cc
find-contains t (s ∷ rs) r h = ground (arith, find-contains t rs r)

pub clash : {b : Bool} → b ≡ false → b ≡ true → ⊥
clash h k = cc

module _ (req : RegisterUserFcmTokenReq) (meta : Option Value) (id : String) (now : ℕ) where
  -- A row after the update of a registration.
  abbrev pub reassigned : UserFcmToken → UserFcmToken
  reassigned = updated fcm_tokens (has_id fcm_tokens id) (assign_token req meta) now

  same_token : (r : UserFcmToken) → (reassigned r).token ≡ r.token
  same_token r = elim (Bool-cases (is_live fcm_tokens r && has_id fcm_tokens id r)) [
    | inl e ↦ rw e refl
    | inr e ↦ rw e refl
  ]

  pub same_tokens : (rs : List UserFcmToken) → tokens (map reassigned rs) ≡ tokens rs
  same_tokens [] = refl
  same_tokens (r ∷ rs) = rw (same_token r, same_tokens rs) refl

  met :
      (s : UserFcmToken)
      → is_live fcm_tokens s ≡ true
      → s.id ≡ id
      → is_live fcm_tokens s && has_id fcm_tokens id s ≡ true
  met s live e = rw (live, e) (eq_refl id)

  pub reassigned-Owned :
      (t : String) (rs : List UserFcmToken) (r : UserFcmToken)
      → IsDistinct (tokens rs)
      → find (holds t) rs ≡ some r
      → r.id ≡ id
      → Owned t req.user_id (map reassigned rs)
  reassigned-Owned t [] r d h same = tt
  reassigned-Owned t (s ∷ rs) r (new, d) h same = elim (Bool-cases (holds t s)) [
    | inl e ↦
        let found : s ≡ r = some-injective _ _ (rw e at h) in
        let this : s.token ≡ t = (eq_iff s.token t).0 (ground arith) in
        let its_id : is_live fcm_tokens s && has_id fcm_tokens id s ≡ true =
          met s (ground arith) (ap (λ x. x.id) found ∙ same) in
        (
          (λ k. rw its_id refl),
          none-Owned t req.user_id (map reassigned rs)
              (rw (same_tokens rs) (subst (λ x. contains x (tokens rs) ≡ false) this new)),
        )
    | inr e ↦ (
      (λ k.
          let this : s.token ≡ t = (eq_iff s.token t).0 (rw (same_token s) at k) in
          absurd (
            clash (subst (λ x. contains x (tokens rs) ≡ false) this new)
              (find-contains t rs r (rw e at h)))),
      reassigned-Owned t rs r d (rw e at h) same,
    )
  ]

  -- A row that is found by its id after the update is the user's.
  pub found-Owned :
      (rs : List UserFcmToken) (u : UserFcmToken)
      → find (λ r. is_live fcm_tokens r && has_id fcm_tokens id r) (map reassigned rs) ≡ some u
      → u.created_by ≡ req.user_id
  found-Owned [] u h = cc
  found-Owned (r ∷ rs) u h = elim (Bool-cases (is_live fcm_tokens r && has_id fcm_tokens id r)) [
    | inl e ↦ ap (λ x. x.created_by) (sym (some-injective _ _ (rw (e, e) at h)))
    | inr e ↦ found-Owned rs u (rw (e, e) at h)
  ]

-- A row that the table lets in has a token that no row has.
pub free_token :
    (rs : List UserFcmToken) (r : UserFcmToken)
    → refused fcm_tokens rs r ≡ false
    → contains r.token (tokens rs) ≡ false
free_token [] r h = refl
free_token (s ∷ rs) r h = ground (arith, free_token rs r)

pub append-IsDistinct :
    (rs : List UserFcmToken) (r : UserFcmToken)
    → IsDistinct (tokens rs)
    → refused fcm_tokens rs r ≡ false
    → IsDistinct (tokens (rs ++ r ∷ []))
append-IsDistinct rs r d h =
    rw (map-append (λ x. x.token) rs (r ∷ []))
      (IsDistinct-append r.token (tokens rs) (free_token rs r h) d)
