-- ===== src/Repository/Unique.antt =====
-- internal/repository/base.go: an UPDATE that leaves the unique column alone is never refused.
use dreon_notification.Prelude.{
  ℕ, ◌≡◌, refl, Bool, false, ◌&&◌, String, ◌==◌, eq_iff, eq_refl, List, [], ◌∷◌, map, arith, any,
  count, All, contains, IsDistinct,
}
use dreon_notification.Go.Error.{ok}
use dreon_notification.Model.{Notification}
use dreon_notification.World.{World}
use dreon_notification.Repository.{is_live, clashes_in, store, updated, update_rows}
use dreon_notification.Repository.Schema.{notifications}
use dreon_notification.Repository.Sound.{keys}

-- A key that the rows do not contain clashes with none of them.
not_contained :
    (rs : List Notification) (k : String)
    → contains k (keys rs) ≡ false
    → All (λ r. (k == r.idempotency_key) ≡ false) rs
not_contained [] k h = tt
not_contained (r ∷ rs) k h = (
  ground (arith, eq_iff k r.idempotency_key, eq_iff r.idempotency_key k),
  not_contained rs k (ground arith),
)

no_clash_head :
    (rs : List Notification) (r : Notification)
    → contains r.idempotency_key (keys rs) ≡ false
    → clashes_in notifications rs r ≡ false
no_clash_head [] r h = refl
no_clash_head (s ∷ rs) r h = ground (arith, no_clash_head rs r)

no_clash_tail :
    (s : Notification) (rs rest : List Notification)
    → All (λ r. (s.idempotency_key == r.idempotency_key) ≡ false) rest
    → All (λ r. clashes_in notifications rs r ≡ false) rest
    → All (λ r. clashes_in notifications (s ∷ rs) r ≡ false) rest
no_clash_tail s rs [] _ _ = tt
no_clash_tail s rs (r ∷ rest) (h, hs) (k, ks) = (ground arith, no_clash_tail s rs rest hs ks)

no_clash :
    (rs : List Notification)
    → IsDistinct (keys rs)
    → All (λ r. clashes_in notifications rs r ≡ false) rs
no_clash [] _ = tt
no_clash (r ∷ rs) (new, d) = (
  ground (arith, no_clash_head rs r new, eq_refl r.id),
  no_clash_tail r rs rs (not_contained rs r.idempotency_key new) (no_clash rs d),
)

module _ (p : Notification → Bool) (f : Notification → Notification)
    (same_id : (r : Notification) → (f r).id ≡ r.id)
    (same_key : (r : Notification) → (f r).idempotency_key ≡ r.idempotency_key) where
  same_clashes :
      (rs : List Notification) (r : Notification)
      → clashes_in notifications rs (f r) ≡ clashes_in notifications rs r
  same_clashes [] r = refl
  same_clashes (s ∷ rs) r = rw (same_clashes rs r, same_id r, same_key r)

  none_refused :
      (rs rest : List Notification)
      → All (λ r. clashes_in notifications rs r ≡ false) rest
      → any (λ r. is_live notifications r && p r && clashes_in notifications rs (f r)) rest ≡ false
  none_refused rs [] _ = refl
  none_refused rs (r ∷ rest) (h, hs) = ground (arith, same_clashes rs r, none_refused rs rest hs)

  pub update_rows_lem :
      (now : ℕ) (w : World)
      → IsDistinct (keys w.notifications)
      → update_rows notifications p f now w ≡ (
        ok (count (λ r. is_live notifications r && p r) w.notifications),
        store notifications (map (updated notifications p f now) w.notifications) w,
      )
  unfolding update_rows
  update_rows_lem now w d =
      rw (none_refused w.notifications w.notifications (no_clash w.notifications d))
