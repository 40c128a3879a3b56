-- ===== src/Service/Scheduled/Rounds.antt =====
-- internal/service/notification.go, `EnqueueDueScheduledNotifications`: the loop over the rows.
use mathlib.Core.Path.{subst}
use dreon_notification.Prelude.{
  ℕ, suc, ◌+◌, ◌<◌, ◌≡◌, refl, ap, sym, inl, inr, Bool, true, false, String, ◌==◌, eq_iff, List, [],
  ◌∷◌, ◌++◌, Option, none, some, arith, All, contains, Bool-cases, Option-cases, lt→ltb,
}
use dreon_notification.Go.Error.{Error}
use dreon_notification.Go.Int.{pos}
use dreon_notification.Go.Value.{Value, marshal, str}
use dreon_notification.Model.{Notification}
use dreon_notification.World.{World, Env, Message, text, scalar}
use dreon_notification.World.Exec.{◌>>=◌}
use dreon_notification.Cache.{AppCache, item_at, living, is_present, set_nx}
use dreon_notification.Aggregate.{from_model}
use dreon_notification.Aggregate.Payload.{enqueue_value}
use dreon_notification.Aggregate.RoundTrip.{enqueue_payload-marshal}
use dreon_notification.Service.{NotificationSvc, Publisher}
use dreon_notification.Service.Send.{or_fail}
use dreon_notification.Service.Queue.{topic_send, payload_for, publish}
use dreon_notification.Service.Poll.{publish_scheduled, enqueue_scheduled, for_each}
use dreon_notification.Service.Published.{publish_up, publish_down}
use dreon_notification.Service.Scheduled.{uuids, IsDueIn, key_of, Held, Adds, Adds-none, Adds-trans}

clash : {b : Bool} → b ≡ false → b ≡ true → ⊥
clash h k = cc

-- Every key lives longer than the clock can tell.
module _ (env : Env) (svc : NotificationSvc) (cache : AppCache) (p : Publisher) (d : ℕ)
    (early : (m n : ℕ) → env.clock n < env.clock m + suc d) where
  marked : String → World → World
  marked id w = record w {
    cache =
        (key_of env cache id, text (scalar (str "1")) (some (env.clock w.calls + suc d))) ∷ w.cache;
    calls = suc w.calls;
  }

  marked-Held :
      (xs : List String) (id : String) (w : World)
      → Held env cache xs w
      → Held env cache (id ∷ xs) (marked id w)
  unfolding marked item_at
  marked-Held xs id w held n j h = elim (Bool-cases (key_of env cache id == key_of env cache j)) [
    | inl e ↦ rw (e, lt→ltb (env.clock n) (env.clock w.calls + suc d) (early w.calls n)) refl
    | inr e ↦ elim (Bool-cases (id == j)) [
      | inl same ↦
          let keys = ap (key_of env cache) ((eq_iff id j).0 same) in
          absurd (clash e ((eq_iff (key_of env cache id) (key_of env cache j)).1 keys))
      | inr differs ↦ rw e (held n j (rw differs at h))
    ]
  ]

  fewer-Held :
      (xs : List String) (id : String) (v : World)
      → Held env cache (id ∷ xs) v
      → Held env cache xs v
  fewer-Held xs id v held n j h = held n j (ground arith)

  -- The rest of a round whose key is new.
  published-Adds :
      (xs : List String) (r : Notification) (w : World) (o : Option Value) (e : Error)
      → IsDueIn w.tables r
      → Held env cache xs w
      → contains r.id xs ≡ false
      → marshal (enqueue_value (payload_for r.id (from_model r))) ≡ o
      → Adds env cache xs w
          ((do
            document ← or_fail o e
            publish p (record { topic = topic_send; uuid = r.id; payload = some document }))
            (marked r.id w)).1
  unfolding marked
  published-Adds xs r w none e due held apart h =
      Adds-none env cache xs w (marked r.id w) refl refl
        (fewer-Held xs r.id (marked r.id w) (marked-Held xs r.id w held))
  published-Adds xs r w (some doc) e due held apart h =
      let m : Message = record { topic = topic_send; uuid = r.id; payload = some doc } in
      let u = marked r.id w in
      let kept = marked-Held xs r.id w held in
      elim (Option-cases (p.publish u.calls m)) [
        | inl up ↦ rw (publish_up p m u up) (record {
          same_tables = refl;
          new = m ∷ [];
          grown = refl;
          due = (
            (r, due, refl, refl, enqueue_payload-marshal (payload_for r.id (from_model r)) doc h),
            tt,
          );
          distinct = (refl, tt);
          fresh = (apart, tt);
          held = kept;
        })
        | inr (f, down) ↦
            rw (publish_down p m u f down)
              (Adds-none env cache xs w _ refl refl (fewer-Held xs r.id u kept))
      ]

  round-Adds :
      (xs : List String) (r : Notification) (w : World)
      → IsDueIn w.tables r
      → Held env cache xs w
      → Adds env cache xs w (enqueue_scheduled env svc p cache (pos (suc d)) r w).1
  unfolding enqueue_scheduled set_nx publish_scheduled marked
  round-Adds xs r w due held = elim (Option-cases (env.redis_fault w.calls)) [
    | inr (e, down) ↦ rw down (Adds-none env cache xs w _ refl refl held)
    | inl up ↦
        elim (Bool-cases
          (is_present (living (env.clock w.calls) (item_at (key_of env cache r.id) w.cache)))) [
            | inl set ↦ rw (up, set) (Adds-none env cache xs w _ refl refl held)
            | inr free ↦
                rw (up, free)
                  (published-Adds xs r w _ _ due held
                    (elim (Bool-cases (contains r.id xs)) [
                      | inl e ↦ absurd (clash free (held w.calls r.id e))
                      | inr e ↦ e
                    ])
                    refl)
          ]
  ]

  pub rounds-Adds :
      (xs : List String) (rs : List Notification) (w : World)
      → All (IsDueIn w.tables) rs
      → Held env cache xs w
      → Adds env cache xs w (for_each (enqueue_scheduled env svc p cache (pos (suc d))) rs w).1
  unfolding for_each
  rounds-Adds xs [] w _ held = Adds-none env cache xs w w refl refl held
  rounds-Adds xs (r ∷ rs) w (due, later) held =
      let a = round-Adds xs r w due held in
      let v = (enqueue_scheduled env svc p cache (pos (suc d)) r w).1 in
      Adds-trans env cache xs w v _ a (
        rounds-Adds (uuids a.new ++ xs) rs v
          (subst (λ t. All (IsDueIn t) rs) (sym a.same_tables) later) a.held)
