-- ===== src/Service/Scheduled.antt =====
-- internal/service/notification.go, `EnqueueDueScheduledNotifications`: no notification is published twice
-- while its deduplication key lives.
pub mod Rounds
pub mod Tick
use mathlib.Core.Path.{subst}
use mathlib.Core.List.{append-nil, append_assoc, map-append}
use dreon_notification.Prelude.{
  ℕ, suc, ◌+◌, ◌<◌, ◌≡◌, refl, ap, sym, ◌∙◌, ◌⊎◌, inl, inr, Bool, true, false, ◌||◌, String, ◌==◌,
  eq_iff, eq_refl, List, [], ◌∷◌, ◌++◌, map, Option, none, some, arith, All, All-append, contains,
  contains-append, IsDistinct, Bool-cases, Option-cases, lt→ltb, if◌then◌else◌,
}
use dreon_notification.Go.Error.{Error, Result, ok, err}
use dreon_notification.Go.Int.{pos}
use dreon_notification.Go.Text.{append}
use dreon_notification.Go.Value.{Value, marshal, str}
use dreon_notification.Model.{Notification}
use dreon_notification.World.{World, Env, Tables, Message, text, scalar}
use dreon_notification.World.Exec.{Exec, ◌>>=◌}
use dreon_notification.Repository.Notifications.{is_due_scheduled}
use dreon_notification.Repository.Sound.{ids}
use dreon_notification.Cache.{AppCache, prefixed_key, item_at, living, is_present, set_nx}
use dreon_notification.Aggregate.{from_model}
use dreon_notification.Aggregate.Payload.{enqueue_value, enqueue_payload}
use dreon_notification.Aggregate.RoundTrip.{enqueue_payload-marshal}
use dreon_notification.Service.{NotificationSvc, Publisher}
use dreon_notification.Service.Send.{or_fail}
use dreon_notification.Service.Queue.{topic_send, payload_for, publish}
use dreon_notification.Service.Poll.{dedup_prefix, publish_scheduled, enqueue_scheduled, for_each}
use dreon_notification.Service.Published.{publish_up, publish_down}

abbrev pub uuids : List Message → List String
uuids = map (λ m. m.uuid)

-- A row of the tables, PENDING, never tried, and due at some time.
abbrev pub IsDueIn : Tables → Notification → Type 0
IsDueIn t r =
    (contains r.id (ids t.notifications) ≡ true) × ((now : ℕ) × (is_due_scheduled now r ≡ true))

-- The message of the send topic for such a row, from which a consumer reads its id and its request.
abbrev pub IsForDue : Tables → Message → Type 0
IsForDue t m =
    (r : Notification) × IsDueIn t r
    × (m.topic ≡ topic_send)
    × (m.uuid ≡ r.id)
    × (enqueue_payload m.payload ≡ some (payload_for r.id (from_model r)))

module _ (env : Env) (cache : AppCache) where
  abbrev pub key_of : String → String
  key_of id = prefixed_key cache (append dedup_prefix id)

  -- At every reading of the clock the key of each of the ids is set.
  abbrev pub Held : List String → World → Type 0
  Held xs w =
      (n : ℕ) (id : String)
      → contains id xs ≡ true
      → is_present (living (env.clock n) (item_at (key_of id) w.cache)) ≡ true

  -- What the second world has over the first: messages for rows that are due, none for an id of `xs` and
  -- none for the same id as another, and their keys.
  pub record Adds (xs : List String) (w v : World) : Type 0 where
    pub same_tables : v.tables ≡ w.tables
    pub new : List Message
    pub grown : v.published ≡ w.published ++ new
    pub due : All (IsForDue w.tables) new
    pub distinct : IsDistinct (uuids new)
    pub fresh : All (λ m. contains m.uuid xs ≡ false) new
    pub held : Held (uuids new ++ xs) v

  pub Adds-none :
      (xs : List String) (w v : World)
      → v.tables ≡ w.tables
      → v.published ≡ w.published
      → Held xs v
      → Adds xs w v
  Adds-none xs w v same quiet held = record {
    same_tables = same;
    new = [];
    grown = quiet ∙ sym (append-nil w.published);
    due = tt;
    distinct = tt;
    fresh = tt;
    held = held;
  }

  -- What is added after a step that leaves the tables and the queue alone
  pub Adds-after :
      (xs : List String) (u v w : World)
      → v.tables ≡ u.tables
      → v.published ≡ u.published
      → Adds xs v w
      → Adds xs u w
  Adds-after xs u v w same quiet b = record {
    same_tables = b.same_tables ∙ same;
    new = b.new;
    grown = b.grown ∙ ap (λ ms. ms ++ b.new) quiet;
    due = subst (λ t. All (IsForDue t) b.new) same b.due;
    distinct = b.distinct;
    fresh = b.fresh;
    held = b.held;
  }

  fresh_of_both :
      (xs ys : List String) (ms : List Message)
      → All (λ m. contains m.uuid (xs ++ ys) ≡ false) ms
      → All (λ m. contains m.uuid xs ≡ false) ms × All (λ m. contains m.uuid ys ≡ false) ms
  fresh_of_both xs ys [] h = (tt, tt)
  fresh_of_both xs ys (m ∷ ms) (p, h) =
      let (a, b) = fresh_of_both xs ys ms h in
      (
        (ground (arith, contains-append m.uuid xs ys), a),
        (ground (arith, contains-append m.uuid xs ys), b),
      )

  head_apart :
      (u : String) (xs : List String) (ns : List Message)
      → All (λ n. contains n.uuid (u ∷ xs) ≡ false) ns
      → (contains u (uuids ns) ≡ false) × All (λ n. contains n.uuid xs ≡ false) ns
  head_apart u xs [] h = (refl, tt)
  head_apart u xs (n ∷ ns) (p, h) =
      let (a, b) = head_apart u xs ns h in
      ((ground (arith, eq_iff u n.uuid, eq_iff n.uuid u)), ((ground arith), b))

  IsDistinct-both :
      (ms ns : List Message)
      → IsDistinct (uuids ms)
      → IsDistinct (uuids ns)
      → All (λ m. contains m.uuid (uuids ms) ≡ false) ns
      → IsDistinct (uuids (ms ++ ns))
  IsDistinct-both [] ns h k f = k
  IsDistinct-both (m ∷ ms) ns (new, h) k f =
      let (apart, f') = head_apart m.uuid (uuids ms) ns f in
      (
        rw (map-append (λ x. x.uuid) ms ns)
            (rw (contains-append m.uuid (uuids ms) (uuids ns), new, apart) refl),
        IsDistinct-both ms ns h k f',
      )

  either_order :
      (id : String) (ms ns : List Message) (xs : List String)
      → contains id (uuids (ms ++ ns) ++ xs) ≡ true
      → contains id (uuids ns ++ (uuids ms ++ xs)) ≡ true
  either_order id ms ns xs h = ground (
    arith,
    contains-append id (uuids (ms ++ ns)) xs,
    contains-append id (uuids ns) (uuids ms ++ xs),
    contains-append id (uuids ms) xs,
    contains-append id (uuids ms) (uuids ns),
    ap (contains id) (map-append (λ (x : Message). x.uuid) ms ns),
  )

  pub Adds-trans :
      (xs : List String) (u v w : World)
      → (a : Adds xs u v) → Adds (uuids a.new ++ xs) v w
      → Adds xs u w
  Adds-trans xs u v w a b =
      let (apart, fresh) = fresh_of_both (uuids a.new) xs b.new b.fresh in
      record {
        same_tables = b.same_tables ∙ a.same_tables;
        new = a.new ++ b.new;
        grown = b.grown ∙ ap (λ ms. ms ++ b.new) a.grown ∙ append_assoc u.published a.new b.new;
        due =
            All-append (IsForDue u.tables) a.new b.new a.due
              (subst (λ t. All (IsForDue t) b.new) a.same_tables b.due);
        distinct = IsDistinct-both a.new b.new a.distinct b.distinct apart;
        fresh = All-append (λ m. contains m.uuid xs ≡ false) a.new b.new a.fresh fresh;
        held = λ n id h. b.held n id (either_order id a.new b.new xs h);
      }
