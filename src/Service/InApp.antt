-- ===== src/Service/InApp.antt =====
-- internal/service/notification.go, `sendInApp`: who gets a mailbox row, and that all of them are
-- written or none.
use dreon_notification.Prelude.{
  ℕ, ◌≡◌, refl, ◌⊎◌, inl, inr, Bool, true, false, ◌&&◌, ◌||◌, not, String, ◌==◌, eq_iff, eq_refl,
  All, ap, ◌∙◌, length-map, List, [], ◌∷◌, ◌++◌, map, Option, none, some, arith, any, length,
  contains, IsDistinct,
}
use dreon_notification.Go.Error.{Error, Result, ok, err}
use dreon_notification.Go.Text.{trim_space}
use dreon_notification.Model.{Mailbox, Notification}
use dreon_notification.World.{World, Env, Tables}
use dreon_notification.World.Exec.{Exec, ◌>>=◌, ◌>>◌, guard, map_error}
use dreon_notification.World.Frame.{Untouched, Untouched-refl, Untouched-trans}
use dreon_notification.Aggregate.{SendNotificationReq}
use dreon_notification.Repository.{fresh_rows, bulk_create, find_one, find_one_by_id}
use dreon_notification.Repository.Schema.{mailboxes, notifications}
use dreon_notification.Repository.Bulk.{
  bulk_create-BulkOutcome, Added, Untouched-IsFrame, find_one_by_id-Within,
}
use dreon_notification.Service.{NotificationSvc}
use dreon_notification.Service.Send.{or_fail, user_ids, mailbox_for, send_in_app}

contains-user_ids_seen :
    (seen raws : List String) (u : String)
    → contains u (user_ids seen raws)
      ≡ (contains u (map trim_space raws) && not (u == "") && not (contains u seen))
unfolding user_ids
contains-user_ids_seen seen [] u = refl
contains-user_ids_seen seen (raw ∷ rest) u = ground (
  arith,
  contains-user_ids_seen seen rest u,
  contains-user_ids_seen (trim_space raw ∷ seen) rest u,
  eq_iff (trim_space raw) u,
  eq_iff (trim_space raw) "",
  eq_iff u "",
)

IsDistinct-step :
    (b : Bool) (u : String) (skipped taken : List String)
    → (b ≡ false → contains u taken ≡ false)
    → IsDistinct skipped
    → IsDistinct taken
    → IsDistinct (elim b [ true ↦ skipped | false ↦ u ∷ taken ])
IsDistinct-step true u skipped taken new h k = h
IsDistinct-step false u skipped taken new h k = (new refl, k)

user_ids_seen-IsDistinct : (seen raws : List String) → IsDistinct (user_ids seen raws)
unfolding user_ids
user_ids_seen-IsDistinct seen [] = tt
user_ids_seen-IsDistinct seen (raw ∷ rest) =
    let user = trim_space raw in
    IsDistinct-step (user == "" || any (λ s. s == user) seen) user (user_ids seen rest)
      (user_ids (user ∷ seen) rest)
      (λ fresh. ground (arith, contains-user_ids_seen (user ∷ seen) rest user, eq_refl user))
      (user_ids_seen-IsDistinct seen rest) (user_ids_seen-IsDistinct (user ∷ seen) rest)

-- The users that get a row are exactly the recipients, trimmed, that are not blank.
contains-user_ids :
    (raws : List String) (u : String)
    → contains u (user_ids [] raws) ≡ (contains u (map trim_space raws) && not (u == ""))
contains-user_ids raws u = ground (arith, contains-user_ids_seen [] raws u)

pub owner : Mailbox → String
owner m = m.created_by

-- A row of the delivery of the request.
pub record IsRowOf (req : SendNotificationReq) (m : Mailbox) : Type 0 where
  pub same_title : m.title ≡ req.title
  pub same_message : m.message ≡ req.message
  pub same_notification : m.notification_id ≡ req.notification_id
  pub unread : m.is_read ≡ false

-- The mailbox rows that a delivery adds: one for each recipient that is not blank.
pub record Delivered (req : SendNotificationReq) (new : List Mailbox) (w v : World) : Type 0 where
  pub added : v.tables ≡ record w.tables { mailboxes = w.mailboxes ++ new }
  pub rows_of : All (IsRowOf req) new
  pub owners :
      (u : String)
      → contains u (map owner new) ≡ (contains u (map trim_space req.recipients) && not (u == ""))
  pub once : IsDistinct (map owner new)
  pub same_published : v.published ≡ w.published
  pub same_deliveries : v.deliveries ≡ w.deliveries
  pub same_cache : v.cache ≡ w.cache

module _ (env : Env) (req : SendNotificationReq) (n : ℕ) where
  rows_for : List String → List String → List Mailbox
  rows_for ids users = fresh_rows env mailboxes n ids (map (mailbox_for req) users)

  owner-rows_for :
      (ids users : List String) → length ids ≡ length users → map owner (rows_for ids users) ≡ users
  unfolding rows_for owner
  owner-rows_for [] [] h = refl
  owner-rows_for [] (u ∷ us) h = absurd (omega arith)
  owner-rows_for (id ∷ ids) [] h = absurd (omega arith)
  owner-rows_for (id ∷ ids) (u ∷ us) h = ap (◌∷◌ u) (owner-rows_for ids us (omega arith))

  rows_for-IsRowOf : (ids users : List String) → All (IsRowOf req) (rows_for ids users)
  unfolding rows_for
  rows_for-IsRowOf [] users = tt
  rows_for-IsRowOf (id ∷ ids) [] = tt
  rows_for-IsRowOf (id ∷ ids) (u ∷ us) = (
    record { same_title = refl; same_message = refl; same_notification = refl; unread = refl },
    rows_for-IsRowOf ids us,
  )

-- Either the delivery fails and changes nothing but the number of calls, or it succeeds and adds the
-- rows.
abbrev pub InAppOutcome : SendNotificationReq → World → Result (Unit {0}) × World → Type 0
InAppOutcome req w (r, v) =
    ((e : Error) × (r ≡ err e) × Untouched w v)
    ⊎ ((new : List Mailbox) × (r ≡ ok tt) × Delivered req new w v)

delivered :
    (env : Env) (req : SendNotificationReq) (n : ℕ) (ids : List String) (w u v : World)
    → Untouched w u
    → length ids ≡ length (map (mailbox_for req) (user_ids [] req.recipients))
    → Added mailboxes
        (fresh_rows env mailboxes n ids (map (mailbox_for req) (user_ids [] req.recipients)))
        u
        v
    → Delivered req (rows_for env req n ids (user_ids [] req.recipients)) w v
unfolding rows_for
delivered env req n ids w u v same len grown =
    let users = user_ids [] req.recipients in
    let named = owner-rows_for env req n ids users (len ∙ length-map (mailbox_for req) users) in
    record {
      added =
          grown.added
          ∙ ap
              (λ (t : Tables). record t { mailboxes = t.mailboxes ++ rows_for env req n ids users })
              same.same_tables;
      rows_of = rows_for-IsRowOf env req n ids users;
      owners = λ u. rw named (contains-user_ids req.recipients u);
      once = rw named (user_ids_seen-IsDistinct [] req.recipients);
      same_published = grown.same_published ∙ same.same_published;
      same_deliveries = grown.same_deliveries ∙ same.same_deliveries;
      same_cache = grown.same_cache ∙ same.same_cache;
    }

-- The outcome of a method that is run when nothing has been changed yet.
record Meets (req : SendNotificationReq) (w : World) (m : Exec (Unit {0})) : Type 0 where
  at : (u : World) → Untouched w u → InAppOutcome req w (m u)

module _ {req : SendNotificationReq} {w : World} where
  guard-at :
      (b : Bool) (e : Error) (m : Exec (Unit {0})) (u : World)
      → Untouched w u
      → InAppOutcome req w (m u)
      → InAppOutcome req w ((guard b e >> m) u)
  guard-at true e m u same h = inl (e, refl, same)
  guard-at false e m u same h = h

  Meets-guard :
      (b : Bool) (e : Error) {m : Exec (Unit {0})} → Meets req w m → Meets req w (guard b e >> m)
  Meets-guard b e {m} h = record { at = λ u same. guard-at b e m u same (h.at u same) }

  or_fail-at :
      (o : Option Notification) (e : Error) (f : Notification → Exec (Unit {0})) (u : World)
      → Untouched w u
      → ((n : Notification) → Meets req w (f n))
      → InAppOutcome req w ((or_fail o e >>= f) u)
  or_fail-at none e f u same h = inl (e, refl, same)
  or_fail-at (some n) e f u same h = (h n).at u same

  Meets-or_fail :
      (o : Option Notification) (e : Error) {f : Notification → Exec (Unit {0})}
      → ((n : Notification) → Meets req w (f n))
      → Meets req w (or_fail o e >>= f)
  Meets-or_fail o e {f} h = record { at = λ u same. or_fail-at o e f u same h }

  Meets-find :
      (env : Env) (id : String) {f : Option Notification → Exec (Unit {0})}
      → ((o : Option Notification) → Meets req w (f o))
      → Meets req w (find_one_by_id env notifications id >>= f)
  unfolding find_one_by_id find_one
  Meets-find env id {f} h = record {
    at = λ u same. (h _).at _ (
        Untouched-trans same ((find_one_by_id-Within Untouched-IsFrame env notifications id).at u));
  }

Meets-stored :
    (env : Env) (req : SendNotificationReq) (w : World) (f : Error → Error)
    → Meets req w (
        map_error f
          (bulk_create env mailboxes (map (mailbox_for req) (user_ids [] req.recipients))))
Meets-stored env req w f = record { at = stored }
  where
    users : List String
    users = user_ids [] req.recipients

    inputs : List Mailbox
    inputs = map (mailbox_for req) users

    stored :
        (u : World)
        → Untouched w u
        → InAppOutcome req w (map_error f (bulk_create env mailboxes inputs) u)
    stored u same = elim (bulk_create-BulkOutcome env mailboxes inputs u) [
      | inl (e, eq, calm) ↦ rw eq (inl (f e, refl, Untouched-trans same calm))
      | inr (n, ids, eq, len, grown) ↦
          rw eq
            (inr (rows_for env req n ids users, refl, delivered env req n ids w u _ same len grown))
    ]

meets :
    (env : Env) (svc : NotificationSvc) (req : SendNotificationReq) (w : World)
    → Meets req w (send_in_app env svc req)
unfolding send_in_app
meets env svc req w = search (Meets-guard, Meets-or_fail, Meets-find, Meets-stored) depth 12

-- A delivery to mailboxes is all or nothing: it fails and leaves the tables, the queue and the
-- clients alone, or it adds one unread row of this notification for each recipient that is not
-- blank, trimmed, and one only where a user is named twice.
pub send_in_app_lem :
    (env : Env) (svc : NotificationSvc) (req : SendNotificationReq) (w : World)
    → InAppOutcome req w (send_in_app env svc req w)
send_in_app_lem env svc req w = (meets env svc req w).at w (Untouched-refl w)
