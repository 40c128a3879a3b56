-- ===== src/Cache/Stream.antt =====
-- pkg/cache/cache.go: the streams. gob is a parameter, with its bytes as a type; Redis holds the entries of
-- a stream in order, and for each consumer group how many of them it has handed out and which of these are
-- not acknowledged. The errors of Redis are a parameter too, by the number of the call.
pub mod Order
use dreon_notification.Prelude.{
  ℕ, suc, Bool, true, false, String, ◌==◌, List, [], ◌∷◌, ◌++◌, Option, none, some, length, drop,
  select, ltb, ◌||◌, if◌then◌else◌,
}
use dreon_notification.Go.Error.{Error, context, plain}
use dreon_notification.Cache.{AppCache, prefixed_key}

pub record Group : Type 0 where
  pub name : String
  pub next : ℕ
  pub pending : List ℕ

pub record Stream (Data : Type 0) : Type 0 where
  pub entries : List Data
  pub groups : List Group

-- The streams of Redis, of which an earlier one hides the later ones under its key, and what the handler
-- of a subscription was called with.
pub record Redis (Data : Type 0) : Type 0 where
  pub streams : List (String × Stream Data)
  pub handled : List Data
  pub calls : ℕ

-- How Redis answers: a call fails or not; a group that is there is not created again. `is_busy` is
-- whether the text of an error contains `BUSYGROUP`.
pub record Answers : Type 0 where
  pub fault : ℕ → Option Error
  pub busy_group : Error
  pub is_busy : Error → Bool

unfoldable pub group_at : String → List Group → Option Group
group_at name [] = none
group_at name (g ∷ gs) = if g.name == name then some g else group_at name gs

abbrev pub same_number : ℕ → ℕ → Bool
same_number a b = if ltb a b then false else if ltb b a then false else true

-- XACK
abbrev pub acknowledged : ℕ → Group → Group
acknowledged id g = record g {
  pending = select (λ p. if same_number p id then false else true) g.pending;
}

module _ {Data : Type 0} where
  unfoldable pub stream_at : String → List (String × Stream Data) → Option (Stream Data)
  stream_at k [] = none
  stream_at k ((j, s) ∷ rest) = if j == k then some s else stream_at k rest

  -- A command creates a stream that is missing.
  abbrev pub or_empty : Option (Stream Data) → Stream Data
  or_empty none = record { entries = []; groups = [] }
  or_empty (some s) = s

  abbrev pub put_stream : String → Stream Data → Redis Data → Redis Data
  put_stream k s r = record r { streams = (k, s) ∷ r.streams }

  abbrev pub put_group : Group → Stream Data → Stream Data
  put_group g s = record s { groups = g ∷ s.groups }

  abbrev pub counted : Redis Data → Redis Data
  counted r = record r { calls = suc r.calls }

module _ {Data Message : Type 0} (redis : Answers) (encode : Message → Option Data)
    (c : AppCache) where
  abbrev pub add_entry : String → Data → Option Error → Redis Data → Option Error × Redis Data
  add_entry k d (some e) r = (some e, counted r)
  add_entry k d none r =
      let s = or_empty (stream_at k r.streams) in
      (none, put_stream k (record s { entries = s.entries ++ d ∷ [] }) (counted r))

  abbrev pub add_encoded : String → Option Data → Redis Data → Option Error × Redis Data
  add_encoded k none r = (some (context "failed to encode message" (plain "gob")), r)
  add_encoded k (some d) r = add_entry k d (redis.fault r.calls) r

  -- `Publish`
  unfoldable pub publish : String → Message → Redis Data → Option Error × Redis Data
  publish stream message = add_encoded (prefixed_key c stream) (encode message)

  abbrev pub unless_busy : Error → Option Error
  unless_busy e = if redis.is_busy e then none else some e

  abbrev pub create_group :
      String → String → Option Error → Option Group → Redis Data → Option Error × Redis Data
  create_group k group (some e) g r = (unless_busy e, counted r)
  create_group k group none (some g) r = (unless_busy redis.busy_group, counted r)
  create_group k group none none r =
      let s = or_empty (stream_at k r.streams) in
      (
        none,
        put_stream k (put_group (record { name = group; next = length s.entries; pending = [] }) s)
            (counted r),
      )

  -- `EnsureGroup`, with XGROUP CREATE MKSTREAM at `$`
  unfoldable pub ensure_group : String → String → Redis Data → Option Error × Redis Data
  ensure_group stream group r =
      let k = prefixed_key c stream in
      create_group k group (redis.fault r.calls)
        (group_at group (or_empty (stream_at k r.streams)).groups) r

  -- The handler has been called with the entry; its acknowledgement may fail.
  abbrev pub acknowledge : String → Stream Data → ℕ → Group → Option Error → Redis Data → Redis Data
  acknowledge k s id g (some e) r = put_stream k (put_group g s) (counted r)
  acknowledge k s id g none r = put_stream k (put_group (acknowledged id g) s) (counted r)

  abbrev pub hand_out : String → Stream Data → Group → List Data → Redis Data → Redis Data
  hand_out k s g [] r = r
  hand_out k s g (d ∷ rest) r =
      let taken = record g { next = suc g.next; pending = g.next ∷ g.pending } in
      acknowledge k s g.next taken (redis.fault r.calls)
        (record r { handled = r.handled ++ d ∷ [] })

  abbrev pub from_group : String → Stream Data → Option Group → Redis Data → Redis Data
  from_group k s none r = r
  from_group k s (some g) r = hand_out k s g (drop g.next s.entries) r

  abbrev pub read_group : String → String → Option Error → Redis Data → Redis Data
  read_group k group (some e) r = counted r
  read_group k group none r =
      let s = or_empty (stream_at k r.streams) in
      from_group k s (group_at group s.groups) (counted r)

  -- One turn of the loop of `Subscribe`: an error is logged, and with no entry the call blocks.
  unfoldable pub turn : String → String → Redis Data → Redis Data
  turn stream group r = read_group (prefixed_key c stream) group (redis.fault r.calls) r
