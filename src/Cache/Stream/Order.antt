-- ===== src/Cache/Stream/Order.antt =====
-- pkg/cache/cache.go, `Publish` and `Subscribe`: what a subscription handles, in which order.
use mathlib.Core.Path.{subst}
use mathlib.Core.Option.{some-injective}
use mathlib.Core.List.{append-nil, append_assoc}
use dreon_notification.Prelude.{
  ℕ, zero, suc, ◌≤◌, ◌≡◌, refl, sym, ap, ◌∙◌, inl, inr, String, ◌==◌, eq_refl, List, [], ◌∷◌, ◌++◌,
  Option, none, some, length, length-append, drop, arith, Bool-cases, true,
}
use dreon_notification.Go.Error.{Error}
use dreon_notification.Cache.{AppCache, prefixed_key}
use dreon_notification.Cache.Stream.{
  Group, Stream, Redis, Answers, group_at, stream_at, or_empty, put_stream, put_group, counted,
  acknowledge, add_entry, add_encoded, publish, hand_out, from_group, read_group, turn,
}

drop-suc :
    {A : Type 0} (n : ℕ) (xs : List A) (d : A) (rest : List A)
    → drop n xs ≡ d ∷ rest
    → (drop (suc n) xs ≡ rest) × (suc n ≤ length xs)
drop-suc zero [] d rest h = cc
drop-suc (suc n) [] d rest h = cc
drop-suc zero (x ∷ xs) d rest h = (ap (drop 1) h, omega arith)
drop-suc (suc n) (x ∷ xs) d rest h = let (a, b) = drop-suc n xs d rest h in (a, omega (arith, b))

drop-append :
    {A : Type 0} (n : ℕ) (xs ys : List A) → n ≤ length xs → drop n (xs ++ ys) ≡ drop n xs ++ ys
drop-append zero xs ys h = refl
drop-append (suc n) [] ys h = absurd (omega arith)
drop-append (suc n) (x ∷ xs) ys h = drop-append n xs ys (omega arith)

-- What happens to a stream that has a subscription.
pub data Act (Message : Type 0) : Type 0 where
  publishing : Message → Act Message
  reading : Act Message

module _ {Data Message : Type 0} (redis : Answers) (encode : Message → Option Data) (c : AppCache)
    (stream group : String) where
  abbrev pub act : Act Message → Redis Data → Redis Data
  act (publishing m) r = (publish redis encode c stream m r).1
  act reading r = turn redis encode c stream group r

  pub act_all : List (Act Message) → Redis Data → Redis Data
  act_all [] r = r
  act_all (a ∷ rest) r = act_all rest (act a r)

  -- The entry that an accepted publication adds.
  abbrev pub accepted : Option Error → Option Data → List Data
  accepted (some e) d = []
  accepted none none = []
  accepted none (some d) = d ∷ []

  abbrev pub added : Act Message → Redis Data → List Data
  added (publishing m) r = accepted (publish redis encode c stream m r).0 (encode m)
  added reading r = []

  pub added_by : List (Act Message) → Redis Data → List Data
  added_by [] r = []
  added_by (a ∷ rest) r = added a r ++ added_by rest (act a r)

  abbrev pub stream_of : Redis Data → Stream Data
  stream_of r = or_empty (stream_at (prefixed_key c stream) r.streams)

  -- The entries that the group has not been handed.
  abbrev pub left_for : Stream Data → Option Group → List Data
  left_for s none = []
  left_for s (some g) = drop g.next s.entries

  abbrev pub waiting : Redis Data → List Data
  waiting r = left_for (stream_of r) (group_at group (stream_of r).groups)

  -- The group is there, and has been handed entries of the stream only.
  abbrev pub IsSubscribed : Redis Data → Type 0
  IsSubscribed r =
      (g : Group) × (group_at group (stream_of r).groups ≡ some g)
      × (g.next ≤ length (stream_of r).entries)

  -- Nothing is lost, repeated or out of order in a step.
  abbrev Conserves : List Data → Redis Data → Redis Data → Type 0
  Conserves new r v = IsSubscribed v × (v.handled ++ waiting v ≡ r.handled ++ waiting r ++ new)

  idle-Conserves :
      (r v : Redis Data)
      → v.handled ≡ r.handled
      → v.streams ≡ r.streams
      → IsSubscribed r
      → Conserves [] r v
  idle-Conserves r v same_handled same_streams h =
      rw (same_handled, same_streams) (h, sym (append-nil (r.handled ++ waiting r)))

  -- The stream has been replaced by one with the group `g`, which leaves the entries `rest`.
  replaced-Conserves :
      (new : List Data) (s : Stream Data) (g : Group) (r v : Redis Data)
      → v.streams ≡ (prefixed_key c stream, s) ∷ r.streams
      → group_at group s.groups ≡ some g
      → g.next ≤ length s.entries
      → v.handled ++ drop g.next s.entries ≡ r.handled ++ waiting r ++ new
      → Conserves new r v
  unfolding stream_at
  replaced-Conserves new s g r v same there fits order =
      rw (same, eq_refl (prefixed_key c stream), there) ((g, refl, fits), order)

  entry-Conserves :
      (d : Data) (e : Option Error) (r : Redis Data)
      → IsSubscribed r
      → let (answer, v) = add_entry redis encode c (prefixed_key c stream) d e r in
        Conserves (accepted answer (some d)) r v
  entry-Conserves d (some e) r h = idle-Conserves r (counted r) refl refl h
  entry-Conserves d none r (g, there, fits) =
      let es = (stream_of r).entries in
      replaced-Conserves (d ∷ []) (record (stream_of r) { entries = es ++ d ∷ [] }) g r
        (put_stream (prefixed_key c stream) (record (stream_of r) { entries = es ++ d ∷ [] })
          (counted r))
        refl there (omega (arith, length-append es (d ∷ [])))
        (rw there (
          ap (λ ds. r.handled ++ ds) (drop-append g.next es (d ∷ []) fits)
          ∙ sym (append_assoc r.handled (drop g.next es) (d ∷ []))))

  group_at-name :
      (gs : List Group) (g : Group) → group_at group gs ≡ some g → (g.name == group) ≡ true
  unfolding group_at
  group_at-name [] g h = cc
  group_at-name (f ∷ gs) g h = elim (Bool-cases (f.name == group)) [
    | inl e ↦ subst (λ x. (x.name == group) ≡ true) (some-injective _ _ (rw e at h)) e
    | inr e ↦ group_at-name gs g (rw e at h)
  ]

  -- The group has been handed one entry more, and the handler called with it.
  moved-Conserves :
      (g g' : Group) (d : Data) (rest : List Data) (r u : Redis Data)
      → group_at group (stream_of r).groups ≡ some g
      → drop g.next (stream_of r).entries ≡ d ∷ rest
      → g'.name ≡ g.name
      → g'.next ≡ suc g.next
      → u.streams ≡ r.streams
      → u.handled ≡ r.handled ++ d ∷ []
      → Conserves [] r (put_stream (prefixed_key c stream) (put_group g' (stream_of r)) (counted u))
  unfolding group_at
  moved-Conserves g g' d rest r u there left named moved streams handled =
      let s = stream_of r in
      let (behind, fits) = drop-suc g.next s.entries d rest left in
      replaced-Conserves [] (put_group g' s) g' r
        (put_stream (prefixed_key c stream) (put_group g' s) (counted u))
        (ap (◌∷◌ (prefixed_key c stream, put_group g' s)) streams)
        (rw (named, group_at-name s.groups g there) refl) (rw moved fits)
        (rw (moved, handled)
          (append_assoc r.handled (d ∷ []) (drop (suc g.next) s.entries)
            ∙ ap (λ ds. r.handled ++ (d ∷ ds)) behind
            ∙ ap (λ ds. r.handled ++ ds) (sym left)
            ∙ ap (λ o. r.handled ++ left_for s o) (sym there)
            ∙ sym (append-nil (r.handled ++ waiting r))))

  acknowledged-Conserves :
      (g : Group) (d : Data) (rest : List Data) (e : Option Error) (r u : Redis Data)
      → group_at group (stream_of r).groups ≡ some g
      → drop g.next (stream_of r).entries ≡ d ∷ rest
      → u.streams ≡ r.streams
      → u.handled ≡ r.handled ++ d ∷ []
      → Conserves [] r (
          acknowledge redis encode c
            (prefixed_key c stream)
            (stream_of r)
            g.next
            (record g { next = suc g.next; pending = g.next ∷ g.pending })
            e
            u)
  acknowledged-Conserves g d rest (some e) r u there left streams handled =
      moved-Conserves g _ d rest r u there left refl refl streams handled
  acknowledged-Conserves g d rest none r u there left streams handled =
      moved-Conserves g _ d rest r u there left refl refl streams handled

  handed-Conserves :
      (g : Group) (ds : List Data) (r : Redis Data)
      → group_at group (stream_of r).groups ≡ some g
      → g.next ≤ length (stream_of r).entries
      → drop g.next (stream_of r).entries ≡ ds
      → Conserves [] r
          (hand_out redis encode c (prefixed_key c stream) (stream_of r) g ds (counted r))
  handed-Conserves g [] r there fits left = idle-Conserves r (counted r) refl refl (g, there, fits)
  handed-Conserves g (d ∷ rest) r there fits left =
      acknowledged-Conserves g d rest (redis.fault (suc r.calls)) r
        (record (counted r) { handled = r.handled ++ d ∷ [] }) there left refl refl

  turn-Conserves :
      (e : Option Error) (r : Redis Data)
      → IsSubscribed r
      → Conserves [] r (read_group redis encode c (prefixed_key c stream) group e r)
  turn-Conserves (some e) r h = idle-Conserves r (counted r) refl refl h
  turn-Conserves none r (g, there, fits) =
      subst
        (λ o.
          Conserves [] r
            (from_group redis encode c (prefixed_key c stream) (stream_of r) o (counted r)))
        (sym there) (handed-Conserves g (drop g.next (stream_of r).entries) r there fits refl)

  encoded-Conserves :
      (o : Option Data) (r : Redis Data)
      → IsSubscribed r
      → let (answer, v) = add_encoded redis encode c (prefixed_key c stream) o r in
        Conserves (accepted answer o) r v
  encoded-Conserves none r h = idle-Conserves r r refl refl h
  encoded-Conserves (some d) r h = entry-Conserves d (redis.fault r.calls) r h

  act-Conserves :
      (a : Act Message) (r : Redis Data) → IsSubscribed r → Conserves (added a r) r (act a r)
  unfolding publish turn
  act-Conserves reading r h = turn-Conserves (redis.fault r.calls) r h
  act-Conserves (publishing m) r h = encoded-Conserves (encode m) r h

  -- What has been handled, followed by what waits, is what was handled, followed by what waited and what
  -- was published.
  abbrev pub OrderOutcome : List (Act Message) → Redis Data → Redis Data → Type 0
  OrderOutcome acts r v =
      IsSubscribed v × (v.handled ++ waiting v ≡ r.handled ++ waiting r ++ added_by acts r)

  -- For any publications to a stream and turns of its subscription, in any order, from a state where the
  -- group exists, and whichever calls of Redis or of gob fail: the group still exists, and the messages
  -- that have been handled, followed by those that wait, are the messages that had been handled, followed
  -- by those that waited and by the entries of the publications that returned no error, in order.
  pub act_all-OrderOutcome :
      (acts : List (Act Message)) (r : Redis Data)
      → IsSubscribed r
      → OrderOutcome acts r (act_all acts r)
  unfolding act_all added_by
  act_all-OrderOutcome [] r h = (h, sym (append-nil (r.handled ++ waiting r)))
  act_all-OrderOutcome (a ∷ acts) r h =
      let (ready, order) = act-Conserves a r h in
      let (ready', order') = act_all-OrderOutcome acts (act a r) ready in
      (
        ready',
        order'
            ∙ ap (λ ds. ds ++ added_by acts (act a r)) order
            ∙ append_assoc (r.handled ++ waiting r) (added a r) (added_by acts (act a r)),
      )
