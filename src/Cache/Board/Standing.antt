-- ===== src/Cache/Board/Standing.antt =====
-- pkg/cache/cache.go, leaderboards: what the reads return after any changes.
use dreon_notification.Prelude.{
  ℕ, suc, ◌<◌, ◌^◌, ◌≡◌, refl, sym, ap, ◌∙◌, ◌⊎◌, inl, inr, String, ◌==◌, eq_refl, List, [], ◌∷◌,
  Option, none, some, arith, take, take_all, ◌-◌, length, if◌then◌else◌,
}
use dreon_notification.Go.Error.{Result, ok, err, outside}
use dreon_notification.Go.Int.{pos, sub_int64, sub_int64-one}
use dreon_notification.World.{World, Env, Item, Entry, board}
use dreon_notification.World.Exec.{Exec}
use dreon_notification.Cache.{AppCache, prefixed_key, item_at, remove_key}
use dreon_notification.Cache.Board.{
  without_member, place, score_of, rev_range, entries, put_entries, add_score, get_top_n, get_rank,
  remove_member,
}
use dreon_notification.Cache.Board.Order.{
  IsOrdered, IsRank, without_member-IsFresh, without_member-IsOrdered, place-IsOrdered,
  score_of-without_member, score_of-place, rank_of-Standing,
}

pub data Change : Type 0 where
  score : String → ℕ → Change
  leave : String → Change

-- The score that a member has after the changes, the last of which is the first in the list.
abbrev pub last_score : List Change → String → Option ℕ
last_score [] m = none
last_score (score j s ∷ before) m = if j == m then some s else last_score before m
last_score (leave j ∷ before) m = if j == m then none else last_score before m

module _ (env : Env) (c : AppCache) (key : String) where
  unfoldable pub change : Change → Exec (Unit {0})
  change (score m s) = add_score env c key m s
  change (leave m) = remove_member env c key m

  pub change_all : List Change → World → World
  change_all [] w = w
  change_all (x ∷ before) w = (change x (change_all before w)).1

  -- Redis holds the entries under the key, with no time to expire.
  abbrev pub Holds : List Entry → World → Type 0
  Holds es w =
      ((es ≡ []) × (item_at (prefixed_key c key) w.cache ≡ none))
      ⊎ (item_at (prefixed_key c key) w.cache ≡ some (board es))

  item_at-remove_key :
      (items : List (String × Item))
      → item_at (prefixed_key c key) (remove_key (prefixed_key c key) items) ≡ none
  unfolding item_at
  item_at-remove_key [] = refl
  item_at-remove_key ((j, i) ∷ items) = ground (arith, item_at-remove_key items)

  put_entries-Holds : (es : List Entry) (w : World) → Holds es (put_entries env c key es w).1
  unfolding item_at
  put_entries-Holds [] w = inl (refl, item_at-remove_key w.cache)
  put_entries-Holds (e ∷ es) w = inr (rw (eq_refl (prefixed_key c key)) refl)

  -- The entries are those of the members' last scores, in order.
  abbrev IsAfter : List Change → List Entry → World → Type 0
  IsAfter xs es w = Holds es w × IsOrdered es × ((j : String) → score_of j es ≡ last_score xs j)

  -- What `GetRank` returns: the place among the entries, counted from 1, and the last score.
  abbrev pub RankOutcome : List Change → String → List Entry → Result (ℕ × ℕ) → Type 0
  RankOutcome xs m es r =
      ((last_score xs m ≡ none) × (r ≡ err (outside "redis: nil")))
      ⊎ ((k : ℕ) × (s : ℕ) × (last_score xs m ≡ some s) × (r ≡ ok (suc k, s)) × IsRank k s es)

  module _ (up : (n : ℕ) → env.redis_fault n ≡ none) where
    entries-Holds :
        (es : List Entry) (w : World)
        → Holds es w
        → entries env c key w ≡ (ok es, record w { calls = suc w.calls })
    entries-Holds es w (inl (empty, absent)) = rw (up w.calls, absent, empty) refl
    entries-Holds es w (inr held) = rw (up w.calls, held) refl

    change-IsAfter :
        (x : Change) (xs : List Change) (es : List Entry) (w : World)
        → IsAfter xs es w
        → (fs : List Entry) × IsAfter (x ∷ xs) fs (change x w).1
    unfolding change add_score remove_member
    change-IsAfter (score m s) xs es w (held, ordered, scored) =
        let e : Entry = record { member = m; score = s } in
        let rest = without_member m es in
        (
          place e rest,
          (
            rw (entries-Holds es w held) (put_entries-Holds (place e rest) _),
            place-IsOrdered e rest (without_member-IsFresh m es)
                (without_member-IsOrdered m es ordered),
            λ j. ground (
              arith,
              score_of-place e j rest (without_member-IsFresh m es),
              score_of-without_member m j es,
              scored j,
            ),
          ),
        )
    change-IsAfter (leave m) xs es w (held, ordered, scored) = (
      without_member m es,
      (
        rw (entries-Holds es w held) (put_entries-Holds (without_member m es) _),
        without_member-IsOrdered m es ordered,
        λ j. ground (arith, score_of-without_member m j es, scored j),
      ),
    )

    change_all-IsAfter :
        (xs : List Change) (w : World)
        → item_at (prefixed_key c key) w.cache ≡ none
        → (es : List Entry) × IsAfter xs es (change_all xs w)
    unfolding change_all score_of
    change_all-IsAfter [] w absent = ([], (inl (refl, absent), tt, λ j. refl))
    change_all-IsAfter (x ∷ xs) w absent =
        let (es, h) = change_all-IsAfter xs w absent in change-IsAfter x xs es (change_all xs w) h

    get_rank-RankOutcome :
        (xs : List Change) (m : String) (es : List Entry) (v : World)
        → IsAfter xs es v
        → RankOutcome xs m es (get_rank env c key m v).0
    unfolding get_rank
    get_rank-RankOutcome xs m es v (held, ordered, scored) =
        let again = entries-Holds es (record v { calls = suc v.calls }) held in
        rw (entries-Holds es v held) elim (rank_of-Standing m es ordered) [
          | inl (no_rank, no_score) ↦ rw no_rank (inl (sym (scored m) ∙ no_score, refl))
          | inr (k, s, ranked, found, counts) ↦
              rw (ranked, again, found) (inr (k, s, sym (scored m) ∙ found, refl, counts))
        ]

    get_top_n-take :
        (n : ℕ) (es : List Entry) (v : World)
        → suc n < 2 ^ 63
        → Holds es v
        → (get_top_n env c key (pos (suc n)) v).0 ≡ ok (take (suc n) es)
    unfolding get_top_n rev_range
    get_top_n-take n es v h held = rw (entries-Holds es v held, sub_int64-one n h) refl

    get_top_n-zero :
        (es : List Entry) (v : World) → Holds es v → (get_top_n env c key (pos 0) v).0 ≡ ok es
    unfolding get_top_n rev_range sub_int64
    get_top_n-zero es v held =
        rw (entries-Holds es v held) (ap ok (take_all (length es - 0) es (omega arith)))

    -- With a Redis that answers, whatever scores are added to a leaderboard that was not there, and
    -- whatever members are removed: its entries hold each member once, with the last score added since the
    -- member was removed if it was, and the scores go down. `GetRank` fails for a member with no score;
    -- else it returns that score and the member's place, counted from 1, before which there are at least
    -- the members with a higher score, and no more than those with one as high. `GetTopN` returns the first
    -- n entries for n from 1 to 2^63 - 2, but all of them for 0.
    pub change_all-IsLeaderboard :
        (xs : List Change) (m : String) (n : ℕ) (w : World)
        → item_at (prefixed_key c key) w.cache ≡ none
        → suc n < 2 ^ 63
        → let v : World = change_all xs w in
          (es : List Entry) × IsOrdered es
          × ((j : String) → score_of j es ≡ last_score xs j)
          × RankOutcome xs m es (get_rank env c key m v).0
          × ((get_top_n env c key (pos (suc n)) v).0 ≡ ok (take (suc n) es))
          × ((get_top_n env c key (pos 0) v).0 ≡ ok es)
    change_all-IsLeaderboard xs m n w absent small =
        let (es, (held, ordered, scored)) = change_all-IsAfter xs w absent in
        let v = change_all xs w in
        (
          es,
          ordered,
          scored,
          get_rank-RankOutcome xs m es v (held, ordered, scored),
          get_top_n-take n es v small held,
          get_top_n-zero es v held,
        )
