-- ===== src/Cache/Board/Order.antt =====
-- pkg/cache/cache.go, leaderboards: the entries of a sorted set stay in order, with one of each member, and
-- a rank is a count of scores.
use dreon_notification.Prelude.{
  ℕ, suc, ◌≤◌, ◌<◌, ◌≡◌, refl, ◌⊎◌, inl, inr, true, false, String, ◌==◌, eq_iff, List, [], ◌∷◌,
  none, some, arith, All, count, ltb, leb, Bool-cases, if◌then◌else◌,
}
use dreon_notification.World.{Entry}
use dreon_notification.Cache.Board.{stands_above, without_member, place, rank_of, score_of}

abbrev pub IsFresh : String → List Entry → Type 0
IsFresh m es = All (λ e. (e.member == m) ≡ false) es

-- The scores go down, and no member is there twice.
abbrev pub IsOrdered : List Entry → Type 0
IsOrdered [] = Unit
IsOrdered (e ∷ es) = All (λ f. f.score ≤ e.score) es × IsFresh e.member es × IsOrdered es

module _ (P : Entry → Type 0) where
  All-without_member : (m : String) (es : List Entry) → All P es → All P (without_member m es)
  unfolding without_member
  All-without_member m [] h = tt
  All-without_member m (e ∷ es) (p, h) = ground (arith, All-without_member m es h)

  All-place : (e : Entry) (es : List Entry) → P e → All P es → All P (place e es)
  unfolding place
  All-place e [] p h = (p, tt)
  All-place e (f ∷ fs) p (q, h) = ground (arith, All-place e fs p h)

pub without_member-IsFresh : (m : String) (es : List Entry) → IsFresh m (without_member m es)
unfolding without_member
without_member-IsFresh m [] = tt
without_member-IsFresh m (e ∷ es) = ground (arith, without_member-IsFresh m es)

pub without_member-IsOrdered :
    (m : String) (es : List Entry) → IsOrdered es → IsOrdered (without_member m es)
unfolding without_member
without_member-IsOrdered m [] h = tt
without_member-IsOrdered m (e ∷ es) (low, fresh, h) = elim (Bool-cases (e.member == m)) [
  | inl same ↦ rw same (without_member-IsOrdered m es h)
  | inr other ↦ rw other (
    All-without_member (λ f. f.score ≤ e.score) m es low,
    All-without_member (λ f. (f.member == e.member) ≡ false) m es fresh,
    without_member-IsOrdered m es h,
  )
]

above_le : (e f : Entry) → stands_above e f ≡ true → f.score ≤ e.score
above_le e f h = ground arith

not_above_le : (e f : Entry) → stands_above e f ≡ false → e.score ≤ f.score
not_above_le e f h = ground arith

scores_below :
    (n k : ℕ) (es : List Entry) → k ≤ n → All (λ f. f.score ≤ k) es → All (λ f. f.score ≤ n) es
scores_below n k [] le h = tt
scores_below n k (e ∷ es) le (p, h) = (omega arith, scores_below n k es le h)

pub place-IsOrdered :
    (e : Entry) (es : List Entry) → IsFresh e.member es → IsOrdered es → IsOrdered (place e es)
unfolding place
place-IsOrdered e [] new h = (tt, tt, tt)
place-IsOrdered e (f ∷ fs) (other, new) (low, fresh, h) = elim (Bool-cases (stands_above e f)) [
  | inl up ↦ rw up (
    (above_le e f up, scores_below e.score f.score fs (above_le e f up) low),
    (other, new),
    (low, fresh, h),
  )
  | inr down ↦ rw down (
    All-place (λ g. g.score ≤ f.score) e fs (not_above_le e f down) low,
    All-place (λ g. (g.member == f.member) ≡ false) e fs
        (ground (arith, eq_iff e.member f.member, eq_iff f.member e.member)) fresh,
    place-IsOrdered e fs new h,
  )
]

pub score_of-without_member :
    (m j : String) (es : List Entry)
    → score_of j (without_member m es) ≡ (if m == j then none else score_of j es)
unfolding without_member score_of
score_of-without_member m j [] = ground arith
score_of-without_member m j (e ∷ es) =
    ground (arith, eq_iff e.member m, eq_iff e.member j, eq_iff m j, score_of-without_member m j es)

pub score_of-place :
    (e : Entry) (j : String) (es : List Entry)
    → IsFresh e.member es
    → score_of j (place e es) ≡ (if e.member == j then some e.score else score_of j es)
unfolding place score_of
score_of-place e j [] h = refl
score_of-place e j (f ∷ fs) (other, h) =
    ground (
      arith,
      eq_iff e.member j,
      eq_iff f.member j,
      eq_iff f.member e.member,
      score_of-place e j fs h,
    )

-- A score that is found is one of the scores.
score_of-le :
    (m : String) (n s : ℕ) (es : List Entry)
    → All (λ f. f.score ≤ n) es
    → score_of m es ≡ some s
    → s ≤ n
unfolding score_of
score_of-le m n s [] h e = ground arith
score_of-le m n s (f ∷ fs) (p, h) e = ground (arith, score_of-le m n s fs h)

none_higher :
    (n : ℕ) (es : List Entry) → All (λ f. f.score ≤ n) es → count (λ f. ltb n f.score) es ≡ 0
none_higher n [] h = refl
none_higher n (f ∷ fs) (p, h) = ground (arith, none_higher n fs h)

-- The rank counts the members that are higher, and some of those that have the same score.
abbrev pub IsRank : ℕ → ℕ → List Entry → Type 0
IsRank r s es = (count (λ f. ltb s f.score) es ≤ r) × (r < count (λ f. leb s f.score) es)

abbrev pub Standing : String → List Entry → Type 0
Standing m es =
    ((rank_of m es ≡ none) × (score_of m es ≡ none))
    ⊎ ((r : ℕ) × (s : ℕ) × (rank_of m es ≡ some r) × (score_of m es ≡ some s) × IsRank r s es)

pub rank_of-Standing : (m : String) (es : List Entry) → IsOrdered es → Standing m es
unfolding rank_of score_of
rank_of-Standing m [] h = inl (refl, refl)
rank_of-Standing m (e ∷ es) (low, fresh, h) = elim (Bool-cases (e.member == m)) [
  | inl same ↦
      rw same
        (inr (0, e.score, refl, refl, (ground (arith, none_higher e.score es low), ground arith)))
  | inr other ↦ elim (rank_of-Standing m es h) [
    | inl (no_rank, no_score) ↦ inl (ground arith, ground arith)
    | inr (r, s, ranked, scored, (higher, enough)) ↦ inr (
      suc r,
      s,
      ground arith,
      ground arith,
      (ground arith, ground (arith, score_of-le m e.score s es low)),
    )
  ]
]
