-- ===== src/Split/Board/Asks.antt =====
-- What `assign` answers, and what it leaves alone.
use fetchloom.Base.{
  ℕ, suc, ◌+◌, ◌-◌, ◌/◌, ◌≤◌, ◌<◌, ◌≡◌, ◌≢◌, refl, ap, inl, inr, ◌⊎◌, List, [], ◌∷◌, Option, none,
  some, arith, leb, All, Bool-cases, Option-cases,
}
use fetchloom.Split.Board.{
  Range, Share, Board, share, share_left, largest_from, take_split, split_at, split_off,
  assign_from, assign,
}
use fetchloom.Split.Board.Valid.{IsValid, AtMost, largest_from_lem, split_off-SplitsOff}
use fetchloom.Split.Board.Keeps.{SplitsOff-IsValid}

-- A share from which nothing is taken: its half is empty, or shorter than `piece`.
abbrev pub TooSmall : ℕ → Option Share → Type 0
TooSmall piece o = (share_left o / 2 ≡ 0) ⊎ (share_left o / 2 < piece)

AtMost-TooSmall :
    (piece most : ℕ) (xs : List (Option Share))
    → (most / 2 ≡ 0) ⊎ (most / 2 < piece)
    → All (AtMost most) xs
    → All (TooSmall piece) xs
AtMost-TooSmall piece most [] h a = tt
AtMost-TooSmall piece most (x ∷ xs) h a = (
  elim h [ inl z ↦ inl (omega (arith, a.0)) | inr l ↦ inr (omega (arith, a.0)) ],
  AtMost-TooSmall piece most xs h a.1,
)

largest_from-some :
    (i : ℕ) (xs : List (Option Share)) (p : ℕ × ℕ) → largest_from i xs (some p) ≢ none
unfolding largest_from
largest_from-some i [] p e = cc
largest_from-some i (none ∷ xs) p e = largest_from-some (suc i) xs p e
largest_from-some i (some s ∷ xs) (j, m) e = elim (Bool-cases (leb m (s.end - s.next))) [
  | inl h ↦ largest_from-some (suc i) xs (i, s.end - s.next) (rw h at e)
  | inr h ↦ largest_from-some (suc i) xs (j, m) (rw h at e)
]

largest_from-none :
    (piece i : ℕ) (xs : List (Option Share))
    → largest_from i xs none ≡ none
    → All (TooSmall piece) xs
unfolding largest_from
largest_from-none piece i [] e = tt
largest_from-none piece i (none ∷ xs) e = (inl refl, largest_from-none piece (suc i) xs e)
largest_from-none piece i (some s ∷ xs) e =
    absurd (largest_from-some (suc i) xs (i, s.end - s.next) e)

split_at-none :
    (b : Board) (piece v most : ℕ)
    → largest_from 0 b.shares none ≡ some (v, most)
    → split_at b piece (some (v, most)) ≡ none
    → All (TooSmall piece) b.shares
unfolding split_at
split_at-none b piece v most found e =
    let (place, _, a) = largest_from_lem 0 b.shares none v most found in
    elim place [
      | inl h ↦ cc h
      | inr (k, s, i, g, m) ↦
          let at : share b v ≡ some s = rw (plain_index i) g in
          AtMost-TooSmall piece most b.shares (ground (arith, at, e)) a
    ]
  where
    plain_index : {k : ℕ} → v ≡ 0 + k → v ≡ k
    plain_index h = omega arith

split_off-none : (b : Board) (piece : ℕ) → split_off b piece ≡ none → All (TooSmall piece) b.shares
unfolding split_off
split_off-none b piece e = elim (Option-cases (largest_from 0 b.shares none)) [
  | inl h ↦ largest_from-none piece 0 b.shares h
  | inr ((v, most), h) ↦ split_at-none b piece v most h (rw h at e)
]

-- The answer for a list of free ranges: the first one, else the upper half of a share, which is at
-- least `piece` long, else none when no share is worth halving.
abbrev pub Answer : Board → List Range → ℕ → Option Range → Type 0
Answer b [] piece none = All (TooSmall piece) b.shares
Answer b [] piece (some (a, e)) = (a < e) × (piece ≤ e - a)
Answer b (range ∷ free) piece none = ⊥
Answer b (range ∷ free) piece (some r) = (r ≡ range)

take_split-Answer :
    (b : Board) (id piece : ℕ) (o : Option (Range × Board))
    → split_off b piece ≡ o
    → IsValid b
    → Answer b [] piece (take_split b id o).0
unfolding take_split
take_split-Answer b id piece none h v = split_off-none b piece h
take_split-Answer b id piece (some ((a, e), b')) h v =
    let s = split_off-SplitsOff b piece (a, e) b' h in
    let forward = (SplitsOff-IsValid b piece a e b' v s).0 in
    (
      forward,
      omega (
        arith,
        s.enough,
        s.is_half,
        ap (λ (r : Range). r.0) s.range_is,
        ap (λ (r : Range). r.1) s.range_is,
      ),
    )

assign_from-Answer :
    (b : Board) (free : List Range) (id piece : ℕ)
    → IsValid b
    → Answer b free piece (assign_from b free id piece).0
unfolding assign_from
assign_from-Answer b [] id piece v = take_split-Answer b id piece (split_off b piece) refl v
assign_from-Answer b (range ∷ free) id piece v = refl

-- `assign` gives the first free range when there is one. Otherwise it gives a range of at least
-- `piece` bytes and at least one, and it gives none only if every half of a share is empty or
-- shorter than `piece`.
pub assign-Answer :
    (b : Board) (id piece : ℕ) → IsValid b → Answer b b.free piece (assign b id piece).0
unfolding assign
assign-Answer b id piece v = assign_from-Answer b b.free id piece v
