-- ===== src/Split/Board/Others.antt =====
-- A stream looks at its share, lets go of the lock, and comes back: what the other streams may
-- have done to the share of a stream that has nothing left.
use fetchloom.Base.{
  ℕ, zero, suc, ◌-◌, ◌≡◌, ◌≢◌, refl, ap, inl, inr, ◌∙◌, ◌&&◌, List, [], ◌∷◌, ◌++◌, Option, none,
  some, arith, ltb, ◌==◌, length, get_elem?, set, replicate, All, Bool-cases, Option-cases,
}
use fetchloom.Split.Board.{
  Range, Share, Board, flatten, share, share_left, left, resize, take_range, take_split, split_off,
  assign_from, assign, deliver, behind, extend_open, release_to, release, give_back, trim,
}
use fetchloom.Split.Board.Valid.{SlotIsValid, IsValid, All-set, split_off-SplitsOff}
use fetchloom.Split.Board.Measure.{get-resize, get-set_ne}
use fetchloom.Split.Board.Conserves.{share-SplitsOff}
use fetchloom.Split.Board.History.{Step, asks, brings, stops, trims}

take_range-other :
    (b : Board) (i id : ℕ) (r : Range) → i ≢ id → share (take_range b i r) id ≡ share b id
unfolding take_range resize share
take_range-other b i id (a, e) h =
    get-set_ne (b.shares ++ replicate (suc i - length b.shares) none) i id _ h
    ∙ get-resize b.shares (suc i - length b.shares) id

set-other :
    (b : Board) (i id : ℕ) (o : Option Share)
    → i ≢ id
    → flatten (get_elem? (set b.shares i o) id) ≡ share b id
unfolding share
set-other b i id o h = get-set_ne b.shares i id o h

shares-set :
    (b : Board) (i id : ℕ) (o : Option Share)
    → i ≢ id
    → share (record b { shares = set b.shares i o }) id ≡ share b id
unfolding share
shares-set b i id o h = get-set_ne b.shares i id o h

take_split-other :
    (b : Board) (i id piece : ℕ) (o : Option (Range × Board))
    → split_off b piece ≡ o
    → i ≢ id
    → left b id ≡ 0
    → share (take_split b i o).1 id ≡ share b id
unfolding take_split
take_split-other b i id piece none e h l = refl
take_split-other b i id piece (some (r, b')) e h l =
    take_range-other b' i id r h
    ∙ share-SplitsOff b piece id r b' l (split_off-SplitsOff b piece r b' e)

assign_from-other :
    (b : Board) (free : List Range) (i id piece : ℕ)
    → i ≢ id
    → left b id ≡ 0
    → share (assign_from b free i piece).1 id ≡ share b id
unfolding assign_from
assign_from-other b [] i id piece h l = take_split-other b i id piece (split_off b piece) refl h l
assign_from-other b (r ∷ free) i id piece h l = take_range-other (record b { free = free }) i id r h

assign-other :
    (b : Board) (i id piece : ℕ)
    → i ≢ id
    → left b id ≡ 0
    → share (assign b i piece).1 id ≡ share b id
unfolding assign
assign-other b i id piece h l = assign_from-other b b.free i id piece h l

deliver-other : (b : Board) (i id n : ℕ) → i ≢ id → share (deliver b i n).1 id ≡ share b id
unfolding deliver
deliver-other b i id n h = elim (Option-cases (share b i)) [
  | inl e ↦ rw e refl
  | inr (s, e) ↦ rw e (set-other b i id _ h)
]

-- A share with nothing left is not open, so no range is added to it.
abbrev SameAt : ℕ → List (Option Share) → Option (List (Option Share)) → Type 0
SameAt id xs none = Unit
SameAt id xs (some ys) = flatten (get_elem? ys id) ≡ flatten (get_elem? xs id)

behind-SameAt :
    (x : Option Share) (id : ℕ) (xs : List (Option Share)) (o : Option (List (Option Share)))
    → SameAt id xs o
    → SameAt (suc id) (x ∷ xs) (behind x o)
behind-SameAt x id xs none h = tt
behind-SameAt x id xs (some ys) h = h

behind-SameAt_zero :
    (x : Option Share) (xs : List (Option Share)) (o : Option (List (Option Share)))
    → SameAt 0 (x ∷ xs) (behind x o)
behind-SameAt_zero x xs none = tt
behind-SameAt_zero x xs (some ys) = refl

extend_open-SameAt :
    (xs : List (Option Share)) (r : Range) (id : ℕ)
    → All SlotIsValid xs
    → share_left (flatten (get_elem? xs id)) ≡ 0
    → SameAt id xs (extend_open xs r)
unfolding extend_open
extend_open-SameAt [] (a, e) id v l = tt
extend_open-SameAt (none ∷ xs) (a, e) zero v l = behind-SameAt_zero none xs (extend_open xs (a, e))
extend_open-SameAt (none ∷ xs) (a, e) (suc id) v l =
    behind-SameAt none id xs (extend_open xs (a, e)) (extend_open-SameAt xs (a, e) id v.1 l)
extend_open-SameAt (some s ∷ xs) (a, e) zero v l = elim (Bool-cases (s.is_open && s.end == a)) [
  | inl t ↦
      let shut = v.0.closed_when_done (omega (arith, v.0.forward)) in
      absurd (ground (arith, shut, t))
  | inr t ↦ rw t (behind-SameAt_zero (some s) xs (extend_open xs (a, e)))
]
extend_open-SameAt (some s ∷ xs) (a, e) (suc id) v l = elim (Bool-cases (s.is_open && s.end == a)) [
  | inl t ↦ rw t refl
  | inr t ↦
      rw t (
        behind-SameAt (some s) id xs (extend_open xs (a, e))
          (extend_open-SameAt xs (a, e) id v.1 l))
]

release_to-other :
    (b : Board) (r : Range) (id : ℕ) (o : Option (List (Option Share)))
    → SameAt id b.shares o
    → share (release_to b r o) id ≡ share b id
unfolding release_to share
release_to-other b r id none h = refl
release_to-other b r id (some xs) h = h

-- `release` after the slot of another stream was written.
release-other :
    (b : Board) (i id : ℕ) (o : Option Share) (r : Range)
    → IsValid b
    → SlotIsValid o
    → i ≢ id
    → left b id ≡ 0
    → share (release (record b { shares = set b.shares i o }) r) id ≡ share b id
unfolding release left
release-other b i id o r v w h l =
    let same = set-other b i id o h in
    release_to-other (record b { shares = set b.shares i o }) r id
      (extend_open (set b.shares i o) r)
      (extend_open-SameAt (set b.shares i o) r id (All-set b.shares i o v.shares_valid w)
        (ap share_left same ∙ l))
    ∙ shares-set b i id o h

give_back-other :
    (b : Board) (i id : ℕ)
    → IsValid b
    → i ≢ id
    → left b id ≡ 0
    → share (give_back b i) id ≡ share b id
unfolding give_back
give_back-other b i id v h l = elim (Option-cases (share b i)) [
  | inl e ↦ rw e refl
  | inr (s, e) ↦ rw e (elim (Bool-cases (ltb s.next s.end)) [
    | inl t ↦ rw t (release-other b i id none (s.next, s.end) v tt h l)
    | inr t ↦ rw t (shares-set b i id none h)
  ])
]

trim-other :
    (b : Board) (i id end : ℕ)
    → IsValid b
    → i ≢ id
    → left b id ≡ 0
    → share (trim b i end) id ≡ share b id
unfolding trim
trim-other b i id end v h l = elim (Option-cases (share b i)) [
  | inl e ↦ rw e refl
  | inr (s, e) ↦ rw e (elim (Bool-cases (ltb s.next end && ltb end s.end)) [
    | inl t ↦ rw t (
        release-other b i id _ (end, s.end) v
          (record {
            forward = ground (arith, t);
            closed_when_done = λ q. absurd (ground (arith, t));
          })
          h l)
    | inr t ↦ rw t refl
  ])
]

-- The stream whose call a step is.
unfoldable pub caller : {b b' : Board} {sent : List Range} → Step b sent b' → ℕ
caller (asks id piece h) = id
caller (brings id n) = id
caller (stops id) = id
caller (trims id end) = id

-- Between the moment a stream finds nothing left in its share and the moment it asks for another
-- range, the calls of the other streams leave its share as it is.
pub Step-other :
    {b b' : Board} {sent : List Range} (id : ℕ) (s : Step b sent b')
    → IsValid b
    → caller s ≢ id
    → left b id ≡ 0
    → share b' id ≡ share b id
unfolding caller
Step-other {b} id (asks i piece e) v h l = assign-other b i id piece h l
Step-other {b} id (brings i n) v h l = deliver-other b i id n h
Step-other {b} id (stops i) v h l = give_back-other b i id v h l
Step-other {b} id (trims i end) v h l = trim-other b i id end v h l
