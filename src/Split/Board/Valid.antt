-- ===== src/Split/Board/Valid.antt =====
-- What keeps the board sound: ranges run forwards, the free ones are in order, and a share that
-- was fetched whole is no longer open.
use fetchloom.Base.{
  ℕ, zero, suc, ◌+◌, ◌-◌, ◌/◌, ◌≤◌, ◌<◌, ◌≡◌, refl, inl, inr, ◌⊎◌, Bool, true, false, ◌||◌, List,
  [], ◌∷◌, Option, none, some, arith, ltb, leb, ◌==◌, get_elem?, set, replicate, All, if◌then◌else◌,
  Bool-cases, Option-cases,
}
use fetchloom.Split.Board.{
  Range, Share, Board, flatten, share, share_left, largest_from, split_at, halve, split_off,
}

pub record ShareIsValid (s : Share) : Type 0 where
  pub forward : s.next ≤ s.end
  pub closed_when_done : s.next ≡ s.end → s.is_open ≡ false

abbrev pub SlotIsValid : Option Share → Type 0
SlotIsValid none = Unit
SlotIsValid (some s) = ShareIsValid s

abbrev pub RangeIsValid : Range → Type 0
RangeIsValid (a, e) = a < e

abbrev pub From : ℕ → Range → Type 0
From n (a, e) = n ≤ a

-- The ranges are in the order of their starts.
abbrev pub Ascending : List Range → Type 0
Ascending [] = Unit
Ascending ((a, e) ∷ rest) = All (From a) rest × Ascending rest

pub record IsValid (b : Board) : Type 0 where
  pub shares_valid : All SlotIsValid b.shares
  pub free_valid : All RangeIsValid b.free
  pub free_ordered : Ascending b.free

-- A slot of a valid board.
All-get :
    (xs : List (Option Share)) (i : ℕ) → All SlotIsValid xs → SlotIsValid (flatten (get_elem? xs i))
All-get [] i v = tt
All-get (x ∷ xs) zero v = v.0
All-get (x ∷ xs) (suc i) v = All-get xs i v.1

pub All-set :
    (xs : List (Option Share)) (i : ℕ) (o : Option Share)
    → All SlotIsValid xs
    → SlotIsValid o
    → All SlotIsValid (set xs i o)
All-set [] i o v h = tt
All-set (x ∷ xs) zero o v h = (h, v.1)
All-set (x ∷ xs) (suc i) o v h = (v.0, All-set xs i o v.1 h)

pub All-nones : (n : ℕ) → All SlotIsValid (replicate n none)
All-nones zero = tt
All-nones (suc n) = (tt, All-nones n)

pub share-IsValid :
    (b : Board) (id : ℕ) (s : Share) → IsValid b → share b id ≡ some s → ShareIsValid s
unfolding share
share-IsValid b id s v e = rw e at (All-get b.shares id v.shares_valid)

-- What `max_by_key` finds is a share with that much left, and no share has more left.
abbrev pub IsAt : ℕ → List (Option Share) → ℕ × ℕ → Type 0
IsAt index rest (v, most) =
    (k : ℕ) × (s : Share) × (v ≡ index + k)
    × (flatten (get_elem? rest k) ≡ some s)
    × (most ≡ s.end - s.next)

abbrev pub AtMost : ℕ → Option Share → Type 0
AtMost most o = share_left o ≤ most

All-AtMost_mono :
    (m n : ℕ) (xs : List (Option Share)) → m ≤ n → All (AtMost m) xs → All (AtMost n) xs
All-AtMost_mono m n [] h a = tt
All-AtMost_mono m n (x ∷ xs) h a = (omega arith, All-AtMost_mono m n xs h a.1)

abbrev pub best_left : Option (ℕ × ℕ) → ℕ
best_left none = 0
best_left (some (v, m)) = m

pub largest_from_lem :
    (index : ℕ) (rest : List (Option Share)) (best : Option (ℕ × ℕ)) (v most : ℕ)
    → largest_from index rest best ≡ some (v, most)
    → ((best ≡ some (v, most)) ⊎ IsAt index rest (v, most))
      × (best_left best ≤ most)
      × All (AtMost most) rest
unfolding largest_from
largest_from_lem index [] best v most e = (inl e, ground arith, tt)
largest_from_lem index (none ∷ rest) best v most e =
    let (place, b, a) = largest_from_lem (suc index) rest best v most e in
    (
      elim place [ inl h ↦ inl h | inr (k, s, i, g, m) ↦ inr (suc k, s, omega arith, g, m) ],
      b,
      (omega arith, a),
    )
largest_from_lem index (some s ∷ rest) none v most e =
    let (place, b, a) = largest_from_lem (suc index) rest (some (index, s.end - s.next)) v most e in
    (
      elim place [
        | inl h ↦ inr (0, s, ground arith, refl, ground arith)
        | inr (k, t, i, g, m) ↦ inr (suc k, t, omega arith, g, m)
      ],
      omega arith,
      (b, a),
    )
largest_from_lem index (some s ∷ rest) (some (i, best)) v most e =
    elim (Bool-cases (leb best (s.end - s.next))) [
      | inl h ↦
          let (place, b, a) =
            largest_from_lem (suc index) rest (some (index, s.end - s.next)) v most (rw h at e) in
          (
            elim place [
              | inl g ↦ inr (0, s, ground arith, refl, ground arith)
              | inr (k, t, j, g, m) ↦ inr (suc k, t, omega arith, g, m)
            ],
            ground arith,
            (b, a),
          )
      | inr h ↦
          let (place, b, a) =
            largest_from_lem (suc index) rest (some (i, best)) v most (rw h at e) in
          (
            elim place [ inl g ↦ inl g | inr (k, t, j, g, m) ↦ inr (suc k, t, omega arith, g, m) ],
            b,
            (ground arith, a),
          )
    ]

-- What `split_off` does when it gives a range: the upper half of a share with at least as much
-- left as any other.
pub record SplitsOff (b : Board) (piece : ℕ) (range : Range) (b' : Board) : Type 0 where
  pub victim : ℕ
  pub victim_share : Share
  pub at_victim : share b victim ≡ some victim_share
  pub half : ℕ
  pub is_half : half ≡ (victim_share.end - victim_share.next) / 2
  pub positive : 0 < half
  pub enough : piece ≤ half
  pub largest : All (AtMost (victim_share.end - victim_share.next)) b.shares
  pub range_is : range ≡ (victim_share.end - half, victim_share.end)
  pub board_is : b' ≡ record b {
    shares = set b.shares victim (some (record victim_share { end = victim_share.end - half }));
  }

Option-test {ℓ} :
    {A : Type ℓ} (t : Bool) (o : Option A) (a : A)
    → (if t then none else o) ≡ some a
    → (t ≡ false) × (o ≡ some a)
Option-test true o a e = cc
Option-test false o a e = (refl, e)

split_at-SplitsOff :
    (b : Board) (piece v most : ℕ) (range : Range) (b' : Board)
    → largest_from 0 b.shares none ≡ some (v, most)
    → split_at b piece (some (v, most)) ≡ some (range, b')
    → SplitsOff b piece range b'
unfolding split_at
split_at-SplitsOff b piece v most range b' found e =
    let (place, _, a) = largest_from_lem 0 b.shares none v most found in
    elim place [
      | inl h ↦ cc h
      | inr (k, s, i, g, m) ↦
          let at : share b v ≡ some s = rw (i' i) g in
          let f =
            Option-test (most / 2 == 0 || ltb (most / 2) piece) (halve b v (most / 2) (share b v))
              (range, b') e in
          let g' : halve b v (most / 2) (some s) ≡ some (range, b') = rw at at f.1 in
          record {
            victim = v;
            victim_share = s;
            at_victim = at;
            half = most / 2;
            is_half = rw m refl;
            positive = ground (arith, f.0);
            enough = ground (arith, f.0);
            largest = rw m at a;
            range_is = ground (arith, g');
            board_is = ground (arith, g');
          }
    ]
  where
    i' : {k : ℕ} → v ≡ 0 + k → v ≡ k
    i' h = omega arith

pub split_off-SplitsOff :
    (b : Board) (piece : ℕ) (range : Range) (b' : Board)
    → split_off b piece ≡ some (range, b')
    → SplitsOff b piece range b'
unfolding split_off
split_off-SplitsOff b piece range b' e = elim (Option-cases (largest_from 0 b.shares none)) [
  | inl h ↦ cc (rw h at e)
  | inr ((v, most), h) ↦ split_at-SplitsOff b piece v most range b' h (rw h at e)
]
