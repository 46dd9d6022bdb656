-- ===== src/Plan/Overlap/Clash.antt =====
-- What it means that two folders overlap, and the second loop of `overlapping` over the parents of one
-- folder.
use fetchloom.Base.{
  ℕ, zero, suc, ◌≤◌, ◌<◌, ◌≡◌, ◌≢◌, refl, sym, ap, ◌∙◌, ◌⊎◌, inl, inr, List, ◌∷◌, Option, none,
  some, arith, min, max, ltb, ◌==◌, ◌||◌, ◌&&◌, length, get_elem?, Bool-cases, Option-cases,
}
use fetchloom.Base.Text.{Text, text_eq, text_eq→≡, text_eq_refl}
use fetchloom.Plan.Paths.{rsplit_once}
use fetchloom.Plan.Overlap.Parents.{
  IsInside, IsParent, here, there, IsInside-longer, IsInside-trans, rsplit_once-IsInside,
}
use fetchloom.Plan.Overlap.{
  Pair, Seen, lookup, lower_pair, consider, consider_outer, parent_folders,
}

abbrev pub DoOverlap : Text → Text → Type 0
DoOverlap a b = (a ≡ b) ⊎ (IsInside a b ⊎ IsInside b a)

-- The places of two different folders that overlap.
pub record IsClash (keys : List Text) (pair : Pair) : Type 0 where
  pub first : Text
  pub second : Text
  pub before : pair.0 < pair.1
  pub first_is : get_elem? keys pair.0 ≡ some first
  pub second_is : get_elem? keys pair.1 ≡ some second
  pub overlap : DoOverlap first second

-- A result that is a clash when it is one.
unfoldable pub AllClash : List Text → Option Pair → Type 0
AllClash keys none = Unit
AllClash keys (some pair) = IsClash keys pair

lower_pair-IsClash :
    (keys : List Text) (p q : Pair)
    → IsClash keys p
    → IsClash keys q
    → IsClash keys (lower_pair p q)
lower_pair-IsClash keys (i, j) (i', j') h k =
    elim (Bool-cases (ltb i i' || (i == i' && ltb j j'))) [ inl e ↦ rw e h | inr e ↦ rw e k ]

pub consider-AllClash :
    (keys : List Text) (found : Option Pair) (pair : Pair)
    → AllClash keys found
    → IsClash keys pair
    → AllClash keys (consider found pair)
unfolding AllClash consider
consider-AllClash keys none pair h k = k
consider-AllClash keys (some best) pair h k = lower_pair-IsClash keys best pair h k

-- A pair, once considered, leaves something found.
unfoldable pub IsFound : Option Pair → Type 0
IsFound o = o ≢ none

pub consider-IsFound : (found : Option Pair) (pair : Pair) → IsFound (consider found pair)
unfolding IsFound consider
consider-IsFound none pair e = cc
consider-IsFound (some best) pair e = cc

-- What is remembered: places of folders, and each of the folders before `n`.
pub record IsSeen (keys : List Text) (seen : Seen) : Type 0 where
  pub sound : (k : Text) (i : ℕ) → lookup k seen ≡ some i → get_elem? keys i ≡ some k

trichotomy : (a b : ℕ) → (a < b) ⊎ ((b < a) ⊎ (a ≡ b))
trichotomy a b = ground arith

min_lt : (a b : ℕ) → a < b → min a b ≡ a
min_lt a b h = omega (arith, h)

max_lt : (a b : ℕ) → a < b → max a b ≡ b
max_lt a b h = omega (arith, h)

min_gt : (a b : ℕ) → b < a → min a b ≡ b
min_gt a b h = omega (arith, h)

max_gt : (a b : ℕ) → b < a → max a b ≡ a
max_gt a b h = omega (arith, h)

pub some_inj : {s t : Text} → some s ≡ some t → s ≡ t
some_inj e = cc

pub absurd {ℓ} : {A : Type ℓ} → ⊥ → A
absurd = elim [ ]

pub lookup-cons :
    (k k' : Text) (i : ℕ) (seen : Seen)
    → ((k ≡ k') × (lookup k ((k', i) ∷ seen) ≡ some i))
      ⊎ (lookup k ((k', i) ∷ seen) ≡ lookup k seen)
unfolding lookup
lookup-cons k k' i seen = elim (Bool-cases (text_eq k k')) [
  | inl e ↦ inl (text_eq→≡ k k' e, rw e refl)
  | inr e ↦ inr (rw e refl)
]

pub lookup-same : (k : Text) (i : ℕ) (seen : Seen) → lookup k ((k, i) ∷ seen) ≡ some i
unfolding lookup
lookup-same k i seen = rw (text_eq_refl k) refl

-- The second loop, over the parents of one folder.
module _ (keys : List Text) (seen : Seen) (is_seen : IsSeen keys seen) (index : ℕ) (folder : Text)
    (at_index : get_elem? keys index ≡ some folder) where
  outer-IsClash :
      (up : Text) (outer : ℕ)
      → IsInside up folder
      → get_elem? keys outer ≡ some up
      → IsClash keys (min outer index, max outer index)
  outer-IsClash up outer h k = elim (trichotomy outer index) [
    | inl l ↦
        rw (min_lt outer index l, max_lt outer index l)
          (record {
            first = up;
            second = folder;
            before = l;
            first_is = k;
            second_is = at_index;
            overlap = inr (inl h);
          })
    | inr (inl l) ↦
        rw (min_gt outer index l, max_gt outer index l)
          (record {
            first = folder;
            second = up;
            before = l;
            first_is = at_index;
            second_is = k;
            overlap = inr (inr h);
          })
    | inr (inr e) ↦ absurd (
        longer (ap length (some_inj (sym k ∙ ap (get_elem? keys) e ∙ at_index)))
          (IsInside-longer up folder h))
  ]
    where
      longer : length up ≡ length folder → length up < length folder → ⊥
      longer e l = omega (arith, e, l)

  outer-AllClash :
      (up : Text) (found : Option Pair)
      → IsInside up folder
      → AllClash keys found
      → AllClash keys (consider_outer (lookup up seen) index found)
  outer-AllClash up found h c = elim (Option-cases (lookup up seen)) [
    | inl e ↦ rw e c
    | inr (outer, e) ↦ rw e (
        consider-AllClash keys found (min outer index, max outer index) c
          (outer-IsClash up outer h (is_seen.sound up outer e)))
  ]

  pub parents-AllClash :
      (fuel : ℕ) (o : Option (Text × Text)) (found : Option Pair)
      → ((up after : Text) → o ≡ some (up, after) → IsInside up folder)
      → AllClash keys found
      → AllClash keys (parent_folders fuel index o seen found)
  unfolding parent_folders
  parents-AllClash zero o found h c = c
  parents-AllClash (suc fuel) none found h c = c
  parents-AllClash (suc fuel) (some (up, after)) found h c =
      parents-AllClash fuel (rsplit_once b'/' up) (consider_outer (lookup up seen) index found)
        (λ up' after' e.
          IsInside-trans up' up folder (rsplit_once-IsInside up up' after' e) (h up after refl))
        (outer-AllClash up found (h up after refl) c)

-- Something that was found stays found.
outer-IsFound :
    (o : Option ℕ) (index : ℕ) (found : Option Pair)
    → (IsFound found) ⊎ (o ≢ none)
    → IsFound (consider_outer o index found)
outer-IsFound none index found (inl h) = h
outer-IsFound none index found (inr h) = absurd (h refl)
outer-IsFound (some outer) index found h = consider-IsFound found _

pub parents-IsFound :
    (fuel index : ℕ) (o : Option (Text × Text)) (seen : Seen) (found : Option Pair)
    → IsFound found
    → IsFound (parent_folders fuel index o seen found)
unfolding parent_folders
parents-IsFound zero index o seen found h = h
parents-IsFound (suc fuel) index none seen found h = h
parents-IsFound (suc fuel) index (some (up, _)) seen found h =
    parents-IsFound fuel index (rsplit_once b'/' up) seen _
      (outer-IsFound (lookup up seen) index found (inl h))

-- The fuel covers the folders that are left.
abbrev pub Covers : ℕ → Option (Text × Text) → Type 0
Covers fuel none = Unit
Covers fuel (some (up, _)) = length up < fuel

pub Covers-next : (fuel : ℕ) (s : Text) → length s ≤ fuel → Covers fuel (rsplit_once b'/' s)
Covers-next fuel s h = elim (Option-cases (rsplit_once b'/' s)) [
  | inl e ↦ rw e tt
  | inr ((a, b), e) ↦ rw e (omega (arith, h, IsInside-longer a s (rsplit_once-IsInside s a b e)))
]

-- A parent whose folder was seen is found.
pub parent-IsFound :
    (fuel index : ℕ) (o : Option (Text × Text)) (seen : Seen) (found : Option Pair) (t : Text)
    → Covers fuel o
    → IsParent o t
    → lookup t seen ≢ none
    → IsFound (parent_folders fuel index o seen found)
unfolding parent_folders
parent-IsFound zero index _ seen found t f here k = absurd (omega (arith, f))
parent-IsFound zero index _ seen found t f (there p) k = absurd (omega (arith, f))
parent-IsFound (suc fuel) index _ seen found t f here k =
    parents-IsFound fuel index _ seen _ (outer-IsFound (lookup t seen) index found (inr k))
parent-IsFound (suc fuel) index (some (up, _)) seen found t f (there p) k =
    parent-IsFound fuel index (rsplit_once b'/' up) seen _ t
      (Covers-next fuel up (omega (arith, f))) p k
