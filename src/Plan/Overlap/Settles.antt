-- ===== src/Plan/Overlap/Settles.antt =====
-- `overlapping` refuses exactly when two folders overlap, and names two that do.
use fetchloom.Base.{
  ℕ, zero, suc, ◌+◌, ◌≡◌, ◌≢◌, refl, sym, ap, subst, ◌∙◌, inl, inr, List, [], ◌∷◌, Option, none,
  some, arith, length, get_elem?,
}
use fetchloom.Base.Text.{Text}
use fetchloom.Plan.Paths.{rsplit_once}
use fetchloom.Plan.Overlap.{Pair, Seen, lookup, inner_folders, overlapping_after, overlapping}
use fetchloom.Plan.Overlap.Parents.{IsInside, IsParent, IsInside-IsParent, rsplit_once-IsInside}
use fetchloom.Plan.Overlap.Clash.{
  IsClash, AllClash, IsFound, IsSeen, absurd, some_inj, parents-AllClash, parents-IsFound,
  parent-IsFound, Covers-next,
}
use fetchloom.Plan.Overlap.Equal.{AreAt, equal-IsSeen, all-lookup, twice-IsFound}

-- The second loop.
inner-AllClash :
    (keys : List Text) (index : ℕ) (rest : List Text) (seen : Seen) (found : Option Pair)
    → AreAt keys index rest
    → IsSeen keys seen
    → AllClash keys found
    → AllClash keys (inner_folders index rest seen found)
unfolding inner_folders AreAt
inner-AllClash keys index [] seen found a b c = c
inner-AllClash keys index (f ∷ rest) seen found a b c =
    inner-AllClash keys (suc index) rest seen _ a.1 b (
      parents-AllClash keys seen b index f a.0 (suc (length f)) (rsplit_once b'/' f) found
        (λ up after e. rsplit_once-IsInside f up after e) c)

inner-kept :
    (index : ℕ) (rest : List Text) (seen : Seen) (found : Option Pair)
    → IsFound found
    → IsFound (inner_folders index rest seen found)
unfolding inner_folders
inner-kept index [] seen found h = h
inner-kept index (f ∷ rest) seen found h =
    inner-kept (suc index) rest seen _
      (parents-IsFound (suc (length f)) index (rsplit_once b'/' f) seen found h)

inside-IsFound :
    (outer inner : Text) (index : ℕ) (rest : List Text) (seen : Seen) (found : Option Pair) (j : ℕ)
    → IsInside outer inner
    → lookup outer seen ≢ none
    → get_elem? rest j ≡ some inner
    → IsFound (inner_folders index rest seen found)
unfolding inner_folders
inside-IsFound outer inner index [] seen found j h k e = absurd (nothing e)
  where
    nothing : none ≡ some inner → ⊥
    nothing e = cc
inside-IsFound outer inner index (f ∷ rest) seen found zero h k e =
    inner-kept (suc index) rest seen _ (
      parent-IsFound (suc (length f)) index (rsplit_once b'/' f) seen found outer
        (Covers-next (suc (length f)) f (omega arith))
        (subst (λ s. IsParent (rsplit_once b'/' s) outer) (sym (some_inj e))
          (IsInside-IsParent outer inner h))
        k)
inside-IsFound outer inner index (f ∷ rest) seen found (suc j) h k e =
    inside-IsFound outer inner (suc index) rest seen _ j h k e

shifted-AreAt :
    (keys : List Text) (index : ℕ) (rest : List Text)
    → ((i : ℕ) → get_elem? keys (index + i) ≡ get_elem? rest i)
    → AreAt keys index rest
unfolding AreAt
shifted-AreAt keys index [] h = tt
shifted-AreAt keys index (f ∷ rest) h = (
  ap (get_elem? keys) (plus_zero index) ∙ h 0,
  shifted-AreAt keys (suc index) rest λ i. ap (get_elem? keys) (plus_suc index i) ∙ h (suc i),
)
  where
    plus_zero : (n : ℕ) → n ≡ n + 0
    plus_zero n = omega arith

    plus_suc : (n i : ℕ) → suc n + i ≡ n + suc i
    plus_suc n i = omega arith

whole-AreAt : (keys : List Text) → AreAt keys 0 keys
whole-AreAt keys = shifted-AreAt keys 0 keys λ i. ap (get_elem? keys) (plus i)
  where
    plus : (i : ℕ) → 0 + i ≡ i
    plus i = omega arith

-- What the answer means: none when no two folders overlap, else two that do.
unfoldable pub Means : List Text → Option Pair → Type 0
Means keys none = (pair : Pair) → ¬ IsClash keys pair
Means keys (some pair) = IsClash keys pair

clash-IsFound : (keys : List Text) (pair : Pair) → IsClash keys pair → IsFound (overlapping keys)
unfolding overlapping overlapping_after
clash-IsFound keys (i, j) c = elim c.overlap [
  | inl e ↦
      inner-kept 0 keys _ _ (
        twice-IsFound c.first 0 keys [] none i j c.before c.first_is
          (c.second_is ∙ ap some (sym e)))
  | inr (inl h) ↦
      inside-IsFound c.first c.second 0 keys _ _ j h
        (all-lookup c.first 0 keys [] none i c.first_is) c.second_is
  | inr (inr h) ↦
      inside-IsFound c.second c.first 0 keys _ _ i h
        (all-lookup c.second 0 keys [] none j c.second_is) c.first_is
]

overlapping-AllClash : (keys : List Text) → AllClash keys (overlapping keys)
unfolding overlapping overlapping_after AllClash lookup
overlapping-AllClash keys =
    let (seen, clash) =
      equal-IsSeen keys 0 keys [] none (whole-AreAt keys)
        (record { places = record { sound = λ k i e. cc }; below = λ k i e. cc }) tt in
    inner-AllClash keys 0 keys _ _ (whole-AreAt keys) seen clash

-- The datasets are refused exactly when two folders are the same or one lies inside the other, and
-- the pair that is named is one of those, in the order of the datasets.
pub overlapping-Means : (keys : List Text) → Means keys (overlapping keys)
unfolding Means AllClash IsFound
overlapping-Means keys = from (overlapping keys) (overlapping-AllClash keys) (clash-IsFound keys)
  where
    from :
        (o : Option Pair)
        → AllClash keys o
        → ((pair : Pair) → IsClash keys pair → IsFound o)
        → Means keys o
    from none a f = λ pair c. f pair c refl
    from (some pair) a f = a
