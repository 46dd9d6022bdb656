-- ===== src/Plan/Overlap/Equal.antt =====
-- The first loop of `overlapping`, over folders that are equal.
use fetchloom.Base.{
  ℕ, zero, suc, ◌<◌, ◌≡◌, ◌≢◌, refl, sym, ap, subst, ◌∙◌, ◌⊎◌, inl, inr, List, [], ◌∷◌, Option,
  none, some, arith, get_elem?, Option-cases,
}
use fetchloom.Base.Text.{Text}
use fetchloom.Plan.Overlap.{Pair, Seen, lookup, consider_seen, remember, equal_folders}
use fetchloom.Plan.Overlap.Clash.{
  AllClash, IsFound, IsSeen, absurd, some_inj, consider-AllClash, consider-IsFound, lookup-cons,
  lookup-same,
}

-- What `remember` does to the places of a folder.
remember-kept :
    (k f : Text) (o : Option ℕ) (index : ℕ) (seen : Seen)
    → lookup k seen ≢ none
    → lookup k (remember o f index seen) ≢ none
remember-kept k f (some i) index seen h e = h e
remember-kept k f none index seen h e = elim (lookup-cons k f index seen) [
  | inl p ↦ differ (sym p.1 ∙ e)
  | inr p ↦ h (sym p ∙ e)
]
  where
    differ : some index ≡ none → ⊥
    differ e = cc

remember-new :
    (f : Text) (index : ℕ) (seen : Seen) → lookup f (remember (lookup f seen) f index seen) ≢ none
remember-new f index seen = from (lookup f seen) refl
  where
    differ : (i : ℕ) → some i ≡ none → ⊥
    differ i e = cc

    from : (o : Option ℕ) → lookup f seen ≡ o → lookup f (remember o f index seen) ≢ none
    from none h e = differ index (sym (lookup-same f index seen) ∙ e)
    from (some i) h e = differ i (sym h ∙ e)

-- Places that are remembered are those of the folders before `n`.
pub record IsBefore (keys : List Text) (n : ℕ) (seen : Seen) : Type 0 where
  pub places : IsSeen keys seen
  pub below : (k : Text) (i : ℕ) → lookup k seen ≡ some i → i < n

remember-IsBefore :
    (keys : List Text) (index : ℕ) (seen : Seen) (f : Text) (o : Option ℕ)
    → get_elem? keys index ≡ some f
    → IsBefore keys index seen
    → IsBefore keys (suc index) (remember o f index seen)
remember-IsBefore keys index seen f (some i) h b = record {
  places = b.places;
  below = λ k j e. omega (arith, b.below k j e);
}
remember-IsBefore keys index seen f none h b = record {
  places = record { sound = λ k i e. place k i e (lookup-cons k f index seen) };
  below = λ k i e. early k i e (lookup-cons k f index seen);
}
  where
    Looked : Text → Type 0
    Looked k =
        ((k ≡ f) × (lookup k ((f, index) ∷ seen) ≡ some index))
        ⊎ (lookup k ((f, index) ∷ seen) ≡ lookup k seen)

    num_inj : {i j : ℕ} → some i ≡ some j → i ≡ j
    num_inj e = cc

    place :
        (k : Text) (i : ℕ)
        → lookup k ((f, index) ∷ seen) ≡ some i
        → Looked k
        → get_elem? keys i ≡ some k
    place k i e (inl p) =
        subst (λ j. get_elem? keys j ≡ some k) (num_inj (sym p.1 ∙ e)) (h ∙ ap some (sym p.0))
    place k i e (inr p) = b.places.sound k i (sym p ∙ e)

    early : (k : Text) (i : ℕ) → lookup k ((f, index) ∷ seen) ≡ some i → Looked k → i < suc index
    early k i e (inl p) = omega (arith, num_inj (sym p.1 ∙ e))
    early k i e (inr p) = omega (arith, b.below k i (sym p ∙ e))

-- The folders that are left stand in `keys` from `index` on.
unfoldable pub AreAt : List Text → ℕ → List Text → Type 0
AreAt keys index [] = Unit
AreAt keys index (f ∷ rest) = (get_elem? keys index ≡ some f) × AreAt keys (suc index) rest

-- The first loop.
seen-AllClash :
    (keys : List Text) (index : ℕ) (seen : Seen) (f : Text) (found : Option Pair)
    → get_elem? keys index ≡ some f
    → IsBefore keys index seen
    → AllClash keys found
    → AllClash keys (consider_seen (lookup f seen) index found)
seen-AllClash keys index seen f found h b c = elim (Option-cases (lookup f seen)) [
  | inl e ↦ rw e c
  | inr (i, e) ↦ rw e (
      consider-AllClash keys found (i, index) c
        (record {
          first = f;
          second = f;
          before = b.below f i e;
          first_is = b.places.sound f i e;
          second_is = h;
          overlap = inl refl;
        }))
]

pub equal-IsSeen :
    (keys : List Text) (index : ℕ) (rest : List Text) (seen : Seen) (found : Option Pair)
    → AreAt keys index rest
    → IsBefore keys index seen
    → AllClash keys found
    → IsSeen keys (equal_folders index rest seen found).0
      × AllClash keys (equal_folders index rest seen found).1
unfolding equal_folders AreAt
equal-IsSeen keys index [] seen found a b c = (b.places, c)
equal-IsSeen keys index (f ∷ rest) seen found a b c =
    equal-IsSeen keys (suc index) rest _ _ a.1
      (remember-IsBefore keys index seen f (lookup f seen) a.0 b)
      (seen-AllClash keys index seen f found a.0 b c)

seen-IsFound :
    (o : Option ℕ) (index : ℕ) (found : Option Pair)
    → (IsFound found) ⊎ (o ≢ none)
    → IsFound (consider_seen o index found)
seen-IsFound none index found (inl h) = h
seen-IsFound none index found (inr h) = absurd (h refl)
seen-IsFound (some i) index found h = consider-IsFound found _

equal-kept :
    (index : ℕ) (rest : List Text) (seen : Seen) (found : Option Pair)
    → IsFound found
    → IsFound (equal_folders index rest seen found).1
unfolding equal_folders
equal-kept index [] seen found h = h
equal-kept index (f ∷ rest) seen found h =
    equal-kept (suc index) rest _ _ (seen-IsFound (lookup f seen) index found (inl h))

equal-lookup :
    (k : Text) (index : ℕ) (rest : List Text) (seen : Seen) (found : Option Pair)
    → lookup k seen ≢ none
    → lookup k (equal_folders index rest seen found).0 ≢ none
unfolding equal_folders
equal-lookup k index [] seen found h = h
equal-lookup k index (f ∷ rest) seen found h =
    equal-lookup k (suc index) rest _ _ (remember-kept k f (lookup f seen) index seen h)

-- Every folder is remembered.
pub all-lookup :
    (k : Text) (index : ℕ) (rest : List Text) (seen : Seen) (found : Option Pair) (i : ℕ)
    → get_elem? rest i ≡ some k
    → lookup k (equal_folders index rest seen found).0 ≢ none
unfolding equal_folders
all-lookup k index [] seen found i e = λ _. nothing e
  where
    nothing : none ≡ some k → ⊥
    nothing e = cc
all-lookup k index (f ∷ rest) seen found zero e = equal-lookup k (suc index) rest _ _ (
    subst (λ t. lookup t (remember (lookup f seen) f index seen) ≢ none) (some_inj e)
      (remember-new f index seen))
all-lookup k index (f ∷ rest) seen found (suc i) e = all-lookup k (suc index) rest _ _ i e

-- A folder that was seen before is found again.
again-IsFound :
    (k : Text) (index : ℕ) (rest : List Text) (seen : Seen) (found : Option Pair) (j : ℕ)
    → lookup k seen ≢ none
    → get_elem? rest j ≡ some k
    → IsFound (equal_folders index rest seen found).1
unfolding equal_folders
again-IsFound k index [] seen found j h e = absurd (nothing e)
  where
    nothing : none ≡ some k → ⊥
    nothing e = cc
again-IsFound k index (f ∷ rest) seen found zero h e = equal-kept (suc index) rest _ _ (
    seen-IsFound (lookup f seen) index found
      (inr (subst (λ t. lookup t seen ≢ none) (sym (some_inj e)) h)))
again-IsFound k index (f ∷ rest) seen found (suc j) h e =
    again-IsFound k (suc index) rest _ _ j (remember-kept k f (lookup f seen) index seen h) e

pub twice-IsFound :
    (k : Text) (index : ℕ) (rest : List Text) (seen : Seen) (found : Option Pair) (i j : ℕ)
    → i < j
    → get_elem? rest i ≡ some k
    → get_elem? rest j ≡ some k
    → IsFound (equal_folders index rest seen found).1
unfolding equal_folders
twice-IsFound k index [] seen found i j l e e' = absurd (nothing e)
  where
    nothing : none ≡ some k → ⊥
    nothing e = cc
twice-IsFound k index (f ∷ rest) seen found i zero l e e' = absurd (omega (arith, l))
twice-IsFound k index (f ∷ rest) seen found zero (suc j) l e e' =
    again-IsFound k (suc index) rest _ _ j
      (subst (λ t. lookup t (remember (lookup f seen) f index seen) ≢ none) (some_inj e)
        (remember-new f index seen))
      e'
twice-IsFound k index (f ∷ rest) seen found (suc i) (suc j) l e e' =
    twice-IsFound k (suc index) rest _ _ i j (omega (arith, l)) e e'
