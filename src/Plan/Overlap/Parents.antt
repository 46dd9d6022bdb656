-- ===== src/Plan/Overlap/Parents.antt =====
-- The loop over the parents of a folder meets every folder that it lies inside.
use fetchloom.Base.{
  ℕ, zero, suc, ◌<◌, ◌≡◌, refl, sym, ap, ap₂, subst, ◌∙◌, ◌⊎◌, inl, inr, Bool, true, false, [], ◌∷◌,
  ◌++◌, append_assoc, Option, none, some, arith, ◌==◌, length, if◌then◌else◌,
}
use fetchloom.Base.Text.{Text}
use fetchloom.Plan.Paths.{rsplit_once, last_split}

-- The second folder lies inside the first.
pub record IsInside (outer inner : Text) : Type 0 where
  pub rest : Text
  pub path_is : inner ≡ outer ++ (b'/' ∷ rest)

-- What `rsplit_once` gives.
abbrev split_as : Text → Text → Option (Text × Text)
split_as a b = some (a, b)

fst_eq : {a a' b b' : Text} → split_as a b ≡ split_as a' b' → a ≡ a'
fst_eq e = cc

snd_eq : {a a' b b' : Text} → split_as a b ≡ split_as a' b' → b ≡ b'
snd_eq e = cc

-- A hit at the front, and one further on.
at_front :
    (c d : ℕ) (s a b : Text) (t : Bool)
    → (d == c) ≡ t
    → (if t then split_as [] s else none) ≡ split_as a b
    → d ∷ s ≡ a ++ (c ∷ b)
at_front c d s [] b true h e = ap₂ (λ x y. x ∷ y) (ground (arith, h)) (snd_eq e)
at_front c d s (x ∷ a) b true h e = cc
at_front c d s a b false h e = cc

further_on :
    (c d : ℕ) (s a' b' a b : Text)
    → s ≡ a' ++ (c ∷ b')
    → split_as (d ∷ a') b' ≡ split_as a b
    → d ∷ s ≡ a ++ (c ∷ b)
further_on c d s a' b' a b h e = ap (λ t. d ∷ t) h ∙ ap₂ (λ u v. u ++ (c ∷ v)) (fst_eq e) (snd_eq e)

rsplit_once_lem : (c : ℕ) (s a b : Text) → rsplit_once c s ≡ some (a, b) → s ≡ a ++ (c ∷ b)
unfolding rsplit_once
rsplit_once_lem c [] a b = λ e. cc
rsplit_once_lem c (d ∷ s) a b = from (rsplit_once c s) (rsplit_once_lem c s)
  where
    from :
        (o : Option (Text × Text))
        → ((a b : Text) → o ≡ some (a, b) → s ≡ a ++ (c ∷ b))
        → last_split c d s o ≡ some (a, b)
        → d ∷ s ≡ a ++ (c ∷ b)
    from none f e = at_front c d s a b (d == c) refl e
    from (some (a', b')) f e = further_on c d s a' b' a b (f a' b' refl) e

==_refl : (c : ℕ) → (c == c) ≡ true
==_refl c = ground arith

-- Where a text splits: what stands before the last slash when there is none later, or before an
-- earlier one.
rsplit_once-append :
    (c : ℕ) (a b : Text)
    → (rsplit_once c (a ++ (c ∷ b)) ≡ some (a, b))
      ⊎ ((b1 : Text) × (b2 : Text) × (b ≡ b1 ++ (c ∷ b2))
          × (rsplit_once c (a ++ (c ∷ b)) ≡ some (a ++ (c ∷ b1), b2)))
unfolding rsplit_once
rsplit_once-append c [] b = from (rsplit_once c b) refl
  where
    from :
        (o : Option (Text × Text))
        → rsplit_once c b ≡ o
        → (last_split c c b (rsplit_once c b) ≡ some ([], b))
          ⊎ ((b1 : Text) × (b2 : Text) × (b ≡ b1 ++ (c ∷ b2))
              × (last_split c c b (rsplit_once c b) ≡ some (c ∷ b1, b2)))
    from none e = inl (ap (last_split c c b) e ∙ rw (==_refl c) refl)
    from (some (b1, b2)) e = inr (b1, b2, rsplit_once_lem c b b1 b2 e, ap (last_split c c b) e)
rsplit_once-append c (d ∷ a) b = elim (rsplit_once-append c a b) [
  | inl e ↦ inl (ap (last_split c d (a ++ (c ∷ b))) e)
  | inr (b1, b2, h, e) ↦ inr (b1, b2, h, ap (last_split c d (a ++ (c ∷ b))) e)
]

-- A parent is found by repeated splits.
pub data IsParent : Option (Text × Text) → Text → Type 0 where
  here : {up after : Text} → IsParent (some (up, after)) up
  there : {up after t : Text} → IsParent (rsplit_once b'/' up) t → IsParent (some (up, after)) t

length-append_lt : (a b : Text) (c : ℕ) → length a < length (a ++ (c ∷ b))
length-append_lt [] b c = omega arith
length-append_lt (d ∷ a) b c = omega (arith, length-append_lt a b c)

length-after_lt : (a b : Text) (c : ℕ) → length b < length (a ++ (c ∷ b))
length-after_lt [] b c = omega arith
length-after_lt (d ∷ a) b c = omega (arith, length-after_lt a b c)

inside-IsParent :
    (fuel : ℕ) (a b : Text) → length b < fuel → IsParent (rsplit_once b'/' (a ++ (b'/' ∷ b))) a
inside-IsParent zero a b h = elim (no h) [ ]
  where
    no : length b < 0 → ⊥
    no h = omega (arith, h)
inside-IsParent (suc fuel) a b h = elim (rsplit_once-append b'/' a b) [
  | inl e ↦ subst (λ o. IsParent o a) (sym e) here
  | inr (b1, b2, k, e) ↦
      subst (λ o. IsParent o a) (sym e)
        (there
          (inside-IsParent fuel a b1 (omega (arith, h, ap length k, length-append_lt b1 b2 b'/'))))
]

pub IsInside-IsParent :
    (outer inner : Text) → IsInside outer inner → IsParent (rsplit_once b'/' inner) outer
IsInside-IsParent outer inner h =
    subst (λ s. IsParent (rsplit_once b'/' s) outer) (sym h.path_is)
      (inside-IsParent (suc (length h.rest)) outer h.rest (omega arith))

-- A folder inside another is longer, and what is inside of it is inside of the other.
pub IsInside-longer : (outer inner : Text) → IsInside outer inner → length outer < length inner
IsInside-longer outer inner h =
    omega (arith, ap length h.path_is, length-append_lt outer h.rest b'/')

pub IsInside-trans : (a b c : Text) → IsInside a b → IsInside b c → IsInside a c
IsInside-trans a b c h k = record {
  rest = h.rest ++ (b'/' ∷ k.rest);
  path_is =
      k.path_is
      ∙ ap (λ s. s ++ (b'/' ∷ k.rest)) h.path_is
      ∙ append_assoc a (b'/' ∷ h.rest) (b'/' ∷ k.rest);
}

pub rsplit_once-IsInside : (s a b : Text) → rsplit_once b'/' s ≡ some (a, b) → IsInside a s
rsplit_once-IsInside s a b e = record { rest = b; path_is = rsplit_once_lem b'/' s a b e }
