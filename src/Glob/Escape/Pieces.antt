-- ===== src/Glob/Escape/Pieces.antt =====
-- What escaping leaves alone: the pieces between the slashes, and what `Glob::new` looks for.
use fetchloom.Base.{
  ℕ, ◌≡◌, refl, sym, ap, ap₂, ◌∙◌, false, List, [], ◌∷◌, map, arith, ◌==◌, ==_iff, any, Bool-cases,
  inl, inr,
}
use fetchloom.Base.Text.{Text, is_control, trim_start, split, join, glue}
use fetchloom.Glob.Parse.{find_char, is_empty, escape}

pub is_empty-escape : (s : Text) → any is_empty (split b'/' s) ≡ false → is_empty (escape s) ≡ false
unfolding escape split
is_empty-escape [] h = cc
is_empty-escape (c ∷ s) h = ground arith

pub backslash-escape : (s : Text) → any (λ c. c == b'\\') (escape s) ≡ any (λ c. c == b'\\') s
unfolding escape
backslash-escape [] = refl
backslash-escape (c ∷ s) = ground (arith, backslash-escape s)

pub find_char-escape : (s : Text) → find_char is_control (escape s) ≡ find_char is_control s
unfolding escape find_char is_control
find_char-escape [] = refl
find_char-escape (c ∷ s) = ground (arith, find_char-escape s)

pub trim_start-escape :
    (s : Text) → any is_empty (split b'/' s) ≡ false → trim_start b'/' (escape s) ≡ escape s
unfolding escape trim_start split
trim_start-escape [] h = refl
trim_start-escape (c ∷ s) h = ground arith

pub any-is_empty-escape : (ps : List Text) → any is_empty (map escape ps) ≡ any is_empty ps
unfolding escape
any-is_empty-escape [] = refl
any-is_empty-escape ([] ∷ ps) = refl
any-is_empty-escape ((c ∷ s) ∷ ps) = ground (arith, any-is_empty-escape ps)

pub split-escape : (s : Text) → split b'/' (escape s) ≡ map escape (split b'/' s)
unfolding escape split
split-escape [] = refl
split-escape (c ∷ s) = ground (arith, split-escape s)

split_some : (c : ℕ) (s : Text) → (q : Text) × (qs : List Text) × (split c s ≡ q ∷ qs)
unfolding split
split_some c [] = ([], [], refl)
split_some c (d ∷ s) = elim (Bool-cases (d == c)) [
  | inl e ↦ ([], split c s, rw e)
  | inr e ↦ let (q, qs, h) = split_some c s in (d ∷ q, qs, rw (e, h) refl)
]

join-glue : (c d : ℕ) (ps : List Text) → join c (glue d ps) ≡ d ∷ join c ps
unfolding join
join-glue c d [] = refl
join-glue c d (p ∷ []) = refl
join-glue c d (p ∷ q ∷ ps) = refl

join-split : (c : ℕ) (s : Text) → join c (split c s) ≡ s
unfolding join split
join-split c [] = refl
join-split c (d ∷ s) = elim (Bool-cases (d == c)) [
  | inl e ↦
      let (q, qs, h) = split_some c s in
      rw (e, h) (ap₂ ◌∷◌ (sym ((==_iff d c).0 e)) (ap (join c) (sym h) ∙ join-split c s))
  | inr e ↦ rw e (join-glue c d (split c s) ∙ ap (◌∷◌ d) (join-split c s))
]

pub split-injective : (c : ℕ) (s t : Text) → split c s ≡ split c t → s ≡ t
split-injective c s t h = sym (join-split c s) ∙ (ap (join c) h ∙ join-split c t)
