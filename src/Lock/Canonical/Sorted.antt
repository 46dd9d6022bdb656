-- ===== src/Lock/Canonical/Sorted.antt =====
-- Sorting leaves a sorted list as it is.
use fetchloom.Base.{◌≡◌, refl, ap, ◌∙◌, true, false, List, [], ◌∷◌, Option, some, arith}
use fetchloom.Base.Text.{Text}
use fetchloom.Lock.Format.{text_less, insert, sort_by}
use fetchloom.Lock.Canonical.{follows}

text_less_asym : (s t : Text) → text_less s t ≡ true → text_less t s ≡ false
unfolding text_less
text_less_asym s [] h = cc
text_less_asym [] (d ∷ t) h = refl
text_less_asym (c ∷ s) (d ∷ t) h = ground (arith, text_less_asym s t, h)

module _ {A : Type 0} (key : A → Text) where
  -- Each key comes after the one before it.
  abbrev pub IsAscending : Option Text → List A → Type 0
  IsAscending last [] = Unit
  IsAscending last (a ∷ rest) = (follows last (key a) ≡ true) × IsAscending (some (key a)) rest

  insert-first :
      (a : A) (rest : List A) → IsAscending (some (key a)) rest → insert key a rest ≡ a ∷ rest
  unfolding insert
  insert-first a [] h = refl
  insert-first a (b ∷ rest) h = rw (text_less_asym (key a) (key b) h.0) refl

  pub sort_by-IsAscending :
      (last : Option Text) (as' : List A) → IsAscending last as' → sort_by key as' ≡ as'
  unfolding sort_by
  sort_by-IsAscending last [] h = refl
  sort_by-IsAscending last (a ∷ rest) h =
      ap (insert key a) (sort_by-IsAscending (some (key a)) rest h.1) ∙ insert-first a rest h.1
