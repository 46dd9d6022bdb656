-- ===== src/Name/Pieces.antt =====
-- The operations on `str` that src/name.rs calls, and what they keep of a text.
use fetchloom.Base.{
  ℕ, zero, suc, ◌+◌, ◌≤◌, ◌≡◌, refl, inl, inr, Bool, true, false, ◌&&◌, ◌||◌, List, [], ◌∷◌, ◌++◌,
  Option, none, some, arith, ltb, leb, ◌==◌, length, any, all, All, not, if◌then◌else◌, Bool-cases,
}
use fetchloom.Base.Text.{
  Text, utf8_width, byte_len, drop_while, drop_while_end, keep_before, glue, split,
}

-- `starts_with` and `ends_with` with a test on one character.
unfoldable pub starts_with : (ℕ → Bool) → Text → Bool
starts_with p [] = false
starts_with p (c ∷ s) = p c

unfoldable pub ends_with : (ℕ → Bool) → Text → Bool
ends_with p [] = false
ends_with p (c ∷ []) = p c
ends_with p (c ∷ d ∷ s) = ends_with p (d ∷ s)

-- The first `n` characters.
unfoldable pub take : ℕ → Text → Text
take zero s = []
take (suc n) [] = []
take (suc n) (c ∷ s) = c ∷ take n s

-- `rfind`: where a character stands last.
abbrev pub later_place : Bool → Option ℕ → Option ℕ
later_place true none = some 0
later_place false none = none
later_place _ (some i) = some (suc i)

unfoldable pub rfind : (ℕ → Bool) → Text → Option ℕ
rfind p [] = none
rfind p (c ∷ s) = later_place (p c) (rfind p s)

-- `split` with a test on one character.
unfoldable pub split_by : (ℕ → Bool) → Text → List Text
split_by p [] = [] ∷ []
split_by p (c ∷ s) = if p c then [] ∷ split_by p s else glue c (split_by p s)

-- A lower case letter, a digit and a letter of ASCII.
abbrev pub is_lower : ℕ → Bool
is_lower c = leb b'a' c && leb c b'z'

abbrev pub is_letter : ℕ → Bool
is_letter c = is_lower c || (leb b'A' c && leb c b'Z')

-- What is cut from a text starts as the text does, holds only its characters and is no longer.
pub all-append :
    (q : ℕ → Bool) (s t : Text) → all q s ≡ true → all q t ≡ true → all q (s ++ t) ≡ true
all-append q [] t h k = k
all-append q (c ∷ s) t h k = ground (arith, all-append q s t, h, k)

pub all-take : (q : ℕ → Bool) (n : ℕ) (s : Text) → all q s ≡ true → all q (take n s) ≡ true
unfolding take
all-take q zero s h = refl
all-take q (suc n) [] h = refl
all-take q (suc n) (c ∷ s) h = ground (arith, all-take q n s, h)

pub all-drop_while : (q p : ℕ → Bool) (s : Text) → all q s ≡ true → all q (drop_while p s) ≡ true
unfolding drop_while
all-drop_while q p [] h = refl
all-drop_while q p (c ∷ s) h = ground (arith, all-drop_while q p s, h)

all-keep_before :
    (q p : ℕ → Bool) (c : ℕ) (s : Text)
    → q c ≡ true
    → all q s ≡ true
    → all q (keep_before p c s) ≡ true
all-keep_before q p c [] h k = ground (arith, h)
all-keep_before q p c (d ∷ s) h k = ground (arith, h, k)

pub all-drop_while_end :
    (q p : ℕ → Bool) (s : Text) → all q s ≡ true → all q (drop_while_end p s) ≡ true
unfolding drop_while_end
all-drop_while_end q p [] h = refl
all-drop_while_end q p (c ∷ s) h =
    all-keep_before q p c (drop_while_end p s) (ground (arith, h))
      (all-drop_while_end q p s (ground (arith, h)))

pub starts_with-drop_while : (p : ℕ → Bool) (s : Text) → starts_with p (drop_while p s) ≡ false
unfolding drop_while starts_with
starts_with-drop_while p [] = refl
starts_with-drop_while p (c ∷ s) = elim (Bool-cases (p c)) [
  | inl h ↦ rw h (starts_with-drop_while p s)
  | inr h ↦ rw h h
]

pub starts_with-drop_while_end :
    (q p : ℕ → Bool) (s : Text)
    → starts_with q s ≡ false
    → starts_with q (drop_while_end p s) ≡ false
unfolding drop_while_end starts_with
starts_with-drop_while_end q p [] h = refl
starts_with-drop_while_end q p (c ∷ s) h = from (drop_while_end p s)
  where
    from : (t : Text) → starts_with q (keep_before p c t) ≡ false
    from [] = elim (Bool-cases (p c)) [ inl e ↦ rw e refl | inr e ↦ rw e h ]
    from (d ∷ t) = h

pub starts_with-take :
    (q : ℕ → Bool) (n : ℕ) (s : Text) → starts_with q s ≡ false → starts_with q (take n s) ≡ false
unfolding take starts_with
starts_with-take q zero s h = refl
starts_with-take q (suc n) [] h = refl
starts_with-take q (suc n) (c ∷ s) h = h

pub length-take : (n : ℕ) (s : Text) → length (take n s) ≤ n
unfolding take
length-take zero s = omega arith
length-take (suc n) [] = omega arith
length-take (suc n) (c ∷ s) = omega (arith, length-take n s)

pub length-drop_while_end : (p : ℕ → Bool) (s : Text) → length (drop_while_end p s) ≤ length s
unfolding drop_while_end
length-drop_while_end p [] = omega arith
length-drop_while_end p (c ∷ s) =
    omega (arith, kept (drop_while_end p s), length-drop_while_end p s)
  where
    kept : (t : Text) → length (keep_before p c t) ≤ suc (length t)
    kept [] = elim (Bool-cases (p c)) [ inl e ↦ rw e (omega arith) | inr e ↦ rw e (omega arith) ]
    kept (d ∷ t) = omega arith

-- A text of ASCII has as many bytes as characters.
pub byte_len-ascii : (s : Text) → all (λ c. ltb c 0x80) s ≡ true → byte_len s ≡ length s
unfolding byte_len utf8_width
byte_len-ascii [] h = refl
byte_len-ascii (c ∷ s) h = ground (arith, byte_len-ascii s, h)

pub all_mono :
    (p q : ℕ → Bool)
    → ((c : ℕ) → p c ≡ true → q c ≡ true)
    → (s : Text) → all p s ≡ true
    → all q s ≡ true
all_mono p q f [] h = refl
all_mono p q f (c ∷ s) h = ground (arith, f c, all_mono p q f s, h)

pub any-all : (p : ℕ → Bool) (s : Text) → all (λ c. not (p c)) s ≡ true → any p s ≡ false
any-all p [] h = refl
any-all p (c ∷ s) h = ground (arith, any-all p s, h)

pub all-any : (p : ℕ → Bool) (s : Text) → any p s ≡ false → all (λ c. not (p c)) s ≡ true
all-any p [] h = refl
all-any p (c ∷ s) h = ground (arith, all-any p s, h)

-- What holds of a text holds of its pieces.
module _ (q p : ℕ → Bool) where
  pub glue-pieces :
      (c : ℕ) (ws : List Text)
      → q c ≡ true
      → All (λ w. all q w ≡ true) ws
      → All (λ w. all q w ≡ true) (glue c ws)
  glue-pieces c [] h k = (ground (arith, h), tt)
  glue-pieces c (w ∷ ws) h k = (ground (arith, h, k.0), k.1)

  pub split_by-pieces : (s : Text) → all q s ≡ true → All (λ w. all q w ≡ true) (split_by p s)
  unfolding split_by
  split_by-pieces [] h = (refl, tt)
  split_by-pieces (c ∷ s) h = elim (Bool-cases (p c)) [
    | inl e ↦ rw e (refl, split_by-pieces s (ground (arith, h)))
    | inr e ↦ rw e (glue-pieces c _ (ground (arith, h)) (split_by-pieces s (ground (arith, h))))
  ]

-- No piece holds what the text is split at.
pub split_by-apart :
    (p : ℕ → Bool) (s : Text) → All (λ w. all (λ c. not (p c)) w ≡ true) (split_by p s)
unfolding split_by
split_by-apart p [] = (refl, tt)
split_by-apart p (c ∷ s) = elim (Bool-cases (p c)) [
  | inl e ↦ rw e (refl, split_by-apart p s)
  | inr e ↦ rw e (glue-pieces (λ c. not (p c)) p c _ (ground (arith, e)) (split_by-apart p s))
]

-- What is trimmed from the end is gone from there.
pub ends_with-drop_while_end : (p : ℕ → Bool) (s : Text) → ends_with p (drop_while_end p s) ≡ false
unfolding drop_while_end ends_with
ends_with-drop_while_end p [] = refl
ends_with-drop_while_end p (c ∷ s) = from (drop_while_end p s) (ends_with-drop_while_end p s)
  where
    from : (t : Text) → ends_with p t ≡ false → ends_with p (keep_before p c t) ≡ false
    from [] h = elim (Bool-cases (p c)) [ inl e ↦ rw e refl | inr e ↦ rw e e ]
    from (d ∷ t) h = h

pub byte_len-drop_while_end : (p : ℕ → Bool) (s : Text) → byte_len (drop_while_end p s) ≤ byte_len s
unfolding drop_while_end byte_len
byte_len-drop_while_end p [] = omega arith
byte_len-drop_while_end p (c ∷ s) =
    omega (arith, kept (drop_while_end p s), byte_len-drop_while_end p s)
  where
    kept : (t : Text) → byte_len (keep_before p c t) ≤ utf8_width c + byte_len t
    kept [] = elim (Bool-cases (p c)) [ inl e ↦ rw e (omega arith) | inr e ↦ rw e (omega arith) ]
    kept (d ∷ t) = omega arith

-- A text without the character is one piece.
pub split-whole : (d : ℕ) (s : Text) → all (λ c. not (c == d)) s ≡ true → split d s ≡ s ∷ []
unfolding split
split-whole d [] h = refl
split-whole d (c ∷ s) h = elim (Bool-cases (c == d)) [
  | inl e ↦ ground (arith, e, h)
  | inr e ↦ rw (e, split-whole d s (ground (arith, h))) refl
]
