-- ===== src/Glob/Parse/Total.antt =====
-- The parser of patterns always ends, with a pattern or with one of the reasons of the code.
use fetchloom.Base.{
  ℕ, zero, suc, ◌≤◌, ◌<◌, ◌≡◌, refl, inl, inr, Bool, true, false, List, [], ◌∷◌, ◌++◌, arith,
  length, ◌==◌, any, All, All-append, if◌then◌else◌, Bool-cases, Option-cases,
}
use fetchloom.Base.Text.{Text, is_control, trim_start, split, text_eq, codes}
use fetchloom.Glob.Pattern.{Token, set, Part, any_folders, named, Glob}
use fetchloom.Glob.Parse.{
  out_of_fuel, empty_folder, Parsed, ok, err, ◌>>=◌, Ranges, set_loop, read_set, token, tokens_loop,
  tokens, part_of, parts_of, find_char, is_empty, new,
}

-- A value of which `P` holds, or a reason that the code can give.
abbrev pub Ends {ℓ} : {A : Type ℓ} → (A → Type 0) → Parsed A → Type 0
Ends P (ok a) = P a
Ends P (err out_of_fuel) = ⊥
Ends P (err _) = Unit

Ends-bind {ℓ κ} :
    {A : Type ℓ} {B : Type κ} (P : A → Type 0) (Q : B → Type 0) (m : Parsed A) (f : A → Parsed B)
    → Ends P m
    → ((a : A) → P a → Ends Q (f a))
    → Ends Q (m >>= f)
Ends-bind P Q (ok a) f h k = k a h
Ends-bind P Q (err out_of_fuel) f h k = absurd h
Ends-bind P Q (err _) f h k = h

-- The ranges of a set run forwards, as `contains` of a range needs.
abbrev pub Forward : ℕ × ℕ → Type 0
Forward (low, high) = low ≤ high

abbrev pub TokenIsTidy : Token → Type 0
TokenIsTidy (set _ ranges) = All Forward ranges
TokenIsTidy _ = Unit

abbrev pub PartIsTidy : Part → Type 0
PartIsTidy any_folders = Unit
PartIsTidy (named ts) = All TokenIsTidy ts

-- What a set leaves is no longer than what it was given.
abbrev SetRead : ℕ → Ranges × Text → Type 0
SetRead n (ranges, rest) = All Forward ranges × (length rest ≤ n)

set_loop-Ends :
    (n : ℕ) (first : Bool) (ranges : Ranges) (s : Text)
    → All Forward ranges
    → length s ≤ n
    → Ends (SetRead n) (set_loop first ranges s)
unfolding set_loop
set_loop-Ends n first ranges [] a h = tt
set_loop-Ends n first ranges (c ∷ []) a h = ground arith
set_loop-Ends n first ranges (c ∷ d ∷ []) a h = ground (
  arith,
  set_loop-Ends n false (ranges ++ (c, c) ∷ []) (d ∷ []),
  All-append Forward ranges ((c, c) ∷ []) a,
)
set_loop-Ends n first ranges (c ∷ d ∷ e ∷ rest) a h = ground (
  arith,
  set_loop-Ends n false (ranges ++ (c, c) ∷ []) (d ∷ e ∷ rest),
  set_loop-Ends n false (ranges ++ (c, e) ∷ []) rest,
  All-append Forward ranges ((c, c) ∷ []) a,
  All-append Forward ranges ((c, e) ∷ []) a,
  All-append Forward ranges ((c, c) ∷ (b'-', b'-') ∷ []) a,
)

abbrev TokenRead : ℕ → Token × Text → Type 0
TokenRead n (t, rest) = TokenIsTidy t × (length rest ≤ n)

read_set-Ends : (s : Text) → Ends (TokenRead (length s)) (read_set s)
unfolding read_set
read_set-Ends [] = tt
read_set-Ends (c ∷ s) = ground (
  arith,
  set_loop-Ends (suc (length s)) true [] s tt,
  set_loop-Ends (suc (length s)) true [] (c ∷ s) tt,
)

token-Ends : (c : ℕ) (s : Text) → Ends (TokenRead (length s)) (token c s)
unfolding token
token-Ends c s = ground (arith, read_set-Ends s)

tokens_loop-Ends :
    (fuel : ℕ) (s : Text) (acc : List Token)
    → length s ≤ fuel
    → All TokenIsTidy acc
    → Ends (All TokenIsTidy) (tokens_loop fuel s acc)
unfolding tokens_loop
tokens_loop-Ends fuel [] acc h a = a
tokens_loop-Ends zero (c ∷ s) acc h a = absurd (omega arith)
tokens_loop-Ends (suc fuel) (c ∷ s) acc h a =
    Ends-bind (TokenRead (length s)) (All TokenIsTidy) (token c s) _ (token-Ends c s) λ (t, rest) r.
      tokens_loop-Ends fuel rest (acc ++ t ∷ []) (omega arith)
        (All-append TokenIsTidy acc (t ∷ []) a (r.0, tt))

part_of-Ends : (part : Text) → Ends PartIsTidy (part_of part)
unfolding part_of
part_of-Ends part = elim (Bool-cases (text_eq part (codes "**"))) [
  | inl e ↦ rw e tt
  | inr e ↦ rw e (
      Ends-bind (All TokenIsTidy) PartIsTidy (tokens part) _
        (tokens_loop-Ends (length part) part [] (omega arith) tt) λ ts h. h)
]

-- As many parts as there are pieces.
abbrev PartsOf : ℕ → List Part → Type 0
PartsOf n parts = All PartIsTidy parts × (length parts ≡ n)

parts_of-Ends : (ps : List Text) → Ends (PartsOf (length ps)) (parts_of ps)
unfolding parts_of
parts_of-Ends [] = (tt, refl)
parts_of-Ends (p ∷ ps) =
    Ends-bind PartIsTidy (PartsOf (suc (length ps))) (part_of p) _ (part_of-Ends p) λ part t.
      Ends-bind (PartsOf (length ps)) (PartsOf (suc (length ps))) (parts_of ps) _ (parts_of-Ends ps)
        λ rest h. ((t, h.0), omega arith)

length-split_pos : (c : ℕ) (s : Text) → 0 < length (split c s)
unfolding split
length-split_pos c [] = omega arith
length-split_pos c (d ∷ s) = ground (arith, length-split_pos c s)

-- What holds of a pattern that was taken: it keeps its text, it has a part, and every range of a
-- set runs forwards.
abbrev pub GlobIsTidy : Text → Glob → Type 0
GlobIsTidy text g = (g.text ≡ text) × All PartIsTidy g.parts × (0 < length g.parts)

-- The last steps of `new`, from the pieces between the slashes.
pieces_Ends :
    (text : Text) (ps : List Text)
    → 0 < length ps
    → Ends (GlobIsTidy text) (
        if any is_empty ps
        then err empty_folder
        else (parts_of ps >>= λ parts. ok (record { text = text; parts = parts })))
pieces_Ends text ps h = elim (Bool-cases (any is_empty ps)) [
  | inl e ↦ rw e tt
  | inr e ↦ rw e (
      Ends-bind (PartsOf (length ps)) (GlobIsTidy text) (parts_of ps) _ (parts_of-Ends ps)
        λ parts t. (refl, t.0, omega arith))
]

-- `Glob::new` always ends, with one of its reasons or with a pattern that keeps the text, has at
-- least one part, and in whose sets every range runs forwards.
pub new-Ends : (text : Text) → Ends (GlobIsTidy text) (new text)
unfolding new
new-Ends text = elim (Bool-cases (is_empty text)) [
  | inl e ↦ rw e tt
  | inr e ↦ rw e (elim (Bool-cases (any (λ c. c == b'\\') text)) [
    | inl b ↦ rw b tt
    | inr b ↦ rw b (elim (Option-cases (find_char is_control text)) [
      | inr (c, f) ↦ rw f tt
      | inl f ↦ rw f (
          pieces_Ends text (split b'/' (trim_start b'/' text))
            (length-split_pos b'/' (trim_start b'/' text)))
    ])
  ])
]
