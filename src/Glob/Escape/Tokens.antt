-- ===== src/Glob/Escape/Tokens.antt =====
-- An escaped name parses to tokens that each fit one character of it.
use fetchloom.Base.{
  ℕ, zero, suc, ◌≤◌, ◌≡◌, refl, ap, ap₂, ◌∙◌, ◌↔◌, true, false, List, [], ◌∷◌, ◌++◌, map,
  append_assoc, append-nil, arith, length, any, if◌then◌else◌, Bool-cases, inl, inr,
}
use fetchloom.Base.Text.{Text, text_eq, codes}
use fetchloom.Glob.Pattern.{Token, char, set, named, fits}
use fetchloom.Glob.Parse.{
  ok, read_set, token, tokens_loop, part_of, parts_of, is_empty, is_special, escape,
}
use fetchloom.Glob.Name.{Fits, finished, take_one}
use fetchloom.Glob.Name.Decides.{plain_inv}
use fetchloom.Glob.Path.Decides.{Covers, covered, by_name}

abbrev pub lit : ℕ → Token
lit c = if is_special c then set false ((c, c) ∷ []) else char c

abbrev pub lits : Text → List Token
lits [] = []
lits (c ∷ s) = lit c ∷ lits s

read_set_self :
    (c : ℕ) (s : Text)
    → is_special c ≡ true
    → read_set (c ∷ b']' ∷ s) ≡ ok (set false ((c, c) ∷ []), s)
unfolding read_set
read_set_self c [] h = ground arith
read_set_self c (d ∷ []) h = ground arith
read_set_self c (d ∷ e ∷ s) h = ground arith

token-plain : (c : ℕ) (s : Text) → is_special c ≡ false → token c s ≡ ok (char c, s)
unfolding token
token-plain c s h = ground arith

tokens_loop-escape :
    (s : Text) (fuel : ℕ) (acc : List Token)
    → length (escape s) ≤ fuel
    → tokens_loop fuel (escape s) acc ≡ ok (acc ++ lits s)
unfolding escape tokens_loop
tokens_loop-escape [] fuel acc h = rw append-nil
tokens_loop-escape (c ∷ s) zero acc h = ground arith
tokens_loop-escape (c ∷ s) (suc fuel) acc h = elim (Bool-cases (is_special c)) [
  | inl e ↦ rw e (
      rw (read_set_self c (escape s) e) (
        tokens_loop-escape s fuel (acc ++ set false ((c, c) ∷ []) ∷ []) (ground arith)
        ∙ ap ok (append_assoc acc (set false ((c, c) ∷ []) ∷ []) (lits s))))
  | inr e ↦ rw e (
      rw (token-plain c (escape s) e) (
        tokens_loop-escape s fuel (acc ++ char c ∷ []) (ground arith)
        ∙ ap ok (append_assoc acc (char c ∷ []) (lits s))))
]

-- Only the two stars are `**`, and an escaped name does not start with a star.
escape-ne-stars : (s : Text) → text_eq (escape s) (codes "**") ≡ false
unfolding escape text_eq
escape-ne-stars [] = refl
escape-ne-stars (c ∷ s) = ground arith

part_of-escape : (s : Text) → part_of (escape s) ≡ ok (named (lits s))
unfolding part_of
part_of-escape s =
    rw (escape-ne-stars s) (rw (tokens_loop-escape s (length (escape s)) [] (omega arith)) refl)

pub parts_of-escape :
    (ps : List Text)
    → any is_empty ps ≡ false
    → parts_of (map escape ps) ≡ ok (map (λ n. named (lits n)) ps)
unfolding parts_of
parts_of-escape [] h = refl
parts_of-escape (p ∷ ps) h = rw (part_of-escape p, parts_of-escape ps (ground arith)) refl

fits-lit : (c d : ℕ) → (fits (lit c) d ≡ true) ↔ (d ≡ c)
unfolding fits
fits-lit c d = elim (Bool-cases (is_special c)) [
  | inl e ↦ rw e ((λ h. ground arith), λ h. ground arith)
  | inr e ↦ rw e ((λ h. ground arith), λ h. ground arith)
]

Fits-lits : (s : Text) → Fits (lits s) s
Fits-lits [] = finished
Fits-lits (c ∷ s) = take_one ((fits-lit c c).1 refl) (Fits-lits s)

lits-Fits : (s t : Text) → Fits (lits s) t → t ≡ s
lits-Fits [] t finished = refl
lits-Fits (c ∷ s) t d =
    let (x, xs, e, h, rest) = plain_inv (lit c) (lits s) (ground arith) d in
    e ∙ ap₂ ◌∷◌ ((fits-lit c x).0 h) (lits-Fits s xs rest)

pub Covers-lits : (ps : List Text) → Covers (map (λ n. named (lits n)) ps) ps
Covers-lits [] = covered
Covers-lits (p ∷ ps) = by_name (Fits-lits p) (Covers-lits ps)

pub lits-Covers : (ps qs : List Text) → Covers (map (λ n. named (lits n)) ps) qs → qs ≡ ps
lits-Covers [] qs covered = refl
lits-Covers (p ∷ ps) qs (by_name d c) = ap₂ ◌∷◌ (lits-Fits p _ d) (lits-Covers ps _ c)
