-- ===== src/Response/Quoted.antt =====
-- A file name that a server writes between quotes is the one that is read.
use fetchloom.Base.{
  ℕ, ◌≡◌, refl, ap, ◌∙◌, inl, inr, Bool, true, false, ◌||◌, List, [], ◌∷◌, ◌++◌, Option, none, some,
  arith, ◌==◌, all, length, if◌then◌else◌, Bool-cases,
}
use fetchloom.Base.Text.{Text, codes, text_eq, is_whitespace}
use fetchloom.Pace.Headers.{or_next}
use fetchloom.Response.{
  push, unquote, behind, parameter, parameters_from, parameters, cons_found, Found, named_from,
  unless_blank, disposition,
}

abbrev is_special : ℕ → Bool
is_special c = c == b'"' || c == b'\\'

-- A name as a quoted string has it.
abbrev pub escaped : Text → Text
escaped [] = []
escaped (c ∷ s) = if is_special c then b'\\' ∷ c ∷ escaped s else c ∷ escaped s

abbrev pub in_quotes : Text → Text
in_quotes name = b'"' ∷ (escaped name ++ (b'"' ∷ []))

abbrev is_filled : Text → Bool
is_filled [] = false
is_filled (c ∷ s) = true

escaped-filled : (s t : Text) → is_filled t ≡ true → is_filled (escaped s ++ t) ≡ true
escaped-filled [] t h = h
escaped-filled (c ∷ s) t h = elim (Bool-cases (is_special c)) [
  | inl e ↦ rw e refl
  | inr e ↦ rw e refl
]

unquote-plain :
    (c : ℕ) (s : Text)
    → is_special c ≡ false
    → is_filled s ≡ true
    → unquote (c ∷ s) ≡ push c (unquote s)
unfolding unquote
unquote-plain c [] h k = absurd (empty k)
  where
    empty : false ≡ true → ⊥
    empty x = cc
unquote-plain c (d ∷ s) h k = rw (quote c h, slash c h) refl
  where
    quote : (c : ℕ) → is_special c ≡ false → (c == b'"') ≡ false
    quote c h = ground (arith, h)

    slash : (c : ℕ) → is_special c ≡ false → (c == b'\\') ≡ false
    slash c h = ground (arith, h)

unquote-quote : (rest : Text) → unquote (b'"' ∷ rest) ≡ ([], rest)
unfolding unquote
unquote-quote [] = refl
unquote-quote (d ∷ s) = refl

unquote-slash : (c : ℕ) (s : Text) → unquote (b'\\' ∷ c ∷ s) ≡ push c (unquote s)
unfolding unquote
unquote-slash c s = refl

unquote-escaped : (s : Text) → unquote (escaped s ++ (b'"' ∷ [])) ≡ (s, [])
unquote-escaped [] = unquote-quote []
unquote-escaped (c ∷ s) = elim (Bool-cases (is_special c)) [
  | inl e ↦ rw e (unquote-slash c (escaped s ++ (b'"' ∷ [])) ∙ ap (push c) (unquote-escaped s))
  | inr e ↦ rw e (
      unquote-plain c (escaped s ++ (b'"' ∷ [])) e (escaped-filled s (b'"' ∷ []) refl)
      ∙ ap (push c) (unquote-escaped s))
]

abbrev header : Text → Text
header name = codes "attachment; filename=" ++ in_quotes name

parameter-quoted :
    (name : Text)
    → parameter (codes " filename=" ++ in_quotes name) ≡ (some (codes "filename", name), [])
unfolding parameter behind
parameter-quoted name =
    ap (λ (r : Text × Text). (some (codes "filename", r.0), behind r.1)) (unquote-escaped name)

parameters-header : (name : Text) → parameters (header name) ≡ (codes "filename", name) ∷ []
unfolding parameters parameters_from behind is_whitespace
parameters-header name =
    ap
      (λ (r : Found).
        cons_found r.0 (parameters_from (length (codes " filename=" ++ in_quotes name)) r.1))
      (parameter-quoted name)

abbrev pick : Option Text × Option Text → Option Text
pick r = or_next r.1 r.0

module _ (percent_decode : Text → List ℕ) (from_utf8 : List ℕ → Option Text) where
  -- A name between quotes, with `\` before each quote and each `\`, is the name that `disposition`
  -- reads, unless it is blank.
  pub disposition-escaped :
      (name : Text)
      → all is_whitespace name ≡ false
      → disposition percent_decode from_utf8 (header name) ≡ some name
  unfolding disposition named_from text_eq
  disposition-escaped name h =
      ap (λ found. unless_blank (pick (named_from percent_decode from_utf8 none none found)))
        (parameters-header name)
      ∙ rw h refl
