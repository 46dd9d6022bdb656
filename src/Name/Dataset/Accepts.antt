-- ===== src/Name/Dataset/Accepts.antt =====
-- The names that `dataset_name` and `reference_name` make are dataset names.
use fetchloom.Base.{
  some_inj, ℕ, suc, ◌≤◌, ◌≡◌, refl, sym, ap, ◌∙◌, inl, inr, Bool, true, false, [], ◌∷◌, Option,
  none, some, arith, ltb, any, all, length, if◌then◌else◌, Bool-cases, Option-cases,
}
use fetchloom.Base.Text.{Text, byte_len, drop_while, drop_while_end}
use fetchloom.Name.Pieces.{
  starts_with, ends_with, take, rfind, is_letter, all-append, all-take, all-drop_while,
  all-drop_while_end, starts_with-drop_while, starts_with-drop_while_end, starts_with-take,
  length-take, length-drop_while_end, byte_len-ascii, all_mono, later_place,
}
use fetchloom.Name.Dataset.{
  is_dash, is_joiner, is_word, is_name_char, is_nil, some_unless_empty, is_dataset_name, push,
  push_all, cut_place, cut, trim_joiners, dataset_name, reference_name, bare_reference, last_part,
  flat_map, or_else,
}

-- What `is_dataset_name` asks of a text that is not empty.
pub record IsNamed (name : Text) : Type 0 where
  pub chars : all is_name_char name ≡ true
  pub start : starts_with is_joiner name ≡ false
  pub short : byte_len name ≤ 64

pub byte_len-name : (s : Text) → all is_name_char s ≡ true → byte_len s ≡ length s
byte_len-name s h =
    byte_len-ascii s (all_mono is_name_char (λ c. ltb c 0x80) (λ c k. ground (arith, k)) s h)

pub IsNamed-is_dataset_name : (s : Text) → is_nil s ≡ false → IsNamed s → is_dataset_name s ≡ true
unfolding is_dataset_name
IsNamed-is_dataset_name s h n = rw (h, n.chars, n.start) (ground (arith, n.short))

push-chars :
    (name : Text) (c : ℕ) → all is_name_char name ≡ true → all is_name_char (push name c) ≡ true
unfolding push
push-chars name c h = elim (Bool-cases (is_word c)) [
  | inl w ↦ rw w (all-append is_name_char name (c ∷ []) h (ground (arith, w)))
  | inr w ↦ rw w (elim (Bool-cases (ends_with is_dash name)) [
    | inl e ↦ rw e h
    | inr e ↦ rw e (all-append is_name_char name (b'-' ∷ []) h refl)
  ])
]

push_all-chars :
    (name s : Text) → all is_name_char name ≡ true → all is_name_char (push_all name s) ≡ true
unfolding push_all
push_all-chars name [] h = h
push_all-chars name (c ∷ s) h = push_all-chars (push name c) s (push-chars name c h)

-- The last place of a character is inside the text.
length-rfind : (p : ℕ → Bool) (s : Text) (i : ℕ) → rfind p s ≡ some i → suc i ≤ length s
unfolding rfind
length-rfind p (c ∷ s) i e = elim (Option-cases (rfind p s)) [
  | inl h ↦ at_start (p c) (ap (later_place (p c)) (sym h) ∙ e)
  | inr (j, h) ↦ later (p c) j (length-rfind p s j h) (ap (later_place (p c)) (sym h) ∙ e)
]
  where
    at_start : (b : Bool) → later_place b none ≡ some i → suc i ≤ suc (length s)
    at_start true k = ground arith
    at_start false k = cc

    later :
        (b : Bool) (j : ℕ)
        → suc j ≤ length s
        → later_place b (some j) ≡ some i
        → suc i ≤ suc (length s)
    later true j h k = ground (arith, h, k)
    later false j h k = ground (arith, h, k)
length-rfind p [] i e = cc

cut_place_le : (s : Text) → length s ≤ 41 → cut_place (rfind is_dash s) ≤ 40
cut_place_le s h = elim (Option-cases (rfind is_dash s)) [
  | inl e ↦ rw e (omega arith)
  | inr (i, e) ↦ rw e (ground (arith, length-rfind is_dash s i e, h))
]

module _ (s : Text) (chars : all is_name_char s ≡ true)
    (start : starts_with is_joiner s ≡ false) where
  abbrev shortened : Text
  shortened = take (cut_place (rfind is_dash (take 41 s))) s

  cut-IsNamed : IsNamed (cut s)
  unfolding cut
  cut-IsNamed = elim (Bool-cases (ltb 40 (byte_len s))) [
    | inl e ↦ rw e (record {
      chars = kept;
      start =
          starts_with-drop_while_end is_joiner is_dash shortened
            (starts_with-take is_joiner _ s start);
      short = omega (
        arith,
        byte_len-name (drop_while_end is_dash shortened) kept,
        length-drop_while_end is_dash shortened,
        length-take (cut_place (rfind is_dash (take 41 s))) s,
        cut_place_le (take 41 s) (length-take 41 s),
      );
    })
    | inr e ↦ rw e (record { chars = chars; start = start; short = ground (arith, e) })
  ]
    where
      kept : all is_name_char (drop_while_end is_dash shortened) ≡ true
      kept = all-drop_while_end is_name_char is_dash shortened (all-take is_name_char _ s chars)

trim_joiners-cut : (s : Text) → all is_name_char s ≡ true → IsNamed (cut (trim_joiners s))
unfolding trim_joiners
trim_joiners-cut s h =
    cut-IsNamed _
      (all-drop_while_end is_name_char is_dash (drop_while is_joiner s)
        (all-drop_while is_name_char is_joiner s h))
      (starts_with-drop_while_end is_joiner is_dash (drop_while is_joiner s)
        (starts_with-drop_while is_joiner s))

unless_empty-is_dataset_name :
    (s name : Text) → IsNamed s → some_unless_empty s ≡ some name → is_dataset_name name ≡ true
unless_empty-is_dataset_name [] name n e = cc
unless_empty-is_dataset_name (c ∷ s) name n e =
    ap is_dataset_name (sym (some_inj e)) ∙ IsNamed-is_dataset_name (c ∷ s) refl n

-- Whatever the text, a name that `dataset_name` makes of it is accepted by `is_dataset_name`.
pub is_dataset_name-dataset_name :
    (lower : ℕ → Text) (text name : Text)
    → dataset_name lower text ≡ some name
    → is_dataset_name name ≡ true
unfolding dataset_name
is_dataset_name-dataset_name lower text name =
    let pushed = push_all [] (flat_map lower text) in
    unless_empty-is_dataset_name (cut (trim_joiners pushed)) name
      (trim_joiners-cut pushed (push_all-chars [] (flat_map lower text) refl))

-- Whatever the reference, a name that `reference_name` makes of it is accepted by `is_dataset_name`.
pub is_dataset_name-reference_name :
    (lower : ℕ → Text) (reference name : Text)
    → reference_name lower reference ≡ some name
    → is_dataset_name name ≡ true
unfolding reference_name
is_dataset_name-reference_name lower reference name =
    pick (any is_letter (last_part bare)) (dataset_name lower (last_part bare))
      (is_dataset_name-dataset_name lower (last_part bare) name)
  where
    bare : Text
    bare = bare_reference reference

    pick :
        (b : Bool) (o : Option Text)
        → (o ≡ some name → is_dataset_name name ≡ true)
        → (if b then or_else o (dataset_name lower bare) else dataset_name lower bare) ≡ some name
        → is_dataset_name name ≡ true
    pick false o h e = is_dataset_name-dataset_name lower bare name e
    pick true none h e = is_dataset_name-dataset_name lower bare name e
    pick true (some s) h e = h e
