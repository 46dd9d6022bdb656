-- ===== src/Name/Sanitize/Safe.antt =====
-- What `sanitize` promises of the names it makes.
use fetchloom.Base.{
  some_inj, ℕ, ◌≤◌, ◌≡◌, refl, subst, inl, inr, Bool, true, false, not, List, [], ◌∷◌, map, none,
  some, arith, ltb, ◌==◌, any, all, if◌then◌else◌, Bool-cases,
}
use fetchloom.Base.Text.{
  Text, utf8_width, byte_len, text_eq, text_eq→≡, is_whitespace, drop_while_end, keep_before, glue,
  split,
}
use fetchloom.Name.Pieces.{
  ends_with, all-drop_while_end, all_mono, any-all, ends_with-drop_while_end,
  byte_len-drop_while_end, split-whole,
}
use fetchloom.Name.Dataset.{is_nil, first_or}
use fetchloom.Name.Refused.{is_bidi_control, is_control, names_drive, is_dots, escapes}
use fetchloom.Name.Refused.Resolves.{IsPassed, IsPassed→escapes}
use fetchloom.Name.Stored.{
  longest, to_upper, shorten, device_stem, is_numbered, is_reserved_on_windows, is_dot_or_space,
  utf16_len, find_refused, stored_length, refused_by_windows, unstorable_part, unstorable_parts,
  unstorable,
}
use fetchloom.Name.Sanitize.{replaced, last_name, trimmed, named, sanitize}
use fetchloom.Name.Sanitize.Keeps.{
  is_kept, underscore-is_kept, last_name-is_kept, trimmed-all, shorten-all, byte_len-shorten,
}

-- A name as `sanitize` leaves it.
record IsClean (name : Text) : Type 0 where
  filled : is_nil name ≡ false
  kept : all is_kept name ≡ true
  end : ends_with is_dot_or_space name ≡ false
  short : byte_len name ≤ 201
  free : is_reserved_on_windows name ≡ false

module _ (p : ℕ → Bool) (avoids : (c : ℕ) → is_kept c ≡ true → not (p c) ≡ true) where
  all-avoided : (s : Text) → all is_kept s ≡ true → all (λ c. not (p c)) s ≡ true
  all-avoided s h = all_mono is_kept (λ c. not (p c)) avoids s h

  any-avoided : (s : Text) → all is_kept s ≡ true → any p s ≡ false
  any-avoided s h = any-all p s (all-avoided s h)

split-kept : (s : Text) → all is_kept s ≡ true → split b'/' s ≡ s ∷ []
unfolding is_kept
split-kept s h = split-whole b'/' s (all-avoided (λ c. c == b'/') (λ c k. ground (arith, k)) s h)

names_drive-kept : (s : Text) → all is_kept s ≡ true → names_drive s ≡ false
unfolding names_drive is_kept
names_drive-kept [] h = refl
names_drive-kept (c ∷ []) h = refl
names_drive-kept (c ∷ d ∷ s) h = ground (arith, h)

is_dots-ends : (s : Text) → ends_with is_dot_or_space s ≡ false → is_dots s ≡ false
unfolding ends_with
is_dots-ends s h = elim (Bool-cases (text_eq s (b'.' ∷ []))) [
  | inl e ↦ no (subst (λ t. ends_with is_dot_or_space t ≡ false) (text_eq→≡ s (b'.' ∷ []) e) h)
  | inr e ↦ elim (Bool-cases (text_eq s (b'.' ∷ b'.' ∷ []))) [
    | inl f ↦
        no (subst (λ t. ends_with is_dot_or_space t ≡ false) (text_eq→≡ s (b'.' ∷ b'.' ∷ []) f) h)
    | inr f ↦ rw (e, f) refl
  ]
]
  where
    no : true ≡ false → is_dots s ≡ false
    no e = cc

IsClean-IsPassed : (s : Text) → IsClean s → IsPassed s
unfolding is_kept is_control
IsClean-IsPassed s c = record {
  no_backslash = any-avoided (λ c. c == b'\\') (λ c k. ground (arith, k)) s c.kept;
  no_control = any-avoided is_control (λ c k. ground (arith, k)) s c.kept;
  no_drive = names_drive-kept s c.kept;
  no_empty = rw (split-kept s c.kept, c.filled) refl;
  no_dots = rw (split-kept s c.kept, is_dots-ends s c.end) refl;
}

utf16_len-byte_len : (s : Text) → utf16_len s ≤ byte_len s
unfolding utf16_len byte_len utf8_width
utf16_len-byte_len [] = omega arith
utf16_len-byte_len (c ∷ s) = ground (arith, utf16_len-byte_len s)

stored_length-IsClean :
    (windows : Bool) (s : Text) → byte_len s ≤ 201 → stored_length windows s ≤ 255
unfolding stored_length
stored_length-IsClean true s h = omega (arith, h, utf16_len-byte_len s)
stored_length-IsClean false s h = omega (arith, h)

find_refused-kept : (s : Text) → all is_kept s ≡ true → find_refused s ≡ none
unfolding find_refused is_kept
find_refused-kept [] h = refl
find_refused-kept (c ∷ s) h = ground (arith, find_refused-kept s, h)

unstorable_part-IsClean : (windows : Bool) (s : Text) → IsClean s → unstorable_part windows s ≡ none
unfolding unstorable_part refused_by_windows
unstorable_part-IsClean windows s c = elim (Bool-cases (ltb 255 (stored_length windows s))) [
  | inl e ↦ ground (arith, e, stored_length-IsClean windows s c.short)
  | inr e ↦ rw e (by_system windows)
]
  where
    by_system : (w : Bool) → (if w then refused_by_windows s (find_refused s) else none) ≡ none
    by_system true = rw (find_refused-kept s c.kept, c.end, c.free) refl
    by_system false = refl

IsClean-unstorable : (windows : Bool) (s : Text) → IsClean s → unstorable windows s ≡ none
unfolding unstorable unstorable_parts
IsClean-unstorable windows s c = rw (split-kept s c.kept, unstorable_part-IsClean windows s c) refl

-- A name that starts with `_` is not a device.
stem_after : (s : Text) → (t : Text) × (device_stem (b'_' ∷ s) ≡ b'_' ∷ t)
unfolding device_stem split drop_while_end is_whitespace
stem_after s = glued (split b'.' s)
  where
    kept_on : (t : Text) → (u : Text) × (map to_upper (keep_before is_whitespace b'_' t) ≡ b'_' ∷ u)
    kept_on [] = ([], refl)
    kept_on (d ∷ t) = (map to_upper (d ∷ t), refl)

    glued :
        (ps : List Text)
        → (u : Text) × (map to_upper (drop_while_end is_whitespace (first_or [] (glue b'_' ps)))
            ≡ b'_' ∷ u)
    glued [] = ([], refl)
    glued (p ∷ ps) = kept_on (drop_while_end is_whitespace p)

is_reserved-underscore : (s : Text) → is_reserved_on_windows (b'_' ∷ s) ≡ false
unfolding is_reserved_on_windows is_numbered text_eq
is_reserved-underscore s = let (t, e) = stem_after s in rw e refl

-- A name to which `_` is put in front stays clean, and is no device.
underscore-IsClean :
    (name : Text)
    → is_nil name ≡ false
    → all is_kept name ≡ true
    → ends_with is_dot_or_space name ≡ false
    → byte_len name ≤ longest
    → IsClean (b'_' ∷ name)
unfolding ends_with byte_len utf8_width
underscore-IsClean [] filled kept end short = cc
underscore-IsClean (c ∷ s) filled kept end short = record {
  filled = refl;
  kept = ground (arith, underscore-is_kept, kept);
  end = end;
  short = omega (arith, short);
  free = is_reserved-underscore (c ∷ s);
}

named-IsClean :
    (name result : Text)
    → all is_kept name ≡ true
    → ends_with is_dot_or_space name ≡ false
    → byte_len name ≤ longest
    → named name ≡ some result
    → IsClean result
unfolding named
named-IsClean name result kept end short = elim (Bool-cases (is_nil name)) [
  | inl n ↦ rw n (λ e. no e)
  | inr n ↦ rw n (elim (Bool-cases (is_reserved_on_windows name)) [
    | inl r ↦ rw r (λ e. subst IsClean (some_inj e) (underscore-IsClean name n kept end short))
    | inr r ↦ rw r (λ e.
        subst IsClean (some_inj e)
          (record { filled = n; kept = kept; end = end; short = omega (arith, short); free = r }))
  ])
]
  where
    no : none ≡ some result → IsClean result
    no e = cc

sanitize-IsClean : (raw name : Text) → sanitize raw ≡ some name → IsClean name
unfolding sanitize
sanitize-IsClean raw name = elim (Bool-cases (any is_bidi_control raw)) [
  | inl b ↦ rw b (λ e. no e)
  | inr b ↦ rw b (
      named-IsClean (drop_while_end is_dot_or_space short) name
        (all-drop_while_end is_kept is_dot_or_space short
          (shorten-all is_kept _ (trimmed-all is_kept _ (last_name-is_kept raw b))))
        (ends_with-drop_while_end is_dot_or_space short)
        (omega (
          arith,
          byte_len-drop_while_end is_dot_or_space short,
          byte_len-shorten (trimmed (map replaced (last_name raw))),
        )))
]
  where
    short : Text
    short = shorten (trimmed (map replaced (last_name raw)))

    no : none ≡ some name → IsClean name
    no e = cc

-- Whatever a server suggests, a name that `sanitize` makes of it is a path that is not refused and
-- that can be stored, on windows and elsewhere.
pub sanitize-storable :
    (windows : Bool) (raw name : Text)
    → sanitize raw ≡ some name
    → (escapes name ≡ none) × (unstorable windows name ≡ none)
sanitize-storable windows raw name h =
    let c = sanitize-IsClean raw name h in
    (IsPassed→escapes name (IsClean-IsPassed name c), IsClean-unstorable windows name c)
