-- ===== src/Name/Dataset/Titles.antt =====
-- The names that `title_name` makes are dataset names.
use fetchloom.Base.{
  some_inj, ℕ, ◌+◌, ◌≤◌, ◌≡◌, refl, sym, ap, ◌∙◌, inl, inr, Bool, true, false, not, ◌||◌, List, [],
  ◌∷◌, ◌++◌, Option, some, arith, ltb, ◌==◌, any, all, All, map, subst, length, if◌then◌else◌,
  Bool-cases,
}
use fetchloom.Base.Text.{Text, byte_len, utf8_width, text_eq, drop_while, join, glue}
use fetchloom.Name.Pieces.{
  starts_with, split_by, all-append, all-drop_while, starts_with-drop_while, all_mono,
}
use fetchloom.Name.Dataset.{
  is_joiner, is_word, is_name_char, is_nil, is_dataset_name, filled, words, first_words, drop_last,
  drop_dangling, without_dangling, dangling, title_words, joined_or, title_name,
}
use fetchloom.Name.Dataset.Accepts.{IsNamed-is_dataset_name, is_dataset_name-dataset_name}

abbrev is_underscore : ℕ → Bool
is_underscore c = c == b'_'

record IsWord (w : Text) : Type 0 where
  filled_in : is_nil w ≡ false
  chars : all is_word w ≡ true
  start : starts_with is_underscore w ≡ false

-- The pieces between characters that no word holds.
unfoldable AllWord : List Text → Type 0
AllWord = All (λ w. all is_word w ≡ true)

glue-AllWord : (c : ℕ) (ws : List Text) → is_word c ≡ true → AllWord ws → AllWord (glue c ws)
unfolding AllWord
glue-AllWord c [] h k = (ground (arith, h), tt)
glue-AllWord c (w ∷ ws) h k = (ground (arith, h, k.0), k.1)

split_by-AllWord : (s : Text) → AllWord (split_by (λ c. not (is_word c)) s)
unfolding AllWord split_by
split_by-AllWord [] = (refl, tt)
split_by-AllWord (c ∷ s) = elim (Bool-cases (is_word c)) [
  | inl h ↦ rw h (glue-AllWord c _ h (split_by-AllWord s))
  | inr h ↦ rw h (refl, split_by-AllWord s)
]

filled-IsWord :
    (ws : List Text) → AllWord ws → All IsWord (filled (map (drop_while is_underscore) ws))
unfolding AllWord
filled-IsWord [] h = tt
filled-IsWord (w ∷ ws) h = elim (Bool-cases (is_nil (drop_while is_underscore w))) [
  | inl e ↦ rw e (filled-IsWord ws h.1)
  | inr e ↦ rw e (
    record {
      filled_in = e;
      chars = all-drop_while is_word is_underscore w h.0;
      start = starts_with-drop_while is_underscore w;
    },
    filled-IsWord ws h.1,
  )
]

words-IsWord : (s : Text) → All IsWord (words s)
unfolding words
words-IsWord s = filled-IsWord _ (split_by-AllWord s)

-- The bytes of the words after the first, each with its `-`, and of all of them joined.
unfoldable after_len : List Text → ℕ
after_len [] = 0
after_len (w ∷ ws) = 1 + byte_len w + after_len ws

unfoldable joined_len : List Text → ℕ
unfolding after_len
joined_len [] = 0
joined_len (w ∷ ws) = byte_len w + after_len ws

byte_len-append : (s t : Text) → byte_len (s ++ t) ≡ byte_len s + byte_len t
unfolding byte_len
byte_len-append [] t = omega arith
byte_len-append (c ∷ s) t = omega (arith, byte_len-append s t)

byte_len-join : (ws : List Text) → byte_len (join b'-' ws) ≡ joined_len ws
unfolding byte_len join joined_len after_len utf8_width
byte_len-join [] = refl
byte_len-join (w ∷ []) = omega arith
byte_len-join (w ∷ v ∷ ws) =
    omega (arith, byte_len-append w (b'-' ∷ join b'-' (v ∷ ws)), byte_len-join (v ∷ ws))

after_len-snoc :
    (ws : List Text) (w : Text) → after_len (ws ++ (w ∷ [])) ≡ after_len ws + (1 + byte_len w)
unfolding after_len
after_len-snoc [] w = omega arith
after_len-snoc (v ∷ ws) w = omega (arith, after_len-snoc ws w)

joined_len-snoc :
    (ws : List Text) (w : Text)
    → joined_len (ws ++ (w ∷ [])) ≡ joined_len ws + (if is_nil ws then 0 else 1) + byte_len w
unfolding joined_len after_len
joined_len-snoc [] w = omega arith
joined_len-snoc (v ∷ ws) w = omega (arith, after_len-snoc ws w)

-- What is kept of the words of a title.
record AreKept (ws : List Text) : Type 0 where
  each : All IsWord ws
  short : joined_len ws ≤ 32

All-snoc : (ws : List Text) (w : Text) → All IsWord ws → IsWord w → All IsWord (ws ++ (w ∷ []))
All-snoc [] w h k = (k, tt)
All-snoc (v ∷ ws) w h k = (h.0, All-snoc ws w h.1 k)

first_words-AreKept :
    (ws kept : List Text)
    → All IsWord ws
    → AreKept kept
    → AreKept (first_words ws kept (joined_len kept))
unfolding first_words
first_words-AreKept [] kept h k = k
first_words-AreKept (w ∷ ws) kept h k =
    subst
      (λ n.
        AreKept
          (if length kept == 4 || ltb 32 n then kept else first_words ws (kept ++ (w ∷ [])) n))
      (joined_len-snoc kept w)
      (elim (Bool-cases (length kept == 4 || ltb 32 (joined_len (kept ++ (w ∷ []))))) [
        | inl e ↦ rw e k
        | inr e ↦ rw e (
            first_words-AreKept ws (kept ++ (w ∷ [])) h.1
              (record { each = All-snoc kept w k.each h.0; short = ground (arith, e) }))
      ])

drop_dangling-shorter : (ws : List Text) → after_len (drop_dangling ws) ≤ after_len ws
unfolding drop_dangling after_len
drop_dangling-shorter [] = omega arith
drop_dangling-shorter (w ∷ ws) = from (drop_dangling ws) (drop_dangling-shorter ws)
  where
    from :
        (vs : List Text)
        → after_len vs ≤ after_len ws
        → after_len (drop_last w vs) ≤ after_len (w ∷ ws)
    from [] h = elim (Bool-cases (any (text_eq w) dangling)) [
      | inl e ↦ rw e (omega (arith, h))
      | inr e ↦ rw e (omega (arith, h))
    ]
    from (v ∷ vs) h = omega (arith, h)

drop_dangling-IsWord : (ws : List Text) → All IsWord ws → All IsWord (drop_dangling ws)
unfolding drop_dangling
drop_dangling-IsWord [] h = tt
drop_dangling-IsWord (w ∷ ws) h = from (drop_dangling ws) (drop_dangling-IsWord ws h.1)
  where
    from : (vs : List Text) → All IsWord vs → All IsWord (drop_last w vs)
    from [] k = elim (Bool-cases (any (text_eq w) dangling)) [
      | inl e ↦ rw e tt
      | inr e ↦ rw e (h.0, tt)
    ]
    from (v ∷ vs) k = (h.0, k)

without_dangling-AreKept : (ws : List Text) → AreKept ws → AreKept (without_dangling ws)
unfolding without_dangling joined_len
without_dangling-AreKept [] k = k
without_dangling-AreKept (w ∷ ws) k = record {
  each = (k.each.0, drop_dangling-IsWord ws k.each.1);
  short = omega (arith, k.short, drop_dangling-shorter ws);
}

word-chars : (w : Text) → IsWord w → all is_name_char w ≡ true
word-chars w h = all_mono is_word is_name_char (λ c k. ground (arith, k)) w h.chars

join-chars : (ws : List Text) → All IsWord ws → all is_name_char (join b'-' ws) ≡ true
unfolding join
join-chars [] h = refl
join-chars (w ∷ []) h = word-chars w h.0
join-chars (w ∷ v ∷ ws) h =
    all-append is_name_char w (b'-' ∷ join b'-' (v ∷ ws)) (word-chars w h.0)
      (ground (arith, join-chars (v ∷ ws) h.1))

-- A joined name starts as its first word.
join-start :
    (w : Text) (ws : List Text)
    → IsWord w
    → (is_nil (join b'-' (w ∷ ws)) ≡ false) × (starts_with is_joiner (join b'-' (w ∷ ws)) ≡ false)
unfolding join starts_with
join-start [] ws h = cc
join-start (c ∷ w) [] h = (refl, ground (arith, h.chars, h.start))
join-start (c ∷ w) (v ∷ ws) h = (refl, ground (arith, h.chars, h.start))

joined_or-is_dataset_name :
    (otherwise : Option Text) (ws : List Text) (name : Text)
    → (otherwise ≡ some name → is_dataset_name name ≡ true)
    → AreKept ws
    → joined_or otherwise ws ≡ some name
    → is_dataset_name name ≡ true
unfolding joined_or
joined_or-is_dataset_name otherwise [] name f k e = f e
joined_or-is_dataset_name otherwise (w ∷ ws) name f k e =
    let start = join-start w ws k.each.0 in
    ap is_dataset_name (sym (some_inj e))
    ∙ IsNamed-is_dataset_name (join b'-' (w ∷ ws)) start.0 (record {
      chars = join-chars (w ∷ ws) k.each;
      start = start.1;
      short = omega (arith, byte_len-join (w ∷ ws), k.short);
    })

-- Whatever the title, a name that `title_name` makes of it is accepted by `is_dataset_name`.
pub is_dataset_name-title_name :
    (lower : ℕ → Text) (lowercase : Text → Text) (title name : Text)
    → title_name lower lowercase title ≡ some name
    → is_dataset_name name ≡ true
unfolding title_name title_words joined_len
is_dataset_name-title_name lower lowercase title name =
    joined_or-is_dataset_name _ _ name (is_dataset_name-dataset_name lower title name) (
      without_dangling-AreKept _ (
        first_words-AreKept (words (lowercase title)) [] (words-IsWord (lowercase title))
          (record { each = tt; short = omega arith })))
