-- ===== src/Name/Dataset.antt =====
-- src/name.rs: `dataset_name`, `title_name`, `reference_name` and `is_dataset_name`. The lower case
-- of a character (`char::to_lowercase`) and of a text (`str::to_lowercase`) are parameters.
pub mod Accepts
pub mod Titles
use fetchloom.Base.{
  ℕ, suc, ◌+◌, Bool, true, false, not, ◌&&◌, ◌||◌, List, [], ◌∷◌, ◌++◌, map, Option, none, some,
  ltb, leb, ◌==◌, any, all, length, if◌then◌else◌,
}
use fetchloom.Base.Text.{Text, codes, byte_len, text_eq, is_digit, drop_while, drop_while_end, join}
use fetchloom.Name.Pieces.{starts_with, ends_with, take, rfind, split_by, is_lower, is_letter}

abbrev pub is_dash : ℕ → Bool
is_dash c = c == b'-'

abbrev pub is_joiner : ℕ → Bool
is_joiner c = c == b'-' || c == b'_'

-- The characters that a made name keeps, and those a dataset name may hold.
abbrev pub is_word : ℕ → Bool
is_word c = is_lower c || is_digit c || c == b'_'

abbrev pub is_name_char : ℕ → Bool
is_name_char c = is_lower c || is_digit c || c == b'-' || c == b'_'

abbrev pub is_nil {ℓ} : {A : Type ℓ} → List A → Bool
is_nil [] = true
is_nil (c ∷ s) = false

abbrev pub some_unless_empty : Text → Option Text
some_unless_empty s = if is_nil s then none else some s

unfoldable pub is_dataset_name : Text → Bool
unfolding starts_with
is_dataset_name text =
    not (is_nil text)
    && leb (byte_len text) 64
    && all is_name_char text
    && not (starts_with is_joiner text)

-- One turn of the loop over the lower case characters.
unfoldable pub push : Text → ℕ → Text
unfolding ends_with
push name c =
    if is_word c
    then name ++ (c ∷ [])
    else if ends_with is_dash name
    then name
    else name ++ (b'-' ∷ [])

unfoldable pub push_all : Text → Text → Text
unfolding push
push_all name [] = name
push_all name (c ∷ s) = push_all (push name c) s

abbrev pub flat_map : (ℕ → Text) → Text → Text
flat_map f [] = []
flat_map f (c ∷ s) = f c ++ flat_map f s

-- `.filter(|&at| at >= 20).unwrap_or(40)`.
abbrev pub cut_place : Option ℕ → ℕ
cut_place none = 40
cut_place (some at) = if leb 20 at then at else 40

-- Names are ASCII here, so places in bytes are places in characters.
unfoldable pub cut : Text → Text
unfolding take rfind drop_while_end
cut name =
    if ltb 40 (byte_len name)
    then drop_while_end is_dash (take (cut_place (rfind is_dash (take 41 name))) name)
    else name

unfoldable pub trim_joiners : Text → Text
unfolding drop_while drop_while_end
trim_joiners name = drop_while_end is_dash (drop_while is_joiner name)

unfoldable pub dataset_name : (ℕ → Text) → Text → Option Text
unfolding push_all trim_joiners cut
dataset_name lower text = some_unless_empty (cut (trim_joiners (push_all [] (flat_map lower text))))

-- The words that a cut title does not end on.
abbrev pub dangling : List Text
dangling = map codes (
    "a" ∷ "an" ∷ "and" ∷ "at" ∷ "by" ∷ "for" ∷ "from" ∷ "in" ∷ "of" ∷ "on" ∷ "the" ∷ "to" ∷ "with"
    ∷ [])

abbrev pub filled : List Text → List Text
filled [] = []
filled (w ∷ ws) = if is_nil w then filled ws else w ∷ filled ws

unfoldable pub words : Text → List Text
unfolding split_by drop_while
words text = filled (map (drop_while (λ c. c == b'_')) (split_by (λ c. not (is_word c)) text))

-- The loop over the words, with the words kept, how many they are, and the length of their name.
unfoldable pub first_words : List Text → List Text → ℕ → List Text
first_words [] kept len = kept
first_words (w ∷ ws) kept len =
    let grown = len + (if is_nil kept then 0 else 1) + byte_len w in
    let rest = first_words ws (kept ++ (w ∷ [])) grown in
    if length kept == 4 || ltb 32 grown then kept else rest

-- The loop that drops dangling words, but the first word stays.
abbrev pub drop_last : Text → List Text → List Text
drop_last w [] = if any (text_eq w) dangling then [] else w ∷ []
drop_last w (v ∷ vs) = w ∷ v ∷ vs

unfoldable pub drop_dangling : List Text → List Text
drop_dangling [] = []
drop_dangling (w ∷ ws) = drop_last w (drop_dangling ws)

unfoldable pub without_dangling : List Text → List Text
unfolding drop_dangling
without_dangling [] = []
without_dangling (w ∷ ws) = w ∷ drop_dangling ws

unfoldable pub title_words : Text → List Text
unfolding words first_words without_dangling
title_words text = without_dangling (first_words (words text) [] 0)

unfoldable pub joined_or : Option Text → List Text → Option Text
unfolding join
joined_or otherwise [] = otherwise
joined_or otherwise (w ∷ ws) = some (join b'-' (w ∷ ws))

unfoldable pub title_name : (ℕ → Text) → (Text → Text) → Text → Option Text
unfolding title_words joined_or dataset_name
title_name lower lowercase title =
    joined_or (dataset_name lower title) (title_words (lowercase title))

-- The last part of `split` or `rsplit`, and the first one.
abbrev pub first_or : Text → List Text → Text
first_or s [] = s
first_or s (p ∷ ps) = p

-- `rsplit(..).find(|part| !part.is_empty())`.
abbrev pub last_filled : List Text → Text → Text
last_filled [] otherwise = otherwise
last_filled (p ∷ ps) otherwise = last_filled ps (if is_nil p then otherwise else p)

unfoldable pub bare_reference : Text → Text
unfolding split_by
bare_reference reference = first_or reference (split_by (λ c. c == b'@') reference)

unfoldable pub last_part : Text → Text
unfolding split_by
last_part bare = last_filled (split_by (λ c. c == b'/' || c == b':') bare) bare

abbrev pub or_else : Option Text → Option Text → Option Text
or_else none o = o
or_else (some s) o = some s

unfoldable pub reference_name : (ℕ → Text) → Text → Option Text
unfolding bare_reference last_part dataset_name
reference_name lower reference =
    let bare = bare_reference reference in
    let whole = dataset_name lower bare in
    if any is_letter (last_part bare)
    then or_else (dataset_name lower (last_part bare)) whole
    else whole
