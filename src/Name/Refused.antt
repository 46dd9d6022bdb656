-- ===== src/Name/Refused.antt =====
-- src/name.rs: `escapes`, the paths that are refused everywhere, with the controls they may not
-- hold.
pub mod Resolves
pub mod Safe
use fetchloom.Base.{
  ℕ, Bool, true, false, ◌&&◌, ◌||◌, List, [], ◌∷◌, Option, none, some, ltb, leb, ◌==◌, any,
  if◌then◌else◌,
}
use fetchloom.Base.Text.{Text, text_eq, split}
use fetchloom.Name.Pieces.{is_letter, starts_with}
use fetchloom.Name.Dataset.{is_nil}

unfoldable pub is_bidi_control : ℕ → Bool
is_bidi_control c =
    c == 0x061c
    || c == 0x200e
    || c == 0x200f
    || (leb 0x202a c && leb c 0x202e)
    || (leb 0x2066 c && leb c 0x2069)

unfoldable pub is_control : ℕ → Bool
unfolding is_bidi_control
is_control c = fetchloom.Base.Text.is_control c || is_bidi_control c

pub data Reason : Type 0 where
  empty : Reason
  at_root : Reason
  backslash : Reason
  control : Reason
  drive : Reason
  empty_folder : Reason
  climbs : Reason

-- `bytes[0].is_ascii_alphabetic() && bytes[1] == b':'`: a character outside ASCII has no such byte.
unfoldable pub names_drive : Text → Bool
names_drive (c ∷ d ∷ s) = is_letter c && d == b':'
names_drive _ = false

abbrev pub is_dots : Text → Bool
is_dots part = text_eq part (b'.' ∷ []) || text_eq part (b'.' ∷ b'.' ∷ [])

unfoldable pub escapes_parts : List Text → Option Reason
unfolding text_eq
escapes_parts [] = none
escapes_parts (part ∷ parts) =
    if is_nil part
    then some empty_folder
    else if is_dots part
    then some climbs
    else escapes_parts parts

unfoldable pub escapes : Text → Option Reason
unfolding starts_with is_control names_drive escapes_parts
escapes path =
    if is_nil path
    then some empty
    else if starts_with (λ c. c == b'/') path
    then some at_root
    else if any (λ c. c == b'\\') path
    then some backslash
    else if any is_control path
    then some control
    else if names_drive path
    then some drive
    else escapes_parts (split b'/' path)
