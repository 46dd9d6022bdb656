-- ===== src/Name/Stored.antt =====
-- src/name.rs: `shorten`, the names that windows reserves, and `unstorable`. `cfg!(windows)` is the
-- argument `windows`.
use fetchloom.Base.{
  ℕ, suc, ◌+◌, ◌-◌, Bool, true, false, not, ◌&&◌, ◌||◌, List, [], ◌∷◌, ◌++◌, map, Option, none,
  some, ltb, leb, ◌==◌, any, if◌then◌else◌,
}
use fetchloom.Base.Text.{
  Text, codes, utf8_width, byte_len, text_eq, is_whitespace, drop_while_end, split,
}
use fetchloom.Name.Pieces.{ends_with, is_lower}
use fetchloom.Name.Dataset.{first_or}

abbrev pub longest : ℕ
longest = 200

-- `rfind('.')` and the text from there on; empty when there is no dot.
abbrev pub longer_end : ℕ → Text → Text → Text
longer_end c s [] = if c == b'.' then c ∷ s else []
longer_end c s (d ∷ e) = d ∷ e

unfoldable pub from_last_dot : Text → Text
from_last_dot [] = []
from_last_dot (c ∷ s) = longer_end c s (from_last_dot s)

-- The characters that end within the first `n` bytes: the text up to the last character boundary
-- that is not past them.
unfoldable pub take_bytes : ℕ → Text → Text
unfolding utf8_width
take_bytes n [] = []
take_bytes n (c ∷ s) =
    let rest = take_bytes (n - utf8_width c) s in if leb (utf8_width c) n then c ∷ rest else []

unfoldable pub extension_of : Text → Text
unfolding from_last_dot byte_len
extension_of name = if leb (byte_len (from_last_dot name)) 20 then from_last_dot name else []

unfoldable pub shorten : Text → Text
unfolding byte_len take_bytes extension_of
shorten name =
    if leb (byte_len name) longest
    then name
    else take_bytes (longest - byte_len (extension_of name)) name ++ extension_of name

abbrev pub to_upper : ℕ → ℕ
to_upper c = if is_lower c then c - 32 else c

-- `stem`: what stands before the first dot, without spaces at its end, in upper case.
unfoldable pub device_stem : Text → Text
unfolding split drop_while_end is_whitespace
device_stem name = map to_upper (drop_while_end is_whitespace (first_or [] (split b'.' name)))

abbrev pub device_digit : ℕ → Bool
device_digit c = (leb b'1' c && leb c b'9') || c == 0xb9 || c == 0xb2 || c == 0xb3

-- The devices with a number: the prefix, and one digit after it.
unfoldable pub is_numbered : Text → Text → Bool
is_numbered (p ∷ prefix) (c ∷ s) = p == c && is_numbered prefix s
is_numbered [] (c ∷ []) = device_digit c
is_numbered _ _ = false

abbrev pub devices : List Text
devices = map codes ("CON" ∷ "PRN" ∷ "AUX" ∷ "NUL" ∷ "CONIN$" ∷ "CONOUT$" ∷ [])

unfoldable pub is_reserved_on_windows : Text → Bool
unfolding device_stem is_numbered text_eq
is_reserved_on_windows name =
    any (text_eq (device_stem name)) devices
    || is_numbered (codes "COM") (device_stem name)
    || is_numbered (codes "LPT") (device_stem name)

abbrev pub is_refused_char : ℕ → Bool
is_refused_char c =
    c == b'<' || c == b'>' || c == b':' || c == b'"' || c == b'|' || c == b'?' || c == b'*'

abbrev pub is_dot_or_space : ℕ → Bool
is_dot_or_space c = c == b'.' || c == b' '

-- `encode_utf16().count()`.
unfoldable pub utf16_len : Text → ℕ
utf16_len [] = 0
utf16_len (c ∷ s) = (if ltb c 0x1_0000 then 1 else 2) + utf16_len s

-- The reasons, with what their message shows.
pub data Unstorable : Type 0 where
  too_long : Text → Unstorable
  has_char : Text → ℕ → Unstorable
  bad_end : Text → Unstorable
  device : Text → Unstorable

unfoldable pub find_refused : Text → Option ℕ
find_refused [] = none
find_refused (c ∷ s) =
    if fetchloom.Base.Text.is_control c || is_refused_char c then some c else find_refused s

unfoldable pub stored_length : Bool → Text → ℕ
unfolding utf16_len byte_len
stored_length windows part = if windows then utf16_len part else byte_len part

unfoldable pub refused_by_windows : Text → Option ℕ → Option Unstorable
unfolding ends_with is_reserved_on_windows
refused_by_windows part (some c) = some (has_char part c)
refused_by_windows part none =
    if ends_with is_dot_or_space part
    then some (bad_end part)
    else if is_reserved_on_windows part
    then some (device part)
    else none

unfoldable pub unstorable_part : Bool → Text → Option Unstorable
unfolding stored_length shorten find_refused refused_by_windows
unstorable_part windows part =
    if ltb 255 (stored_length windows part)
    then some (too_long (shorten part))
    else if windows
    then refused_by_windows part (find_refused part)
    else none

abbrev pub or_next : Option Unstorable → Option Unstorable → Option Unstorable
or_next none o = o
or_next (some r) o = some r

unfoldable pub unstorable_parts : Bool → List Text → Option Unstorable
unfolding unstorable_part
unstorable_parts windows [] = none
unstorable_parts windows (part ∷ parts) =
    or_next (unstorable_part windows part) (unstorable_parts windows parts)

unfoldable pub unstorable : Bool → Text → Option Unstorable
unfolding unstorable_parts split
unstorable windows path = unstorable_parts windows (split b'/' path)
