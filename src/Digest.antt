-- ===== src/Digest.antt =====
-- src/digest.rs: the hexadecimal text of a digest, and its reading. A digest is the list of its
-- bytes, and a text that is read is the list of its bytes. The hash functions are libraries.
pub mod Reads
pub mod Tests
use fetchloom.Base.{
  ℕ, ◌+◌, ◌-◌, ◌*◌, ◌/◌, ◌%◌, Bool, true, false, ◌&&◌, List, [], ◌∷◌, Option, none, some, ltb, leb,
  ◌==◌, length, if◌then◌else◌,
}
use fetchloom.Base.Text.{Text, is_digit}

-- `char::to_digit(16)`.
unfoldable pub to_digit : ℕ → Option ℕ
to_digit c =
    if is_digit c
    then some (c - b'0')
    else if leb b'a' c && leb c b'f'
    then some (c - b'a' + 10)
    else if leb b'A' c && leb c b'F'
    then some (c - b'A' + 10)
    else none

-- `u8::try_from(high * 16 + low).ok()?`, after the digits, and before the rest of the bytes.
abbrev pub put_byte : ℕ → Option (List ℕ) → Option (List ℕ)
put_byte byte none = none
put_byte byte (some out) = if leb byte 255 then some (byte ∷ out) else none

abbrev pub put_digits : Option ℕ → Option ℕ → Option (List ℕ) → Option (List ℕ)
put_digits (some high) (some low) out = put_byte (high * 16 + low) out
put_digits _ _ out = none

-- The loop over the pairs of digits.
unfoldable pub read_pairs : List ℕ → Option (List ℕ)
unfolding to_digit
read_pairs (high ∷ low ∷ rest) = put_digits (to_digit high) (to_digit low) (read_pairs rest)
read_pairs _ = some []

-- `from_hex` for a digest of `n` bytes.
unfoldable pub from_hex : ℕ → List ℕ → Option (List ℕ)
unfolding read_pairs
from_hex n text = if length text == 2 * n then read_pairs text else none

-- `DIGITS[n]`, for `n` below 16.
unfoldable pub digit : ℕ → ℕ
digit n = if ltb n 10 then b'0' + n else b'a' + (n - 10)

unfoldable pub hex : List ℕ → Text
unfolding digit
hex [] = []
hex (byte ∷ bytes) = digit (byte / 16) ∷ digit (byte % 16) ∷ hex bytes
