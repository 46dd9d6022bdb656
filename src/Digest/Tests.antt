-- ===== src/Digest/Tests.antt =====
-- The theorems on digests at concrete inputs.
use fetchloom.Base.{ℕ, ◌≡◌, refl, List, [], ◌∷◌, map, some, none, arith, length, All}
use fetchloom.Base.Text.{codes}
use fetchloom.Digest.{from_hex, hex}
use fetchloom.Digest.Reads.{IsByte, to_lower, from_hex-hex, hex-from_hex}

abbrev two_bytes : List ℕ
two_bytes = 0xab ∷ 0x05 ∷ []

written : hex two_bytes ≡ codes "ab05"
unfolding hex
written = refl

upper_from_hex : from_hex 2 (codes "AB05") ≡ some two_bytes
unfolding from_hex
upper_from_hex = refl

short_from_hex : from_hex 2 (codes "ab0") ≡ none
unfolding from_hex
short_from_hex = refl

from_hex-hex_example : from_hex 2 (hex two_bytes) ≡ some two_bytes
from_hex-hex_example = from_hex-hex 2 two_bytes refl (omega arith, (omega arith, tt))

hex-from_hex_example :
    (length two_bytes ≡ 2) × (All IsByte two_bytes × (hex two_bytes ≡ map to_lower (codes "AB05")))
hex-from_hex_example = hex-from_hex 2 (codes "AB05") two_bytes upper_from_hex
