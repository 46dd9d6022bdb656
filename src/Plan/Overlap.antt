-- ===== src/Plan/Overlap.antt =====
-- src/plan.rs: `overlapping`, which refuses two datasets whose folders overlap. The folders are
-- given as their keys, folded for a disk that ignores case. A `HashMap` is an association list.
pub mod Parents
pub mod Clash
pub mod Equal
pub mod Settles
use fetchloom.Base.{
  ℕ, zero, suc, Bool, true, false, ◌&&◌, ◌||◌, List, [], ◌∷◌, ◌++◌, Option, none, some, min, max,
  ltb, ◌==◌, length, if◌then◌else◌,
}
use fetchloom.Base.Text.{Text, text_eq}
use fetchloom.Plan.Paths.{rsplit_once}

abbrev pub Pair : Type 0
Pair = ℕ × ℕ

abbrev pub Seen : Type 0
Seen = List (Text × ℕ)

unfoldable pub lookup : Text → Seen → Option ℕ
unfolding text_eq
lookup k [] = none
lookup k ((k', i) ∷ seen) = if text_eq k k' then some i else lookup k seen

-- The order of pairs.
abbrev pub lower_pair : Pair → Pair → Pair
lower_pair (i, j) (i', j') = if ltb i i' || (i == i' && ltb j j') then (i, j) else (i', j')

-- The closure `consider`: the least pair so far.
unfoldable pub consider : Option Pair → Pair → Option Pair
consider none pair = some pair
consider (some best) pair = some (lower_pair best pair)

abbrev pub consider_seen : Option ℕ → ℕ → Option Pair → Option Pair
consider_seen none index found = found
consider_seen (some earlier) index found = consider found (earlier, index)

abbrev pub remember : Option ℕ → Text → ℕ → Seen → Seen
remember none folder index seen = (folder, index) ∷ seen
remember (some earlier) folder index seen = seen

-- The first loop: equal folders.
unfoldable pub equal_folders : ℕ → List Text → Seen → Option Pair → Seen × Option Pair
unfolding lookup consider
equal_folders index [] seen found = (seen, found)
equal_folders index (folder ∷ rest) seen found =
    equal_folders (suc index) rest (remember (lookup folder seen) folder index seen)
      (consider_seen (lookup folder seen) index found)

abbrev pub consider_outer : Option ℕ → ℕ → Option Pair → Option Pair
consider_outer none index found = found
consider_outer (some outer) index found = consider found (min outer index, max outer index)

-- The `while` loop over the parents of a folder, on fuel.
unfoldable pub parent_folders : ℕ → ℕ → Option (Text × Text) → Seen → Option Pair → Option Pair
unfolding rsplit_once lookup consider
parent_folders zero index _ seen found = found
parent_folders (suc fuel) index none seen found = found
parent_folders (suc fuel) index (some (up, _)) seen found =
    parent_folders fuel index (rsplit_once b'/' up) seen
      (consider_outer (lookup up seen) index found)

-- The second loop: a folder inside another.
unfoldable pub inner_folders : ℕ → List Text → Seen → Option Pair → Option Pair
unfolding parent_folders
inner_folders index [] seen found = found
inner_folders index (folder ∷ rest) seen found =
    inner_folders (suc index) rest seen
      (parent_folders (suc (length folder)) index (rsplit_once b'/' folder) seen found)

unfoldable pub overlapping_after : List Text → Seen × Option Pair → Option Pair
unfolding inner_folders
overlapping_after keys (seen, found) = inner_folders 0 keys seen found

-- The pair that is refused, if there is one.
unfoldable pub overlapping : List Text → Option Pair
unfolding overlapping_after equal_folders
overlapping keys = overlapping_after keys (equal_folders 0 keys [] none)
