-- ===== src/Glob/Path.antt =====
-- src/glob.rs: `Glob::matches`, which walks the parts of a pattern over the names of a path.
pub mod Decides
use fetchloom.Base.{
  ℕ, zero, suc, Bool, true, false, ◌||◌, List, [], ◌∷◌, Option, none, some, length, replicate,
  if◌then◌else◌,
}
use fetchloom.Base.Text.{Text, split}
use fetchloom.Glob.Pattern.{Token, Part, any_folders, named, Glob}
use fetchloom.Glob.Name.{matches_name}

infixl 5 ◌>>=◌
abbrev ◌>>=◌ {ℓ κ} : {A : Type ℓ} {B : Type κ} → Option A → (A → Option B) → Option B
none >>= f = none
some a >>= f = f a

-- The arm for `**`: a place stays reachable once one before it was.
unfoldable pub open_from : Bool → List Bool → List Bool
open_from open_now [] = []
open_from open_now (r ∷ rs) = (open_now || r) ∷ open_from (open_now || r) rs

-- The arm for a name: the place after name j is reachable if the place before it was and the name
-- matches.
unfoldable pub after_names : List Token → List Bool → List Text → Option (List Bool)
after_names ts (r ∷ rs) (n ∷ ns) = do
  let here = matches_name ts n
  b ← if r then here else some false
  rest ← after_names ts rs ns
  some (b ∷ rest)
after_names ts _ _ = some []

-- One round of the loop over the parts, from `reachable` to `next`.
unfoldable pub advance : Part → List Bool → List Text → Option (List Bool)
unfolding open_from after_names
advance any_folders reachable names = some (open_from false reachable)
advance (named ts) reachable names = do rest ← after_names ts reachable names; some (false ∷ rest)

unfoldable pub advance_all : List Part → List Bool → List Text → Option (List Bool)
unfolding advance
advance_all [] reachable names = some reachable
advance_all (p ∷ ps) reachable names = do
  next ← advance p reachable names
  advance_all ps next names

-- `reachable[names.len()]`.
unfoldable pub at_end : List Bool → List Text → Bool
at_end [] names = false
at_end (r ∷ rs) [] = r
at_end (r ∷ rs) (n ∷ names) = at_end rs names

unfoldable pub matches_parts : List Part → List Text → Option Bool
unfolding advance_all at_end
matches_parts parts names = do
  reachable ← advance_all parts (true ∷ replicate (length names) false) names
  some (at_end reachable names)

unfoldable pub matches : Glob → Text → Option Bool
unfolding matches_parts
matches g path = matches_parts g.parts (split b'/' path)
