-- ===== src/Glob/Pattern.antt =====
-- src/glob.rs: a checked pattern, its folder parts and their tokens.
use fetchloom.Base.{ℕ, Bool, true, false, not, ◌&&◌, List, [], ◌∷◌, leb, ◌==◌, any}
use fetchloom.Base.Text.{Text}

pub data Token : Type 0 where
  char : ℕ → Token
  one : Token
  many : Token
  set : Bool → List (ℕ × ℕ) → Token

pub data Part : Type 0 where
  any_folders : Part
  named : List Token → Part

pub record Glob : Type 0 where
  pub text : Text
  pub parts : List Part

in_range : ℕ → ℕ × ℕ → Bool
in_range c (low, high) = leb low c && leb c high

-- `!=` on Booleans.
bool_ne : Bool → Bool → Bool
bool_ne a true = not a
bool_ne a false = a

unfoldable pub fits : Token → ℕ → Bool
unfolding in_range bool_ne
fits (char expected) c = expected == c
fits one c = true
fits many c = false
fits (set negated ranges) c = bool_ne (any (in_range c) ranges) negated

unfoldable pub as_str : Glob → Text
as_str g = g.text

unfoldable pub is_top_level_only : Glob → Bool
is_top_level_only g = elim g.parts [
  | [] ↦ false
  | p ∷ rest ↦ elim rest [ [] ↦ elim p [ any_folders ↦ false | named _ ↦ true ] | _ ↦ false ]
]
