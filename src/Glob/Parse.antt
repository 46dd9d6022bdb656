-- ===== src/Glob/Parse.antt =====
-- src/glob.rs: `Glob::new`, `tokens` and `set`, from the text of a pattern to its parts.
pub mod Total
use fetchloom.Base.{
  ℕ, zero, suc, Bool, true, false, not, ◌&&◌, ◌||◌, List, [], ◌∷◌, ◌++◌, Option, none, some, leb,
  ◌==◌, any, length, if◌then◌else◌,
}
use fetchloom.Base.Text.{Text, is_control, trim_start, split, text_eq, codes}
use fetchloom.Glob.Pattern.{Token, char, one, many, set, Part, any_folders, named, Glob}

-- The reasons that the code writes out as sentences. `out_of_fuel` belongs to the model only.
pub data Reason : Type 0 where
  empty_pattern : Reason
  has_backslash : Reason
  has_control : ℕ → Reason
  empty_folder : Reason
  double_star : Reason
  never_closed : Reason
  backwards : ℕ → ℕ → Reason
  out_of_fuel : Reason

pub data Parsed {ℓ} (A : Type ℓ) : Type ℓ where
  ok : A → Parsed A
  err : Reason → Parsed A

infixl 5 ◌>>=◌
abbrev pub ◌>>=◌ {ℓ κ} : {A : Type ℓ} {B : Type κ} → Parsed A → (A → Parsed B) → Parsed B
ok a >>= f = f a
err e >>= f = err e

abbrev pub Ranges : Type 0
Ranges = List (ℕ × ℕ)

-- The loop of `set`: `first` is true until one character of the set was read.
unfoldable pub set_loop : Bool → Ranges → Text → Parsed (Ranges × Text)
set_loop first ranges [] = err never_closed
set_loop first ranges (c ∷ []) =
    if c == b']' && not first then ok (ranges, []) else err never_closed
set_loop first ranges (c ∷ d ∷ []) =
    let next = set_loop false (ranges ++ (c, c) ∷ []) (d ∷ []) in
    if c == b']' && not first
    then ok (ranges, d ∷ [])
    else if d == b'-'
    then err never_closed
    else next
set_loop first ranges (c ∷ d ∷ e ∷ rest) =
    let range = set_loop false (ranges ++ (c, e) ∷ []) rest in
    let next = set_loop false (ranges ++ (c, c) ∷ []) (d ∷ e ∷ rest) in
    if c == b']' && not first
    then ok (ranges, d ∷ e ∷ rest)
    else if d == b'-'
    then if e == b']'
      then ok (ranges ++ (c, c) ∷ (b'-', b'-') ∷ [], rest)
      else if leb c e
      then range
      else err (backwards c e)
    else next

-- `next_if` on `!` and `^`.
unfoldable pub negation : Text → Bool × Text
negation [] = (false, [])
negation (c ∷ s) = if c == b'!' || c == b'^' then (true, s) else (false, c ∷ s)

unfoldable pub read_set : Text → Parsed (Token × Text)
unfolding set_loop negation
read_set s = do
  let (negated, rest) = negation s
  (ranges, after) ← set_loop true [] rest
  ok (set negated ranges, after)

abbrev starts_star : Text → Bool
starts_star [] = false
starts_star (c ∷ s) = c == b'*'

-- One round of the loop of `tokens`: the token that starts with `c`, and the text that is left.
unfoldable pub token : ℕ → Text → Parsed (Token × Text)
unfolding read_set
token c s =
    if c == b'?'
    then ok (one, s)
    else if c == b'*'
    then if starts_star s then err double_star else ok (many, s)
    else if c == b'['
    then read_set s
    else ok (char c, s)

unfoldable pub tokens_loop : ℕ → Text → List Token → Parsed (List Token)
unfolding token
tokens_loop fuel [] acc = ok acc
tokens_loop zero (c ∷ s) acc = err out_of_fuel
tokens_loop (suc fuel) (c ∷ s) acc = do (t, rest) ← token c s; tokens_loop fuel rest (acc ++ t ∷ [])

unfoldable pub tokens : Text → Parsed (List Token)
unfolding tokens_loop
tokens part = tokens_loop (length part) part []

unfoldable pub part_of : Text → Parsed Part
unfolding tokens
part_of part =
    if text_eq part (codes "**") then ok any_folders else do ts ← tokens part; ok (named ts)

-- `collect` into a `Result`: the first error, or all the parts.
unfoldable pub parts_of : List Text → Parsed (List Part)
unfolding part_of
parts_of [] = ok []
parts_of (p ∷ ps) = do part ← part_of p; rest ← parts_of ps; ok (part ∷ rest)

-- `chars().find(..)`.
unfoldable pub find_char : (ℕ → Bool) → Text → Option ℕ
find_char p [] = none
find_char p (c ∷ s) = if p c then some c else find_char p s

abbrev pub is_empty : Text → Bool
is_empty [] = true
is_empty (c ∷ s) = false

unfoldable pub new : Text → Parsed Glob
unfolding find_char parts_of trim_start split is_control text_eq
new text =
    if is_empty text
    then err empty_pattern
    else if any (λ c. c == b'\\') text
    then err has_backslash
    else elim (find_char is_control text) [
      | some c ↦ err (has_control c)
      | none ↦ if any is_empty (split b'/' (trim_start b'/' text)) then err empty_folder else do
        parts ← parts_of (split b'/' (trim_start b'/' text))
        ok (record { text = text; parts = parts })
    ]

-- The characters that `escape` makes a set of.
abbrev pub is_special : ℕ → Bool
is_special c = c == b'[' || c == b'*' || c == b'?'

-- A pattern that matches exactly a path: its `[`, `*` and `?` each made a set of itself.
unfoldable pub escape : Text → Text
escape [] = []
escape (c ∷ s) = (if is_special c then b'[' ∷ c ∷ b']' ∷ [] else c ∷ []) ++ escape s
