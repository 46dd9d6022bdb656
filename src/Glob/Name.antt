-- ===== src/Glob/Name.antt =====
-- src/glob.rs: `matches_name`, and what it means that tokens fit a whole name.
pub mod Decides
use fetchloom.Base.{
  ℕ, zero, suc, ◌+◌, ◌*◌, ◌≤◌, ◌<◌, ◌≡◌, refl, ◌↔◌, ◌⊎◌, inl, inr, Bool, true, false, List, [], ◌∷◌,
  Option, none, some, arith, length, if◌then◌else◌, Bool-cases,
}
use fetchloom.Base.Text.{Text}
use fetchloom.Glob.Pattern.{Token, char, one, many, set, fits}

-- What it means that the tokens cover a whole name.
pub data Fits : List Token → Text → Type 0 where
  finished : Fits [] []
  take_one :
      {t : Token} {c : ℕ} {ts : List Token} {cs : Text}
      → fits t c ≡ true
      → Fits ts cs
      → Fits (t ∷ ts) (c ∷ cs)
  pass_star : {ts : List Token} {cs : Text} → Fits ts cs → Fits (many ∷ ts) cs
  feed_star :
      {c : ℕ} {ts : List Token} {cs : Text} → Fits (many ∷ ts) cs → Fits (many ∷ ts) (c ∷ cs)

-- The last line of the function: every token left is a star.
unfoldable pub all_many : List Token → Bool
all_many [] = true
all_many (many ∷ ts) = all_many ts
all_many (_ ∷ ts) = false

-- The last star met: the tokens after it, and the characters from where it was met. A position in
-- the tokens or the characters is the list from that position on.
abbrev pub Star : Type 0
Star = Option (List Token × Text)

abbrev Loop : Type 0
Loop = List Token → Text → Star → Option Bool

abbrev rest_of : Text → Text
rest_of [] = []
rest_of (c ∷ cs) = cs

-- The last arm of the loop's match: back to the star, which takes one character more.
unfoldable pub backtrack : Star → Loop → Option Bool
backtrack none again = some false
backtrack (some (after, from)) again = again after (rest_of from) (some (after, rest_of from))

-- The `while` loop, on fuel; `none` means that the fuel ran out.
unfoldable pub name_loop : ℕ → Loop
unfolding all_many backtrack
name_loop zero ts cs star = none
name_loop (suc fuel) ts [] star = some (all_many ts)
name_loop (suc fuel) [] (c ∷ cs) star = backtrack star (name_loop fuel)
name_loop (suc fuel) (many ∷ ts) (c ∷ cs) star = name_loop fuel ts (c ∷ cs) (some (ts, c ∷ cs))
name_loop (suc fuel) (t ∷ ts) (c ∷ cs) star =
    let onward = name_loop fuel ts cs star in
    if fits t c then onward else backtrack star (name_loop fuel)

unfoldable pub matches_name : List Token → Text → Option Bool
unfolding name_loop
matches_name ts cs = name_loop (suc (length cs) * suc (length ts)) ts cs none
