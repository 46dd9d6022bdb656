-- ===== src/Glob/Escape.antt =====
-- `escape`: an escaped path is a pattern that is taken and matches that path alone.
mod Tokens
mod Pieces
use fetchloom.Base.{
  ℕ, ◌≡◌, refl, sym, ap, ◌∙◌, ◌↔◌, Bool, true, false, List, [], ◌∷◌, ◌++◌, none, some, map, arith,
  ◌==◌, any, if◌then◌else◌, Bool-cases,
}
use fetchloom.Base.Text.{Text, is_control, trim_start, split}
use fetchloom.Glob.Pattern.{Glob, named}
use fetchloom.Glob.Parse.{ok, ◌>>=◌, find_char, is_empty, parts_of, new, escape}
use fetchloom.Glob.Path.{matches}
use fetchloom.Glob.Path.Decides.{matches-Settles}
use Tokens.{lits, parts_of-escape, Covers-lits, lits-Covers}
use Pieces.{
  split-escape, any-is_empty-escape, trim_start-escape, backslash-escape, find_char-escape,
  is_empty-escape, split-injective,
}

-- A path that `escape` is given: no `\`, no control character and no empty folder name.
pub record PathIsPlain (path : Text) : Type 0 where
  pub no_backslash : any (λ c. c == b'\\') path ≡ false
  pub no_control : find_char is_control path ≡ none
  pub no_empty_folder : any is_empty (split b'/' path) ≡ false

abbrev escaped : Text → Glob
escaped path = record { text = escape path; parts = map (λ n. named (lits n)) (split b'/' path) }

new-escape : (path : Text) → PathIsPlain path → new (escape path) ≡ ok (escaped path)
unfolding new
new-escape path p = rw (
  is_empty-escape path p.no_empty_folder,
  backslash-escape path,
  p.no_backslash,
  find_char-escape path,
  p.no_control,
  trim_start-escape path p.no_empty_folder,
  split-escape path,
  any-is_empty-escape (split b'/' path),
  p.no_empty_folder,
  parts_of-escape (split b'/' path) p.no_empty_folder,
)

-- The escape of a plain path is a pattern that is taken, and the pattern matches that path and no
-- other.
pub matches-escape :
    (path other : Text)
    → PathIsPlain path
    → (g : Glob) × (new (escape path) ≡ ok g) × ((matches g other ≡ some true) ↔ (other ≡ path))
matches-escape path other p =
    let (b, e, fit) = matches-Settles (escaped path) other in
    (
      escaped path,
      new-escape path p,
      (
        λ h.
            split-injective b'/' other path
              (lits-Covers (split b'/' path) (split b'/' other) (fit.0 (cc (e, h)))),
        λ h. e ∙ ap some (fit.1 (rw h (Covers-lits (split b'/' path)))),
      ),
    )
