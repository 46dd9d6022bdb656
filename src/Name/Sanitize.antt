-- ===== src/Name/Sanitize.antt =====
-- src/name.rs: `sanitize`, which makes a name that a server suggested safe to create.
pub mod Keeps
pub mod Safe
use fetchloom.Base.{
  ℕ, Bool, true, false, ◌||◌, List, [], ◌∷◌, map, Option, none, some, ◌==◌, any, if◌then◌else◌,
}
use fetchloom.Base.Text.{Text, trim, drop_while_end}
use fetchloom.Name.Pieces.{split_by}
use fetchloom.Name.Dataset.{is_nil}
use fetchloom.Name.Refused.{is_bidi_control}
use fetchloom.Name.Stored.{is_refused_char, is_dot_or_space, shorten, is_reserved_on_windows}

-- `rsplit(..).next()`: the last piece.
abbrev pub last_or : Text → List Text → Text
last_or s [] = s
last_or s (p ∷ ps) = last_or p ps

abbrev pub is_separator : ℕ → Bool
is_separator c = c == b'/' || c == b'\\'

abbrev pub replaced : ℕ → ℕ
replaced c = if fetchloom.Base.Text.is_control c || is_refused_char c then b'_' else c

unfoldable pub last_name : Text → Text
unfolding split_by
last_name raw = last_or [] (split_by is_separator raw)

unfoldable pub trimmed : Text → Text
unfolding trim drop_while_end
trimmed s = drop_while_end is_dot_or_space (trim s)

unfoldable pub named : Text → Option Text
unfolding is_reserved_on_windows
named name =
    if is_nil name then none else some (if is_reserved_on_windows name then b'_' ∷ name else name)

unfoldable pub sanitize : Text → Option Text
unfolding is_bidi_control last_name trimmed shorten drop_while_end named
sanitize raw =
    if any is_bidi_control raw
    then none
    else named (drop_while_end is_dot_or_space (shorten (trimmed (map replaced (last_name raw)))))
