-- ===== src/Name/Folded.antt =====
-- src/name.rs: `fold`, the key of a name on a disk that ignores case. The tables of unicode, which
-- the icu and standard libraries hold, are a parameter.
use fetchloom.Base.{ℕ, Bool, ◌+◌, ◌&&◌, map, ltb, leb, all, if◌then◌else◌}
use fetchloom.Base.Text.{Text}

pub record Unicode : Type 0 where
  pub nfc : Text → Text
  pub to_uppercase : Text → Text
  pub to_lowercase : Text → Text

abbrev pub is_ascii : ℕ → Bool
is_ascii c = ltb c 128

abbrev pub to_ascii_lowercase : ℕ → ℕ
to_ascii_lowercase c = if leb b'A' c && leb c b'Z' then c + 32 else c

unfoldable pub fold : Unicode → Text → Text
fold u path =
    if all is_ascii path
    then map to_ascii_lowercase path
    else u.to_lowercase (u.to_uppercase (u.nfc path))
