-- ===== src/Lock/Canonical.antt =====
-- src/project/lock/canonical.rs: the fast reader of data.lock. A text of which `from_hex` reads the
-- bytes is given by its characters: of one with a character outside ASCII neither is a digest.
pub mod Strings
pub mod Decimals
pub mod Sorted
pub mod Lengths
pub mod Files
pub mod Reads
pub mod Lines
use fetchloom.Base.{
  ℕ, zero, suc, ◌+◌, ◌-◌, ◌*◌, Bool, true, false, not, ◌&&◌, ◌||◌, List, [], ◌∷◌, ◌++◌, Option,
  none, some, ltb, leb, ◌==◌, any, all, length, if◌then◌else◌,
}
use fetchloom.Base.Text.{Text, codes, is_digit, value_from, split_once, text_eq}
use fetchloom.Digest.{to_digit, from_hex}
use fetchloom.Name.Refused.{escapes}
use fetchloom.Plan.Paths.{strip_prefix}
use fetchloom.Lock.Format.{LockedFile, Locked, text_less}
use fetchloom.Lock.Tokens.{
  ◌>>=◌, when, ◌>>◌, refused, up_to_quote, scalar, unescape_unicode, unescape, unquote,
  has_no_escape, string_body, string, without_return, next, is_empty, value, starts, sets,
  optional_from, optional,
}

-- The digits at the start of a text, and what follows them.
unfoldable pub span_digits : Text → Text × Text
span_digits [] = ([], [])
span_digits (c ∷ s) = let r = span_digits s in if is_digit c then (c ∷ r.0, r.1) else ([], c ∷ s)

abbrev pub i64_max : ℕ
i64_max = 0x7fff_ffff_ffff_ffff

abbrev pub starts_with_zero : Text → Bool
starts_with_zero [] = false
starts_with_zero (c ∷ s) = c == b'0'

unfoldable pub integer : Text → Option ℕ
unfolding value_from
integer digits = do
  when (not (is_empty digits || (ltb 1 (length digits) && starts_with_zero digits)))
  when (leb (value_from 0 digits) i64_max)
  some (value_from 0 digits)

abbrev pub md5_from : Text → Option Text → Option (Option (List ℕ) × Text)
md5_from rest none = some (none, rest)
md5_from rest (some after) = do r ← string after; md5 ← from_hex 16 r.0; some (some md5, r.1)

abbrev pub tree_from : Text → Option Text → Option (Option (List ℕ) × Text)
tree_from rest none = some (none, rest)
tree_from rest (some after) = do
  r ← string after
  digits ← strip_prefix (codes "sha256:") r.0
  tree ← from_hex 32 digits
  some (some tree, r.1)

-- The size, up to the first character that is no digit, which there is.
unfoldable pub sized : Text × Text → Option (ℕ × Text)
sized (digits, rest) = do when (not (is_empty rest)); size ← integer digits; some (size, rest)

unfoldable pub read_size : Text → Option (ℕ × Text)
unfolding sized span_digits
read_size text = sized (span_digits text)

unfoldable pub read_file : Text → Option LockedFile
read_file line = do
  a ← strip_prefix (codes "  { path = ") line
  path ← string a
  b ← strip_prefix (codes ", size = ") path.1
  size ← read_size b
  c ← strip_prefix (codes ", sha256 = ") size.1
  sha ← string c
  sha256 ← from_hex 32 sha.0
  md5 ← md5_from sha.1 (strip_prefix (codes ", md5 = ") sha.1)
  d ← strip_prefix (codes ", url = ") md5.1
  url ← string d
  tree ← tree_from url.1 (strip_prefix (codes ", unpacks_to = ") url.1)
  when (text_eq tree.1 (codes " },"))
  some (record {
    path = path.0;
    size = size.0;
    sha256 = sha256;
    md5 = md5.0;
    url = url.0;
    unpacks_to = tree.0;
  })

-- Whether a path comes after the last one, if there is one.
abbrev pub follows : Option Text → Text → Bool
follows none path = true
follows (some last) path = text_less last path

abbrev pub is_safe : Text → Bool
is_safe path = elim (escapes path) [ none ↦ true | some _ ↦ false ]

-- The loop over the lines of an array of files, on fuel, with the path of the last one.
unfoldable pub read_files : ℕ → Option Text → Text → Option (List LockedFile × Text)
read_files zero last text = none
read_files (suc fuel) last text = do
  line ← next text
  let more : Option (List LockedFile × Text) = do
    file ← read_file line.0
    when (follows last file.path && is_safe file.path)
    rest ← read_files fuel (some file.path) line.1
    some (file ∷ rest.0, rest.1)
  if text_eq line.0 (codes "]") then some ([], line.1) else more

abbrev pub files_after : Text → Text → Option (List LockedFile × Text)
files_after line text =
    if text_eq line (codes "files = []")
    then some ([], text)
    else if text_eq line (codes "files = [")
    then read_files (suc (length text)) none text
    else none

unfoldable pub read_dataset : Text → Option (Locked × Text)
read_dataset text = do
  name ← value (codes "name") text
  reference ← value (codes "ref") name.1
  spec ← value (codes "spec") reference.1
  resolved ← value (codes "resolved") spec.1
  title ← optional (codes "title") resolved.1
  license ← optional (codes "license") title.1
  doi ← optional (codes "doi") license.1
  locked ← value (codes "locked") doi.1
  line ← next locked.1
  files ← files_after line.0 line.1
  some (
    record {
      name = name.0;
      reference = reference.0;
      spec = spec.0;
      resolved = resolved.0;
      title = title.0;
      license = license.0;
      doi = doi.0;
      timestamp = locked.0;
      files = files.0;
    },
    files.1,
  )

-- The loop over the datasets, on fuel, with the name of the last one.
unfoldable pub read_datasets : ℕ → Option Text → Text → Option (List Locked)
read_datasets zero last text = none
read_datasets (suc fuel) last [] = some []
read_datasets (suc fuel) last (c ∷ text) = do
  blank ← next (c ∷ text)
  when (is_empty blank.0)
  header ← next blank.1
  when (text_eq header.0 (codes "[[dataset]]"))
  d ← read_dataset header.1
  when (follows last d.0.name)
  rest ← read_datasets fuel (some d.0.name) d.1
  some (d.0 ∷ rest)

unfoldable pub read : Text → Option (List Locked)
read text = do
  version ← next text
  when (text_eq version.0 (codes "version = 1"))
  read_datasets (suc (length version.1)) none version.1
