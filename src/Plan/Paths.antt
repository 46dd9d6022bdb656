-- ===== src/Plan/Paths.antt =====
-- src/plan.rs: `unpacked_paths`, where the files of an archive land, with `stem` of
-- src/archive.rs. A digest is the list of its bytes.
pub mod Distinct
use fetchloom.Base.{
  ℕ, zero, suc, ◌+◌, ◌-◌, Bool, true, false, not, ◌&&◌, ◌||◌, List, [], ◌∷◌, ◌++◌, map, Option,
  none, some, ◌==◌, length, any, all, leb, if◌then◌else◌,
}
use fetchloom.Base.Text.{Text, codes, text_eq, split_once}

pub record Member : Type 0 where
  pub path : Text
  pub size : ℕ
  pub sha256 : List ℕ

-- `rsplit_once`: the texts before and after the last place of a character.
abbrev pub last_split : ℕ → ℕ → Text → Option (Text × Text) → Option (Text × Text)
last_split c d s none = if d == c then some ([], s) else none
last_split c d s (some (a, b)) = some (d ∷ a, b)

unfoldable pub rsplit_once : ℕ → Text → Option (Text × Text)
rsplit_once c [] = none
rsplit_once c (d ∷ s) = last_split c d s (rsplit_once c s)

unfoldable pub strip_prefix : Text → Text → Option Text
strip_prefix [] s = some s
strip_prefix (c ∷ p) [] = none
strip_prefix (c ∷ p) (d ∷ s) = if c == d then strip_prefix p s else none

-- The text from the `n`th character on.
unfoldable pub skip : ℕ → Text → Text
skip zero s = s
skip (suc n) [] = []
skip (suc n) (c ∷ s) = skip n s

unfoldable pub join_path : Text → Text → Text
join_path [] path = path
join_path (c ∷ folder) path = (c ∷ folder) ++ (b'/' ∷ path)

abbrev pub is_slash_first : Option Text → Bool
is_slash_first none = false
is_slash_first (some []) = false
is_slash_first (some (c ∷ s)) = c == b'/'

unfoldable pub sits_under : Text → Member → Bool
unfolding strip_prefix
sits_under top member = is_slash_first (strip_prefix top member.path)

unfoldable pub top_of : Option (Text × Text) → List Member → Option Text
unfolding sits_under
top_of none members = none
top_of (some (top, _)) members = if all (sits_under top) members then some top else none

-- The one folder that every file sits under.
unfoldable pub common_top : List Member → Option Text
unfolding top_of split_once
common_top [] = none
common_top (first ∷ rest) = top_of (split_once b'/' first.path) (first ∷ rest)

unfoldable pub place_under : Text → List Member → (Text → Text) → List Text
unfolding join_path
place_under folder members rest = map (λ member. join_path folder (rest member.path)) members

abbrev pub to_lower : ℕ → ℕ
to_lower c = if leb b'A' c && leb c b'Z' then c + 32 else c

-- `UNPACKED` of src/archive.rs.
abbrev pub endings : List Text
endings = map codes (
    ".tar.bz2" ∷ ".tar.zst" ∷ ".tar.gz" ∷ ".tar.xz" ∷ ".tbz2" ∷ ".tzst" ∷ ".tar" ∷ ".tbz" ∷ ".tgz"
    ∷ ".txz" ∷ ".zip" ∷ [])

unfoldable pub ends_in : Text → Text → Bool
unfolding skip text_eq
ends_in ending s =
    leb (length ending) (length s) && text_eq (skip (length s - length ending) s) ending

abbrev pub first_chars : ℕ → Text → Text
first_chars zero s = []
first_chars (suc n) [] = []
first_chars (suc n) (c ∷ s) = c ∷ first_chars n s

abbrev pub unless_empty : Text → Text → Text
unless_empty [] name = name
unless_empty (c ∷ s) name = c ∷ s

unfoldable pub stem_by : List Text → Text → Text
unfolding ends_in
stem_by [] name = name
stem_by (ending ∷ rest) name =
    if ends_in ending (map to_lower name)
    then unless_empty (first_chars (length name - length ending) name) name
    else stem_by rest name

unfoldable pub stem : Text → Text
unfolding stem_by
stem name = stem_by endings name

-- `rsplit_once('/').unwrap_or(("", archive))`.
abbrev pub folder_and_name : Text → Option (Text × Text) → Text × Text
folder_and_name archive none = ([], archive)
folder_and_name archive (some p) = p

abbrev pub is_one_file : List Member → Bool
is_one_file (only ∷ []) = not (any (λ c. c == b'/') only.path)
is_one_file _ = false

abbrev pub is_some {ℓ} : {A : Type ℓ} → Option A → Bool
is_some none = false
is_some (some a) = true

-- A dataset that is one archive.
unfoldable pub paths_alone : Text → List Member → Option Text → List Text
unfolding place_under skip
paths_alone beside members none = place_under beside members (λ path. path)
paths_alone beside members (some top) = place_under beside members (skip (suc (length top)))

-- An archive beside other files.
unfoldable pub paths_beside : Text → Text → List Member → Option Text → List Text
unfolding place_under join_path stem
paths_beside beside name members top =
    place_under
      (if is_some top || is_one_file members then beside else join_path beside (stem name)) members
      (λ path. path)

unfoldable pub paths_in : Text × Text → Bool → List Member → List Text
unfolding paths_alone paths_beside common_top
paths_in (beside, name) alone members =
    if alone
    then paths_alone beside members (common_top members)
    else paths_beside beside name members (common_top members)

unfoldable pub unpacked_paths : Text → Bool → List Member → List Text
unfolding paths_in rsplit_once
unpacked_paths archive alone members =
    paths_in (folder_and_name archive (rsplit_once b'/' archive)) alone members
