-- ===== src/Archive/Names.antt =====
-- src/archive/names.rs: the names inside an archive, made portable, checked and compared the way
-- disks compare them. The map of names is an association list; `cfg!(windows)` is an argument.
pub mod Entries
pub mod Added
pub mod Apart
pub mod Accepts
use fetchloom.Base.{
  ℕ, suc, ◌+◌, ◌*◌, Bool, true, false, not, ◌&&◌, ◌||◌, List, [], ◌∷◌, ◌++◌, Option, none, some,
  min, ltb, ◌==◌, any, length, if◌then◌else◌,
}
use fetchloom.Base.Text.{Text, codes, byte_len, text_eq, split}
use fetchloom.Name.Pieces.{ends_with}
use fetchloom.Name.Dataset.{is_nil}
use fetchloom.Name.Refused.{is_control, escapes}
use fetchloom.Name.Stored.{Unstorable, unstorable}
use fetchloom.Name.Folded.{Unicode, fold}

abbrev pub longest_path : ℕ
longest_path = 4096

abbrev pub name_bytes : ℕ
name_bytes = 256 * 1024 * 1024

abbrev pub per_name : ℕ
per_name = 64

abbrev pub u64_max : ℕ
u64_max = 0xffff_ffff_ffff_ffff

abbrev pub saturating : ℕ → ℕ
saturating n = min n u64_max

pub data Named : Type 0 where
  file : Text → Named
  folder : Named

pub record Seen : Type 0 where
  pub id : ℕ
  pub name : Option Text
  pub raw : Option Text
  pub is_folder : Bool

pub record Names : Type 0 where
  pub seen : List ((ℕ × Text) × Seen)
  pub kept : ℕ
  pub budget : ℕ

-- The refusals, with what their messages show.
pub data Refusal : Type 0 where
  too_long : Refusal
  controls : Refusal
  leaves : fetchloom.Name.Refused.Reason → Refusal
  not_stored : Unstorable → Refusal
  over_budget : Refusal
  one_name : Text → Text → Refusal
  twice : Text → Refusal
  two_forms : Text → Refusal
  both_kinds : Text → Refusal

pub data Outcome (A : Type 0) : Type 0 where
  accepted : A → Outcome A
  refused : Refusal → Outcome A

abbrev pub with_budget : ℕ → Names
with_budget budget = record { seen = []; kept = 0; budget = budget }

unfoldable pub lookup : ℕ × Text → List ((ℕ × Text) × Seen) → Option Seen
unfolding text_eq
lookup k [] = none
lookup (holder, key) (((holder', key'), s) ∷ seen) =
    if holder == holder' && text_eq key key' then some s else lookup (holder, key) seen

-- `check_budget`.
unfoldable pub check_budget : {A : Type 0} → Names → A → Outcome A
check_budget names a = if ltb names.budget names.kept then refused over_budget else accepted a

abbrev pub or_else : Option Text → Text → Text
or_else none s = s
or_else (some t) s = t

abbrev pub again : Bool → Text → Refusal
again true path = twice path
again false path = two_forms path

-- A name that was seen: `path` is the whole path up to it.
unfoldable pub meet : Seen → Text → Option Text → Bool → Outcome ℕ
unfolding text_eq
meet old path raw is_folder =
    if old.is_folder && is_folder
    then accepted old.id
    else if not old.is_folder && not is_folder
    then refused (again (text_eq (or_else old.raw path) (or_else raw path)) path)
    else refused (both_kinds path)

unfoldable pub occupied : Seen → Text → Text → Text → Option Text → Bool → Outcome ℕ
unfolding text_eq meet
occupied old key before name raw is_folder =
    if text_eq (or_else old.name key) name
    then meet old (before ++ name) raw is_folder
    else refused (one_name (before ++ or_else old.name key) (before ++ name))

abbrev pub raw_length : Option Text → ℕ
raw_length none = 0
raw_length (some raw) = byte_len raw

-- A name that was not seen before.
unfoldable pub enter : Names → ℕ → Text → Text → Option Text → Bool → Names
unfolding text_eq byte_len
enter names holder key name raw is_folder =
    let spelled = if text_eq key name then none else some name in
    record {
      seen =
          (
            (holder, key),
            record {
              id = suc (length names.seen);
              name = spelled;
              raw = raw;
              is_folder = is_folder;
            },
          )
          ∷ names.seen;
      kept = saturating (names.kept + (per_name + (byte_len name + raw_length raw)));
      budget = names.budget;
    }

unfoldable pub insert_at :
    Option Seen → Names → ℕ → Text → Text → Text → Option Text → Bool → Names × Outcome ℕ
unfolding enter check_budget occupied
insert_at none names holder key before name raw is_folder =
    let after = enter names holder key name raw is_folder in
    (after, check_budget after (suc (length names.seen)))
insert_at (some old) names holder key before name raw is_folder =
    (names, occupied old key before name raw is_folder)

module _ (u : Unicode) where
  -- `insert`, of the name behind `before` in the folder `holder`.
  unfoldable pub insert : Names → ℕ → Text → Text → Option Text → Bool → Names × Outcome ℕ
  unfolding lookup fold insert_at
  insert names holder before name raw is_folder =
      insert_at (lookup (holder, fold u name) names.seen) names holder (fold u name) before name raw
        is_folder

  -- The folders above the last name, and the last name.
  unfoldable pub insert_all : Names → ℕ → Text → List Text → Option Text → Bool → Names × Outcome ℕ
  unfolding insert
  insert_all names holder before [] raw is_folder = (names, accepted holder)
  insert_all names holder before (name ∷ []) raw is_folder =
      insert names holder before name raw is_folder
  insert_all names holder before (name ∷ next ∷ rest) raw is_folder =
      let r = insert names holder before name none true in
      elim r.1 [
        | refused e ↦ (r.0, refused e)
        | accepted id ↦
            insert_all r.0 id (before ++ (name ++ (b'/' ∷ []))) (next ∷ rest) raw is_folder
      ]

-- `while let Some(rest) = path.strip_prefix("./")`.
unfoldable pub strip_dots : Text → Text
strip_dots (c ∷ d ∷ s) = if c == b'.' && d == b'/' then strip_dots s else c ∷ d ∷ s
strip_dots s = s

-- `strip_suffix('/')`, where the suffix is there.
unfoldable pub strip_slash : Text → Text
strip_slash [] = []
strip_slash (c ∷ []) = if c == b'/' then [] else c ∷ []
strip_slash (c ∷ d ∷ s) = c ∷ strip_slash (d ∷ s)

abbrev pub first_refusal : Option fetchloom.Name.Refused.Reason → Option Unstorable → Option Refusal
first_refusal (some reason) _ = some (leaves reason)
first_refusal none (some reason) = some (not_stored reason)
first_refusal none none = none

-- What is wrong with a path in NFC.
unfoldable pub refusal : Bool → Text → Option Refusal
unfolding byte_len is_control escapes unstorable
refusal windows nfc =
    if ltb longest_path (byte_len nfc)
    then some too_long
    else if any is_control nfc
    then some controls
    else first_refusal (escapes nfc) (unstorable windows nfc)

abbrev pub named : Text → Bool → Names × Outcome ℕ → Names × Outcome Named
named nfc is_folder (names, accepted id) =
    (names, accepted (if is_folder then folder else file nfc))
named nfc is_folder (names, refused e) = (names, refused e)

-- The files that are taken from the entries of an archive, when the refused ones are left out.
abbrev pub keep : Outcome Named → List Text → List Text
keep (accepted (file path)) paths = path ∷ paths
keep (accepted folder) paths = paths
keep (refused e) paths = paths

module _ (u : Unicode) (windows : Bool) where
  unfoldable pub add_nfc : Option Refusal → Names → Text → Text → Bool → Names × Outcome Named
  unfolding check_budget split insert_all byte_len text_eq
  add_nfc (some e) names raw nfc is_folder = (names, refused e)
  add_nfc none names raw nfc is_folder =
      let counted = record names { kept = saturating (names.kept + byte_len nfc) } in
      elim (check_budget counted nfc) [
        | refused e ↦ (counted, refused e)
        | accepted _ ↦ named nfc is_folder (
            insert_all u counted 0 [] (split b'/' nfc) (if text_eq raw nfc then none else some raw)
              is_folder)
      ]

  unfoldable pub add_path : Names → Text → Text → Bool → Names × Outcome Named
  unfolding refusal add_nfc text_eq
  add_path names raw path is_folder =
      if is_nil path || text_eq path (b'.' ∷ [])
      then (names, accepted folder)
      else add_nfc (refusal windows (u.nfc path)) names raw (u.nfc path) is_folder

  -- `Names::add`.
  unfoldable pub add : Names → Text → Bool → Names × Outcome Named
  unfolding byte_len strip_dots strip_slash ends_with add_path
  add names raw is_folder =
      let path = strip_dots raw in
      if ltb longest_path (byte_len raw)
      then (names, refused too_long)
      else add_path names raw (strip_slash path) (is_folder || ends_with (λ c. c == b'/') path)

  unfoldable pub add_all : Names → List (Text × Bool) → Names × List Text
  unfolding add
  add_all names [] = (names, [])
  add_all names ((raw, is_folder) ∷ entries) =
      let r = add names raw is_folder in let rest = add_all r.0 entries in (rest.0, keep r.1 rest.1)
