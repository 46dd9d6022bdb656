-- ===== src/Plan/Expand.antt =====
-- src/plan.rs: `expand`, the files that a lock places. What the cache says an archive
-- unpacked to is the argument `members`.
pub mod Paired
pub mod Places
use fetchloom.Base.{ℕ, Bool, List, [], ◌∷◌, ◌++◌, Option, none, some, ◌==◌, length}
use fetchloom.Base.Text.{Text}
use fetchloom.Lock.Format.{LockedFile}
use fetchloom.Plan.Paths.{Member, join_path, unpacked_paths}

pub record Target : Type 0 where
  pub dataset : Text
  pub path : Text
  pub sha256 : List ℕ
  pub size : ℕ
  pub copy : Bool
  pub locked : LockedFile

pub record Plan : Type 0 where
  pub targets : List Target
  pub unknown : List (Text × LockedFile)

-- `zip` of the members and their paths.
abbrev pub zip_with {ℓ κ μ} :
    {A : Type ℓ} {B : Type κ} {C : Type μ} → (A → B → C) → List A → List B → List C
zip_with f (x ∷ xs) (y ∷ ys) = f x y ∷ zip_with f xs ys
zip_with f _ _ = []

module _ (dataset folder : Text) (copy : Bool) (members : LockedFile → Option (List Member)) where
  unfoldable pub target : LockedFile → Text → List ℕ → ℕ → Target
  unfolding join_path
  target file path sha256 size = record {
    dataset = dataset;
    path = join_path folder path;
    sha256 = sha256;
    size = size;
    copy = copy;
    locked = file;
  }

  -- An archive, with what is known of it.
  unfoldable pub expand_archive : Plan → Bool → LockedFile → Option (List Member) → Plan
  unfolding target unpacked_paths
  expand_archive p alone file none = record p { unknown = p.unknown ++ ((dataset, file) ∷ []) }
  expand_archive p alone file (some ms) = record p {
    targets =
        p.targets
        ++ zip_with (λ m path. target file path m.sha256 m.size) ms
            (unpacked_paths file.path alone ms);
  }

  unfoldable pub expand_file : Plan → Bool → LockedFile → Option (List ℕ) → Plan
  unfolding target expand_archive
  expand_file p alone file none = record p {
    targets = p.targets ++ (target file file.path file.sha256 file.size ∷ []);
  }
  expand_file p alone file (some tree) = expand_archive p alone file (members file)

  unfoldable pub expand_all : Plan → Bool → List LockedFile → Plan
  unfolding expand_file
  expand_all p alone [] = p
  expand_all p alone (file ∷ files) =
      expand_all (expand_file p alone file file.unpacks_to) alone files

  unfoldable pub expand : Plan → List LockedFile → Plan
  unfolding expand_all
  expand p files = expand_all p (length files == 1) files
