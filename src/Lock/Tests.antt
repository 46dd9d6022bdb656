-- ===== src/Lock/Tests.antt =====
-- Tests of the lock, and the witness of its theorem.
use fetchloom.Base.{
  ℕ, suc, ◌+◌, ◌≤◌, ◌<◌, ◌≡◌, refl, zero, All, Bool, true, false, List, [], ◌∷◌, ◌++◌, Option, none,
  some, arith, ltb, leb, ◌==◌,
}
use fetchloom.Base.Text.{Text, codes}
use fetchloom.Lock.Format.{LockedFile, Locked, text_less, render}
use fetchloom.Digest.Reads.{IsByte}
use fetchloom.Lock.Canonical.{read}
use fetchloom.Lock.Canonical.Reads.{IsFile, IsLock, read-render}

abbrev filled : ℕ → List ℕ
filled zero = []
filled (suc n) = 171 ∷ filled n

abbrev counts : LockedFile
counts = record {
  path = codes "counts.csv";
  size = 12;
  sha256 = filled 32;
  md5 = some (filled 16);
  url = codes "https://x/c\"1\"";
  unpacks_to = none;
}

abbrev labels : LockedFile
labels = record {
  path = codes "labels.zip";
  size = 0;
  sha256 = filled 32;
  md5 = none;
  url = codes "https://x/l";
  unpacks_to = some (filled 32);
}

abbrev cells : Locked
cells = record {
  name = codes "cells";
  reference = codes "zenodo:1";
  spec = [];
  resolved = codes "zenodo:1@2";
  title = some (codes "Cells");
  license = none;
  doi = some (codes "10.5281/1");
  timestamp = codes "2024-01-01T00:00:00Z";
  files = counts ∷ labels ∷ [];
}

abbrev empty_one : Locked
empty_one = record {
  name = codes "empty";
  reference = codes "zenodo:2";
  spec = [];
  resolved = codes "zenodo:2@1";
  title = none;
  license = none;
  doi = none;
  timestamp = codes "2024-01-01T00:00:00Z";
  files = [];
}

filled-IsByte : (n : ℕ) → All IsByte (filled n)
filled-IsByte zero = tt
filled-IsByte (suc n) = (omega arith, filled-IsByte n)

counts-IsFile : IsFile counts
unfolding fetchloom.Name.Refused.escapes fetchloom.Base.Text.is_control fetchloom.Base.Text.split
counts-IsFile = record {
  safe = refl;
  written = record {
    size_fits = omega arith;
    sha256_is = (refl, filled-IsByte 32);
    md5_is = (refl, filled-IsByte 16);
    tree_is = tt;
  };
}

labels-IsFile : IsFile labels
unfolding fetchloom.Name.Refused.escapes fetchloom.Base.Text.is_control fetchloom.Base.Text.split
labels-IsFile = record {
  safe = refl;
  written = record {
    size_fits = omega arith;
    sha256_is = (refl, filled-IsByte 32);
    md5_is = tt;
    tree_is = (refl, filled-IsByte 32);
  };
}

two_datasets-IsLock : IsLock (cells ∷ empty_one ∷ [])
unfolding text_less
two_datasets-IsLock = record {
  ascend = (refl, (refl, tt));
  each = (
    record { ascend = (refl, (refl, tt)); each = (counts-IsFile, (labels-IsFile, tt)) },
    (record { ascend = tt; each = tt }, tt),
  );
}

read-render_example : read (render (cells ∷ empty_one ∷ [])) ≡ some (cells ∷ empty_one ∷ [])
read-render_example = read-render (cells ∷ empty_one ∷ []) two_datasets-IsLock
