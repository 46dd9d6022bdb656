-- ===== src/Plan/Tests.antt =====
-- The theorems on plans at concrete inputs, as in the unit tests of src/plan.rs.
use fetchloom.Base.{
  ◌↔◌, ◌⊎◌, Some, length, map, none, Option, some, ◌≡◌, ◌≢◌, refl, ap, true, false, List, [], ◌∷◌,
}
use fetchloom.Base.Text.{Text, codes, split_once, text_eq}
use fetchloom.Lock.Format.{LockedFile}
use fetchloom.Plan.Expand.{Target, Plan, expand}
use fetchloom.Plan.Expand.Paired.{IsIn}
use fetchloom.Plan.Expand.Places.{Places, IsUnknown, expand-Places}
use fetchloom.Plan.Paths.{Member, unpacked_paths}
use fetchloom.Plan.Overlap.{overlapping}
use fetchloom.Plan.Overlap.Settles.{Means, overlapping-Means}
use fetchloom.Plan.Paths.Distinct.{AreDistinct, unpacked_paths-AreDistinct}

abbrev member : Text → Member
member path = record { path = path; size = 1; sha256 = [] }

abbrev two_members : List Member
two_members = member (codes "top/a.csv") ∷ member (codes "top/b.csv") ∷ []

alone_unpacked :
    unpacked_paths (codes "iris.zip") true two_members ≡ codes "a.csv" ∷ codes "b.csv" ∷ []
unfolding unpacked_paths split_once
alone_unpacked = refl

abbrev lone_member : List Member
lone_member = member (codes "x/y") ∷ member (codes "z") ∷ []

beside_unpacked :
    unpacked_paths (codes "sub/data.tar.gz") false lone_member
    ≡ codes "sub/data/x/y" ∷ codes "sub/data/z" ∷ []
unfolding unpacked_paths split_once text_eq
beside_unpacked = refl

differ : codes "top/a.csv" ≢ codes "top/b.csv"
unfolding text_eq
differ e = apart (ap (text_eq (codes "top/a.csv")) e)
  where
    apart : true ≡ false → ⊥
    apart e = cc

unpacked_paths-AreDistinct_example :
    AreDistinct (unpacked_paths (codes "iris.zip") true two_members)
unpacked_paths-AreDistinct_example =
    unpacked_paths-AreDistinct (codes "iris.zip") true two_members ((differ, tt), (tt, tt))

abbrev three_folders : List Text
three_folders = codes "data/a/b" ∷ codes "data/c" ∷ codes "data/a" ∷ []

inner_overlapping : overlapping three_folders ≡ some (0, 2)
unfolding overlapping text_eq
inner_overlapping = refl

overlapping-Means_example : Means three_folders (overlapping three_folders)
overlapping-Means_example = overlapping-Means three_folders

abbrev archive : LockedFile
archive = record {
  path = codes "iris.zip";
  size = 9;
  sha256 = 7 ∷ [];
  md5 = none;
  url = [];
  unpacks_to = some (8 ∷ []);
}

abbrev unpacked : LockedFile → Option (List Member)
unpacked file = some two_members

abbrev no_plan : Plan
no_plan = record { targets = []; unknown = [] }

abbrev readme : LockedFile
readme = record archive { path = codes "readme.md"; unpacks_to = none }

abbrev with_iris : Plan
with_iris = expand (codes "iris") (codes "data/iris") false unpacked no_plan (archive ∷ readme ∷ [])

expand-Places_example :
    ((t : Target)
      → IsIn t with_iris.targets ↔ (
          IsIn t []
          ⊎ Some
              (Places (codes "iris") (codes "data/iris") false unpacked false t)
              (archive ∷ readme ∷ [])))
    × ((path : Text) (ms : List Member) → length (unpacked_paths path false ms) ≡ length ms)
    × ((x : Text × LockedFile)
        → IsIn x with_iris.unknown ↔ (
            IsIn x []
            ⊎ Some
                (λ file.
                  ((codes "iris", file) ≡ x)
                  × IsUnknown (codes "iris") (codes "data/iris") false unpacked file)
                (archive ∷ readme ∷ [])))
expand-Places_example =
    expand-Places (codes "iris") (codes "data/iris") false unpacked no_plan (archive ∷ readme ∷ [])

placed_files :
    map (λ (t : Target). t.path) with_iris.targets
    ≡ codes "data/iris/top/a.csv" ∷ codes "data/iris/top/b.csv" ∷ codes "data/iris/readme.md" ∷ []
unfolding expand split_once text_eq
placed_files = refl
