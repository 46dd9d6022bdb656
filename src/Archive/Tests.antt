-- ===== src/Archive/Tests.antt =====
-- Tests of archives, and the witnesses of their theorems.
use fetchloom.Base.{
  ℕ, zero, suc, ◌+◌, ◌*◌, ◌≤◌, ◌<◌, ◌≡◌, ◌↔◌, refl, Bool, true, false, List, [], ◌∷◌, Option, none,
  some, arith, max, All,
}
use fetchloom.Base.Text.{Text, codes}
use fetchloom.Name.Folded.{Unicode}
use fetchloom.Archive.Names.{file, accepted, with_budget, add, add_all}
use fetchloom.Archive.Names.Apart.{AreApart, add_all-AreApart}
use fetchloom.Archive.Names.Accepts.{IsTaken, add_all-IsTaken, IsWithin, add-IsWithin}
use fetchloom.Archive.Guard.{
  Limits, Guard, new, copy, entry, Round, bytes, interrupted, ratio_floor,
}
use fetchloom.Archive.Guard.Bounds.{begun, entries, copies, Unpacking-bounded}

-- Tables for ASCII: composing changes nothing.
abbrev ascii : Unicode
ascii = record { nfc = λ s. s; to_uppercase = λ s. s; to_lowercase = λ s. s }

abbrev sample : List (Text × Bool)
sample =
    (codes "./a.csv", false)
    ∷ (codes "A.csv", false)
    ∷ (codes "data/", true)
    ∷ (codes "data/b.csv", false)
    ∷ (codes "../c", false)
    ∷ (codes "data", false)
    ∷ (codes "data/B/c", false)
    ∷ (codes "Data/d", false)
    ∷ []

sample_files :
    (add_all ascii false (with_budget 4096) sample).1
    ≡ codes "a.csv" ∷ codes "data/b.csv" ∷ codes "data/B/c" ∷ []
unfolding add_all fetchloom.Base.Text.split fetchloom.Base.Text.is_control
    fetchloom.Base.Text.byte_len fetchloom.Base.Text.text_eq
sample_files = refl

add_all-AreApart_example : AreApart ascii (add_all ascii false (with_budget 4096) sample).1
add_all-AreApart_example = add_all-AreApart ascii false (with_budget 4096) sample

add_all-IsTaken_example : All (IsTaken false) (add_all ascii false (with_budget 4096) sample).1
add_all-IsTaken_example = add_all-IsTaken ascii false (with_budget 4096) sample

add_one :
    (add ascii false (with_budget 4096) (codes "data/b.csv") false).1
    ≡ accepted (file (codes "data/b.csv"))
unfolding add fetchloom.Base.Text.split fetchloom.Base.Text.is_control fetchloom.Base.Text.byte_len
    fetchloom.Base.Text.text_eq
add_one = refl

add-IsWithin_example :
    IsWithin 4096 (add ascii false (with_budget 4096) (codes "data/b.csv") false).0
add-IsWithin_example =
    add-IsWithin 4096 (omega arith) ascii false (with_budget 4096) (codes "data/b.csv") false
      (file (codes "data/b.csv")) (refl, omega arith, omega arith) add_one

abbrev small : Limits
small = record { members = 2; bytes = 10; ratio = 200 }

abbrev rounds : List Round
rounds =
    record { metered = 3; read = bytes 6; can_write = true; asked = false }
    ∷ record { metered = 0; read = interrupted; can_write = true; asked = false }
    ∷ record { metered = 1; read = bytes 5; can_write = true; asked = false }
    ∷ []

abbrev opened : Guard
opened = (entry (new small (with_budget 4096)) false).0

Unpacking-bounded_example :
    ((0 + (copy opened rounds).out) ≤ 10)
    × ((0 + (copy opened rounds).out)
        ≤ max ratio_floor ((copy opened rounds).guard.compressed * 200))
Unpacking-bounded_example =
    Unpacking-bounded small ascii false (with_budget 4096) (0 + (copy opened rounds).out)
      (copy opened rounds).guard (omega arith) (copies (entries begun false) rounds)

copied : (copy (new small (with_budget 4096)) rounds).out ≡ 6
unfolding copy
copied = refl
