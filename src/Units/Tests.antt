-- ===== src/Units/Tests.antt =====
-- The theorem on sizes at concrete inputs, with some of the unit tests of src/units.rs.
use fetchloom.Base.{◌≡◌, refl}
use fetchloom.Units.{whole, tenths, size}
use fetchloom.Units.Rounds.{IsNear, size-IsNear}

small_size : size 1023 ≡ whole 1023
unfolding size
small_size = refl

rounded_up_size : size 1_048_525 ≡ tenths 10 1
unfolding size
rounded_up_size = refl

large_size : size 3_650_722_201 ≡ tenths 34 2
unfolding size
large_size = refl

size-IsNear_example : IsNear 3_650_722_201 (size 3_650_722_201)
size-IsNear_example = size-IsNear 3_650_722_201
