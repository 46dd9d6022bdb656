-- ===== src/Units.antt =====
-- src/units.rs: `size`, the number and the unit that it shows.
pub mod Rounds
pub mod Tests
use fetchloom.Base.{ℕ, zero, suc, ◌+◌, ◌*◌, ◌/◌, ltb, if◌then◌else◌}

-- What is shown: a number of bytes, or tenths of a unit with the place of the unit in `UNITS`.
pub data Shown : Type 0 where
  whole : ℕ → Shown
  tenths : ℕ → ℕ → Shown

abbrev pub tenths_of : ℕ → ℕ → ℕ
tenths_of bytes divisor = (bytes * 10 + divisor / 2) / divisor

-- The loop, with the number of units that are left.
unfoldable pub size_loop : ℕ → ℕ → ℕ → ℕ → Shown
size_loop zero bytes unit divisor = tenths (tenths_of bytes divisor) unit
size_loop (suc left) bytes unit divisor =
    let rest = size_loop left bytes (suc unit) (divisor * 1024) in
    if ltb (tenths_of bytes divisor) 10240 then tenths (tenths_of bytes divisor) unit else rest

unfoldable pub size : ℕ → Shown
unfolding size_loop
size bytes = if ltb bytes 1024 then whole bytes else size_loop 4 bytes 0 1024
