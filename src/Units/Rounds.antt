-- ===== src/Units/Rounds.antt =====
-- How near the size that is shown is to the one that is meant.
use fetchloom.Base.{
  ℕ, zero, suc, ◌+◌, ◌*◌, ◌/◌, ◌≤◌, ◌<◌, ◌≡◌, refl, inl, inr, arith, ltb, Bool-cases,
}
use fetchloom.Units.{Shown, whole, tenths, tenths_of, size_loop, size}

abbrev unit_of : ℕ → ℕ
unit_of zero = 1024
unit_of (suc u) = 1024 * unit_of u

-- When a size is near to a number of bytes: the last two conditions say that it is rounded to the nearest tenth.
pub data IsNear (bytes : ℕ) : Shown → Type 0 where
  exact : bytes < 1024 → IsNear bytes (whole bytes)
  rounded :
      {t u d : ℕ}
      → d ≡ unit_of u
      → 10 ≤ t
      → t * d ≤ bytes * 10 + d / 2
      → bytes * 10 + d / 2 < t * d + d
      → IsNear bytes (tenths t u)

-- What `size` shows of a number of bytes is near to it: below 1024 the number itself, else a number of
-- tenths of a unit, at least ten of them, that is off by half a tenth at most.
pub size-IsNear : (bytes : ℕ) → IsNear bytes (size bytes)
unfolding size size_loop
size-IsNear bytes = elim (Bool-cases (ltb bytes 1024)) [
  | inl h ↦ rw h (exact (ground (arith, h)))
  | inr h ↦ rw h (elim (Bool-cases (ltb (tenths_of bytes 1024) 10240)) [
    | inl a ↦ rw a (rounded refl (ground (arith, h)) (omega arith) (omega arith))
    | inr a ↦ rw a (elim (Bool-cases (ltb (tenths_of bytes (1024 * 1024)) 10240)) [
      | inl b ↦ rw b (rounded refl (ground (arith, a)) (omega arith) (omega arith))
      | inr b ↦ rw b (elim (Bool-cases (ltb (tenths_of bytes (1024 * 1024 * 1024)) 10240)) [
        | inl c ↦ rw c (rounded refl (ground (arith, b)) (omega arith) (omega arith))
        | inr c ↦
            rw c (elim (Bool-cases (ltb (tenths_of bytes (1024 * 1024 * 1024 * 1024)) 10240)) [
              | inl d ↦ rw d (rounded refl (ground (arith, c)) (omega arith) (omega arith))
              | inr d ↦ rw d (rounded refl (ground (arith, d)) (omega arith) (omega arith))
            ])
      ])
    ])
  ])
]
