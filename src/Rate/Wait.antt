-- ===== src/Rate/Wait.antt =====
-- How long `Rate::take` sleeps when the credit is short.
use native.Mathlib.Nat.{lt-div-mul-add, div-lt_iff_lt-mul}
use fetchloom.Base.{
  ℕ, ◌+◌, ◌-◌, ◌*◌, ◌≤◌, ◌<◌, ◌≡◌, refl, inl, inr, min, max, arith, leb, Bool-cases,
}
use fetchloom.Rate.Bucket.{
  nanos, u64_max, u128_max, Rate, Bucket, new_rate, refill, wait, div_ceil, portion, paid, slept,
  round,
}

div_ceil_lem : (n d : ℕ) → 0 < d → n ≤ div_ceil n d * d
div_ceil_lem n d h = omega (arith, lt-div-mul-add {a = n + (d - 1)} {b = d} h)

div_ceil-le : (n d k : ℕ) → 0 < d → n ≤ k * d → div_ceil n d ≤ k
div_ceil-le n d k h b =
    let short : n + (d - 1) < (k + 1) * d = omega (arith, b) in
    omega (arith, (div-lt_iff_lt-mul {k = d} {x = n + (d - 1)} {y = k + 1} h).1 short)

-- The time in which a new rate refills its bucket fits the 64 bits of a sleep.
div_ceil_fits : (p n : ℕ) → 0 < p → n ≤ max p 1_048_576 * nanos → div_ceil n p ≤ u64_max
div_ceil_fits p n h k = omega (arith, div_ceil-le n p (1_048_576 * nanos) h (omega arith))

mul_mono : (a b p : ℕ) → a ≤ b → a * p ≤ b * p
mul_mono a b p h = grind arith

-- A round that sleeps leaves less credit than it needs, and has read the clock.
slept_short :
    (r : Rate) (left now : ℕ) (b b' : Bucket)
    → round r left (refill r b now) ≡ slept b'
    → (b'.updated ≡ now) × (b'.credit < portion r left * nanos)
unfolding round refill
slept_short r left now b b' e = (ground (arith, e), ground (arith, e))

paid_enough :
    (r : Rate) (left : ℕ) (b : Bucket)
    → portion r left * nanos ≤ b.credit
    → (b' : Bucket) × (round r left b ≡ paid b')
unfolding round
paid_enough r left b h = elim (Bool-cases (leb (portion r left * nanos) b.credit)) [
  | inl t ↦ (record b { credit = b.credit - portion r left * nanos }, rw t refl)
  | inr t ↦ absurd (ground (arith, t))
]

refill_enough :
    (r : Rate) (needed now : ℕ) (b : Bucket)
    → needed ≤ r.capacity * nanos
    → r.capacity * nanos ≤ u128_max
    → needed ≤ b.credit + (now - b.updated) * r.per_second
    → needed ≤ (refill r b now).credit
unfolding refill
refill_enough r needed now b h k g = omega arith

module _ (p left now now' : ℕ) (b b' : Bucket) where
  abbrev rate : Rate
  rate = new_rate p

  -- With the credit that a round left short, the round after its sleep pays.
  pub round_after_wait :
      0 < p
      → p ≤ u64_max
      → round rate left (refill rate b now) ≡ slept b'
      → now + wait rate (portion rate left * nanos) b'.credit ≤ now'
      → (b'' : Bucket) × (round rate left (refill rate b' now') ≡ paid b'')
  unfolding new_rate wait
  round_after_wait h k e later =
      let needed = min left (max p 1_048_576) * nanos in
      let (at, short) = slept_short rate left now b b' e in
      let fits = div_ceil_fits p (needed - b'.credit) h (omega arith) in
      let slept_long : div_ceil (needed - b'.credit) p ≤ now' - b'.updated =
        omega (arith, later, at, fits) in
      paid_enough rate left (refill rate b' now') (
        refill_enough rate needed now' b' (omega arith) (omega arith) (
          omega (
            arith,
            div_ceil_lem (needed - b'.credit) p h,
            mul_mono (div_ceil (needed - b'.credit) p) (now' - b'.updated) p slept_long,
          )))
