-- ===== src/Rate/Bucket.antt =====
-- src/net/rate.rs: `Rate`, `Bucket`, and the loop of `Rate::take`. Instants are numbers of
-- nanoseconds. The clock, and whether the person asks to stop during a sleep, are the readings of
-- the environment, one for each round of the loop.
use fetchloom.Base.{
  ℕ, zero, suc, ◌+◌, ◌-◌, ◌*◌, ◌/◌, min, max, Bool, true, false, List, [], ◌∷◌, leb, if◌then◌else◌,
}

abbrev pub nanos : ℕ
nanos = 1_000_000_000

abbrev pub u64_max : ℕ
u64_max = 0xffff_ffff_ffff_ffff

abbrev pub u128_max : ℕ
u128_max = 0xffff_ffff_ffff_ffff_ffff_ffff_ffff_ffff

pub record Rate : Type 0 where
  pub per_second : ℕ
  pub capacity : ℕ

-- `credit` counts byte-nanoseconds.
pub record Bucket : Type 0 where
  pub credit : ℕ
  pub updated : ℕ

unfoldable pub new_rate : ℕ → Rate
new_rate per_second = record { per_second = per_second; capacity = max per_second (1024 * 1024) }

unfoldable pub new_bucket : Rate → ℕ → Bucket
new_bucket r now = record { credit = r.capacity * nanos; updated = now }

-- `saturating_mul` and `saturating_add` of a `u128`.
abbrev pub saturating : ℕ → ℕ
saturating n = min n u128_max

-- The first half of a round: the credit grows with the time, up to the capacity.
unfoldable pub refill : Rate → Bucket → ℕ → Bucket
refill r b now = record {
  credit =
      min (saturating (b.credit + saturating ((now - b.updated) * r.per_second)))
        (r.capacity * nanos);
  updated = now;
}

-- `div_ceil`, for a positive divisor.
abbrev pub div_ceil : ℕ → ℕ → ℕ
div_ceil n d = (n + (d - 1)) / d

-- How long a round sleeps when the credit is short.
unfoldable pub wait : Rate → ℕ → ℕ → ℕ
wait r needed credit = min (div_ceil (needed - credit) r.per_second) u64_max

-- One reading: the clock at the start of a round, and whether a stop is asked for while it sleeps.
pub record Reading : Type 0 where
  pub now : ℕ
  pub stop : Bool

-- `granted` is the result true and `stopped` false, with the bytes that were not paid for. `unread`
-- is no result of the code: the readings ran out in the middle.
pub data Outcome : Type 0 where
  granted : Bucket → Outcome
  stopped : ℕ → Bucket → Outcome
  unread : ℕ → Bucket → Outcome

abbrev pub portion : Rate → ℕ → ℕ
portion r left = min left r.capacity

-- What a round does with its refilled bucket: pay for a portion, or sleep.
pub data Round : Type 0 where
  paid : Bucket → Round
  slept : Bucket → Round

unfoldable pub round : Rate → ℕ → Bucket → Round
round r left b =
    if leb (portion r left * nanos) b.credit
    then paid (record b { credit = b.credit - portion r left * nanos })
    else slept b

abbrev pub is_zero : ℕ → Bool
is_zero zero = true
is_zero (suc n) = false

unfoldable pub take : Rate → List Reading → ℕ → Bucket → Outcome
unfolding refill round
take r [] left b = if is_zero left then granted b else unread left b
take r (t ∷ readings) left b = elim (is_zero left) [
  | true ↦ granted b
  | false ↦ elim (round r left (refill r b t.now)) [
    | paid b' ↦ take r readings (left - portion r left) b'
    | slept b' ↦ elim t.stop [ true ↦ stopped left b' | false ↦ take r readings left b' ]
  ]
]
