-- ===== src/Rate/Tests.antt =====
-- src/net/rate.rs: runs of the bucket and of the parser, and the theorems at inputs.
use fetchloom.Base.{
  ◌+◌, ◌-◌, ◌*◌, ◌/◌, ◌^◌, ◌≤◌, ◌≡◌, refl, false, List, [], ◌∷◌, ◌++◌, none, some, arith, length,
}
use fetchloom.Base.Text.{codes, value_from}
use fetchloom.Rate.Bucket.{
  nanos, Rate, Bucket, new_rate, new_bucket, refill, wait, Reading, portion, paid, slept, round,
  take,
}
use fetchloom.Rate.Budget.{bucket_of, rest_of, Calls, no_call, then_call, Calls-within_rate}
use fetchloom.Rate.Wait.{round_after_wait}
use fetchloom.Rate.Parse.{power, parse, positive_u64}
use fetchloom.Rate.Decimal.{parse-decimal}

half_k : parse (codes "2.5M") ≡ some 2_621_440
unfolding parse
half_k = refl

no_dot_alone : parse (codes "2.") ≡ none
unfolding parse
no_dot_alone = refl

abbrev slow : Rate
slow = new_rate 1000

abbrev start : Bucket
start = new_bucket slow 0

abbrev one_reading : List Reading
one_reading = record { now = 5; stop = false } ∷ []

from_zero : start.updated ≤ 5
unfolding new_bucket
from_zero = omega arith

abbrev one_call :
    Calls slow start
      (0 + (700 - rest_of (take slow one_reading 700 start)))
      (bucket_of (take slow one_reading 700 start))
one_call = then_call one_reading 700 no_call (from_zero, tt)

full_start : start.credit ≤ slow.capacity * nanos
unfolding new_bucket
full_start = omega arith

Calls-within_rate_example :
    (0 + (700 - rest_of (take slow one_reading 700 start))) * nanos
    ≤ slow.capacity * nanos
      + ((bucket_of (take slow one_reading 700 start)).updated - start.updated) * slow.per_second
Calls-within_rate_example = Calls-within_rate full_start one_call

abbrev empty : Bucket
empty = record { credit = 0; updated = 0 }

short_round : round (new_rate 1000) 500 (refill (new_rate 1000) empty 0) ≡ slept empty
unfolding round refill new_rate
short_round = refl

wait_is : 0 + wait (new_rate 1000) (portion (new_rate 1000) 500 * nanos) 0 ≤ 500_000_000
unfolding wait new_rate
wait_is = omega arith

round_after_wait_example :
    (b : Bucket) × (round (new_rate 1000) 500 (refill (new_rate 1000) empty 500_000_000) ≡ paid b)
round_after_wait_example =
    round_after_wait 1000 500 0 500_000_000 empty empty (omega arith) (omega arith) short_round
      wait_is

unit_is : (power b'K') ≡ 1
unfolding power
unit_is = refl

parse-decimal_example :
    parse ((codes "2" ++ b'.' ∷ codes "5") ++ b'K' ∷ [])
    ≡ positive_u64 (
        (value_from 0 (codes "2") * 10 ^ length (codes "5") + value_from 0 (codes "5"))
        * 1024 ^ power b'K'
        / 10 ^ length (codes "5"))
unfolding value_from power
parse-decimal_example =
    parse-decimal (codes "2") (codes "5") b'K' refl refl refl (omega arith) (omega arith)
      (omega arith) (omega arith) (omega arith)
