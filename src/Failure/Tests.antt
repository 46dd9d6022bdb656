-- ===== src/Failure/Tests.antt =====
-- Tests of failures, and the witnesses of their theorems.
use fetchloom.Base.{
  ◌≢◌, ◌<◌, ◌⊎◌, [], Option, ◌*◌, ◌∷◌, ℕ, ◌≤◌, ◌≡◌, refl, false, none, some, arith, inl, ◌/◌,
}
use fetchloom.Base.Text.{Text, codes}
use fetchloom.Pace.State.{second}
use fetchloom.Pace.Headers.{Headers, retry_after}
use fetchloom.Failure.TooLong.{handle-refused_answer}
use fetchloom.Pace.Headers.Listed.{listed}
use fetchloom.Failure.{
  network_rate_limited, over, handle, refused_answer, new, again, wait, or_zero, longest_wait,
  gave_up, reason_of, refusal, transient,
}
use fetchloom.Failure.Tries.{begun, moves, waits, Trying-ends, wait-bounded}
use fetchloom.Failure.Answers.{IsKindFor, gave_up-refusal}

abbrev half : ℕ → ℕ
half n = n / 2

half_le : (n : ℕ) → half n ≤ n
half_le n = omega arith

first_wait : (wait half new (codes "x") (some 3_000_000_000) false).1 ≡ again 3_000_000_000
unfolding wait
first_wait = refl

Trying-ends_example : 1 ≤ 59
Trying-ends_example =
    Trying-ends half
      (moves (waits begun (codes "x") (some 3_000_000_000) false 3_000_000_000 first_wait))

wait-bounded_example :
    (or_zero (some 3_000_000_000) ≤ 3_000_000_000) × (3_000_000_000 ≤ longest_wait)
wait-bounded_example =
    wait-bounded half new (codes "x") (some 3_000_000_000) false 3_000_000_000 half_le first_wait

refused_503 :
    refusal (codes "zenodo.org") 503 none (some 7) none
    ≡ transient (reason_of (codes "zenodo.org") 503) (some 7)
unfolding refusal
refused_503 = refl

gave_up-refusal_example : IsKindFor 503 (gave_up (reason_of (codes "zenodo.org") 503))
gave_up-refusal_example =
    gave_up-refusal (codes "zenodo.org") 503 none (some 7) none (reason_of (codes "zenodo.org") 503)
      (some 7) (inl refused_503)

-- A host that asks for five minutes.
abbrev no_date : Text → Option ℕ
no_date value = none

abbrev busy : Headers
busy = listed ((codes "retry-after", some (codes "300")) ∷ [])

asks_long : retry_after no_date busy 0 ≡ some (300 * second)
unfolding listed retry_after fetchloom.Base.Text.text_eq fetchloom.Base.Text.trim
    fetchloom.Base.Text.value_from
asks_long = refl

handle-refused_answer_example :
    (handle half new (refused_answer no_date (codes "zenodo.org") 429 busy (0, 0, 0) none) false).1
    ≡ over network_rate_limited
handle-refused_answer_example =
    handle-refused_answer half no_date (codes "zenodo.org") busy 0 0 0 (300 * second) none new false
      asks_long (omega arith)
