-- ===== src/Failure.antt =====
-- src/net/failure.rs: which failures of a request are tried again, how often, and after how long,
-- with the loop of `get` in src/net/api.rs.
-- Durations are numbers of nanoseconds. The share of a ceiling that the random number of `backoff`
-- gives is a parameter; an error is its kind.
pub mod Tries
pub mod Answers
pub mod TooLong
pub mod Tests
use fetchloom.Base.{
  ℕ, suc, ◌+◌, ◌-◌, ◌*◌, ◌^◌, min, max, Bool, true, false, ◌&&◌, ◌||◌, List, [], ◌∷◌, ◌++◌, Option,
  none, some, ltb, leb, ◌==◌, any, all, if◌then◌else◌,
}
use fetchloom.Base.Text.{Text, codes, is_digit, value_from}
use fetchloom.Plan.Paths.{strip_prefix}
use fetchloom.Lock.Format.{decimal}
use fetchloom.Pace.State.{longest, used_up}
use fetchloom.Pace.Headers.{Headers, limits, retry_after}

abbrev pub attempts : ℕ
attempts = 5

abbrev pub most_tries : ℕ
most_tries = 50

abbrev pub longest_wait : ℕ
longest_wait = 60_000_000_000

abbrev pub limited_waits : ℕ
limited_waits = 10

pub data Kind : Type 0 where
  network_rate_limited : Kind
  network_status : Kind
  network_unreachable : Kind
  interrupted : Kind
  reference_unresolved : Kind
  auth_required : Kind

pub data Failure : Type 0 where
  final : Kind → Failure
  transient : Text → Option ℕ → Failure
  limited : Text → Failure

-- `is_transient`.
unfoldable pub is_transient : ℕ → Bool
is_transient status = any (λ s. status == s) (408 ∷ 425 ∷ 429 ∷ 500 ∷ 502 ∷ 503 ∷ 504 ∷ [])

abbrev pub is_soon : Option ℕ → Bool
is_soon none = false
is_soon (some wait) = leb wait longest

abbrev pub or_else : Option ℕ → Option ℕ → Option ℕ
or_else none o = o
or_else (some wait) o = some wait

abbrev pub final_kind : ℕ → Kind
final_kind status =
    if status == 404 || status == 410
    then reference_unresolved
    else if status == 401 || status == 403
    then auth_required
    else network_status

abbrev pub own_or : Option Kind → Kind → Kind
own_or none kind = kind
own_or (some own) kind = own

-- The reason of a status that may pass.
unfoldable pub reason_of : Text → ℕ → Text
unfolding decimal
reason_of host status = host ++ (codes " answered " ++ decimal status)

-- `refusal`: `used_up` is how long until the limits that the answer names reset, `retry_after` what
-- it asks for, and `own` the error that the dataset's host has for a download it refuses.
unfoldable pub refusal : Text → ℕ → Option ℕ → Option ℕ → Option Kind → Failure
unfolding is_transient reason_of
refusal host status used_up retry_after own =
    if is_transient status
    then if status == 429
      then if is_soon used_up
        then limited (reason_of host status)
        else transient (reason_of host status) (or_else used_up retry_after)
      else transient (reason_of host status) retry_after
    else if status == 403
    then final (own_or own (final_kind status))
    else final (final_kind status)

-- `rsplit_once` on a text: what stands behind its last occurrence.
unfoldable pub after_last : Text → Text → Option Text
unfolding strip_prefix
after_last p [] = strip_prefix p []
after_last p (c ∷ s) =
    let later = after_last p s in elim later [ some t ↦ some t | none ↦ strip_prefix p (c ∷ s) ]

abbrev pub digits_u16 : Text → Option ℕ
digits_u16 [] = none
digits_u16 (c ∷ s) =
    if all is_digit (c ∷ s) && leb (value_from 0 (c ∷ s)) 0xffff
    then some (value_from 0 (c ∷ s))
    else none

-- `parse::<u16>`, which takes a plus sign.
unfoldable pub parse_u16 : Text → Option ℕ
unfolding value_from
parse_u16 [] = none
parse_u16 (c ∷ s) = if c == b'+' then digits_u16 s else digits_u16 (c ∷ s)

abbrev pub parse_after : Option Text → Option ℕ
parse_after none = none
parse_after (some code) = parse_u16 code

abbrev pub kind_of : Option ℕ → Kind
kind_of none = network_unreachable
kind_of (some status) =
    if status == 429
    then network_rate_limited
    else if leb 500 status && leb status 599
    then network_status
    else network_unreachable

-- `gave_up`.
unfoldable pub gave_up : Text → Kind
unfolding after_last parse_u16
gave_up reason = kind_of (parse_after (after_last (codes "answered ") reason))

pub record Retry : Type 0 where
  pub attempt : ℕ
  pub tries : ℕ
  pub limited : ℕ

abbrev pub new : Retry
new = record { attempt = 1; tries = 1; limited = 0 }

-- `progressed`.
abbrev pub progressed : Retry → Retry
progressed r = record r { attempt = 1 }

-- What a wait answers: that there is another try after so long, or the error.
pub data Answer : Type 0 where
  again : ℕ → Answer
  over : Kind → Answer

abbrev pub or_zero : Option ℕ → ℕ
or_zero none = 0
or_zero (some n) = n

abbrev pub too_long : Option ℕ → Bool
too_long none = false
too_long (some asked) = ltb longest_wait asked

module _ (random : ℕ → ℕ) where
  -- `backoff`: none when the server asks for more than a minute.
  unfoldable pub backoff : ℕ → Option ℕ → Option ℕ
  backoff attempt asked =
      if too_long asked
      then none
      else some (
          max (random (min (2 ^ min (attempt - 1) 6 * 1_000_000_000) longest_wait)) (or_zero asked))

  abbrev pub try_after : Retry → Bool → Option ℕ → Retry × Answer
  try_after r stopped none = (r, over network_rate_limited)
  try_after r stopped (some wait) = (
    record r { attempt = suc r.attempt; tries = suc r.tries },
    if stopped then over interrupted else again wait,
  )

  -- `wait`.
  unfoldable pub wait : Retry → Text → Option ℕ → Bool → Retry × Answer
  unfolding gave_up backoff
  wait r reason asked stopped =
      if leb attempts r.attempt || leb most_tries r.tries
      then (r, over (gave_up reason))
      else try_after r stopped (backoff r.attempt asked)

  -- `limited`: the next try waits for the limit to reset, before it is sent.
  unfoldable pub wait_limited : Retry → Text → Bool → Retry × Answer
  unfolding wait
  wait_limited r reason stopped =
      if leb limited_waits r.limited
      then wait r reason none stopped
      else (record r { limited = suc r.limited }, again 0)

  -- What the loop of `get` in src/net/api.rs does with a failure.
  unfoldable pub handle : Retry → Failure → Bool → Retry × Answer
  unfolding wait wait_limited
  handle r (final kind) stopped = (r, over kind)
  handle r (transient reason retry_after) stopped = wait r reason retry_after stopped
  handle r (limited reason) stopped = wait_limited r reason stopped

-- `refusal` of an answer with these headers: it reads the clock at `now`, and then for each wait.
unfoldable pub refused_answer :
    (Text → Option ℕ) → Text → ℕ → Headers → ℕ × ℕ × ℕ → Option Kind → Failure
unfolding refusal used_up limits retry_after
refused_answer http_date host status headers (now, later, last) own =
    refusal host status (used_up (limits http_date status headers now later))
      (retry_after http_date headers last) own
