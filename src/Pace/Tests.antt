-- ===== src/Pace/Tests.antt =====
-- src/net/pace.rs: runs of the pace of one host, and the theorems at inputs.
use fetchloom.Base.{
  ◌-◌, ◌*◌, ◌≤◌, ◌<◌, ◌≡◌, refl, true, false, [], ◌∷◌, none, some, arith, All, ◌+◌, List, Option, ℕ,
  min, max, if◌then◌else◌,
}
use fetchloom.Base.Text.{codes, text_eq}
use fetchloom.Pace.State.{
  second, used_up, Limit, Known, Pace, Hold, ticket, hold, fresh_pace, known_of, admit, heard,
  learn, merge,
}
use fetchloom.Pace.Headers.{Headers, farthest, limits, retry_after}
use fetchloom.Pace.Headers.Listed.{listed}
use fetchloom.Pace.Headers.Asked.{limits-used_up}
use fetchloom.Pace.Learn.{lookup, merge_comm}
use fetchloom.Pace.Burst.{Leaves, begun, asks, waits, Burst-within_limit}
use fetchloom.Pace.Windows.{Stated, learned, Tells, learned-Tells}
use fetchloom.Pace.Admit.{Means, admit-Means}
use fetchloom.Pace.Tickets.{
  Flight, nothing_sent, let_in, answered, Flight-pending, no_time, hold-told_once,
}

abbrev one_left : Limit
one_left = record {
  name = [];
  quota = some 60;
  window = none;
  remaining = 0;
  reset = 10 * second;
  stamp = none;
}

abbrev used : Pace
used = heard (admit fresh_pace 0).0 (one_left ∷ []) 0

abbrev wait_ten : Hold
wait_ten = record { until = 10 * second; quota = some 60; window = none; announce = true }

held_back : (admit used 5).1 ≡ hold wait_ten
unfolding admit heard
held_back = refl

told_once : (admit (admit used 5).0 6).1 ≡ hold (record wait_ten { announce = false })
unfolding admit heard
told_once = refl

after_reset : (admit used (10 * second)).1 ≡ ticket
unfolding admit heard
after_reset = refl

admit-Means_example : Means used 5 (admit used 5).1
admit-Means_example = admit-Means used 5

abbrev stated : ℕ → ℕ → ℕ → Known
stated n r s = record { quota = none; window = none; remaining = n; reset = r; stamp = some s }

merge_comm_example :
    ((merge (merge (stated 5 10 1) (stated 3 12 1)) (stated 9 20 2)).remaining
      ≡ (merge (merge (stated 5 10 1) (stated 9 20 2)) (stated 3 12 1)).remaining)
    × ((merge (merge (stated 5 10 1) (stated 3 12 1)) (stated 9 20 2)).reset
        ≡ (merge (merge (stated 5 10 1) (stated 9 20 2)) (stated 3 12 1)).reset)
    × ((merge (merge (stated 5 10 1) (stated 3 12 1)) (stated 9 20 2)).stamp
        ≡ (merge (merge (stated 5 10 1) (stated 9 20 2)) (stated 3 12 1)).stamp)
merge_comm_example = merge_comm (stated 5 10 1) (stated 3 12 1) (stated 9 20 2) 1 1 2 refl refl refl

first_let_in : (admit fresh_pace 0).1 ≡ ticket
unfolding admit
first_let_in = refl

abbrev one_sent : Flight 1 (admit fresh_pace 0).0
one_sent = let_in 0 nothing_sent first_let_in

Flight-pending_example : (admit fresh_pace 0).0.pending ≡ 1
Flight-pending_example = Flight-pending one_sent

second_let_in : (admit (admit fresh_pace 0).0 3).1 ≡ ticket
unfolding admit
second_let_in = refl

-- An answer leaves two requests; two are let in, and a third waits.
abbrev two_left : Limit
two_left = record one_left { remaining = 2 }

abbrev opened : Pace
opened = heard (admit fresh_pace 0).0 (two_left ∷ []) 0

abbrev opened_flight : Flight 0 opened
opened_flight = answered (two_left ∷ []) 0 one_sent

abbrev one_asked : Pace
one_asked = (admit opened 1).0

abbrev two_asked : Pace
two_asked = (admit one_asked 2).0

opened-Leaves : Leaves [] 2 1 opened
unfolding admit heard text_eq lookup
opened-Leaves = record {
  known = known_of two_left 0;
  is_known = refl;
  at_most = omega arith;
  live = omega arith;
  near = omega arith;
}

one_asked-Leaves : Leaves [] 2 2 one_asked
unfolding admit heard text_eq lookup
one_asked-Leaves = record {
  known = known_of two_left 0;
  is_known = refl;
  at_most = omega arith;
  live = omega arith;
  near = omega arith;
}

two_asked-Leaves : Leaves [] 2 3 two_asked
unfolding admit heard text_eq lookup
two_asked-Leaves = record {
  known = known_of two_left 0;
  is_known = refl;
  at_most = omega arith;
  live = omega arith;
  near = omega arith;
}

one_in : (admit opened 1).1 ≡ ticket
unfolding admit heard
one_in = refl

two_in : (admit one_asked 2).1 ≡ ticket
unfolding admit heard
two_in = refl

third_waits : (admit two_asked 3).1 ≡ hold wait_ten
unfolding admit heard
third_waits = refl

Burst-within_limit_example : 2 ≤ max 0 2
Burst-within_limit_example = Burst-within_limit opened_flight (
    waits 3 wait_ten (asks 2 (asks 1 begun opened-Leaves one_in) one_asked-Leaves two_in)
      two_asked-Leaves third_waits)

-- Three statements of one limit, of which two are of the later window.
abbrev statement : ℕ → ℕ → ℕ → Stated
statement n at ends = record {
  limit = record one_left { remaining = n; stamp = some ends };
  at = at;
  ends = ends;
  stamp_is = refl;
}

abbrev statements : List Stated
statements = statement 7 9 2 ∷ statement 4 5 2 ∷ statement 1 3 1 ∷ []

latest_left :
    lookup [] (learned statements).limits
    ≡ some (record {
      quota = some 60;
      window = none;
      remaining = 4;
      reset = 9 + 10 * second;
      stamp = some 2;
    })
unfolding learned learn lookup text_eq
latest_left = refl

learned-Tells_example : Tells [] statements (lookup [] (learned statements).limits)
learned-Tells_example = learned-Tells [] statements

hold-told_once_example : (record wait_ten { announce = false }).announce ≡ false
hold-told_once_example =
    hold-told_once used (admit used 5).0 5 6 wait_ten (record wait_ten { announce = false })
      held_back no_time told_once (omega arith)

-- The headers of hugging face when its limit is used up; no text is a date.
abbrev no_date : fetchloom.Base.Text.Text → Option ℕ
no_date value = none

abbrev hub : Headers
hub = listed (
    (codes "ratelimit", some (codes "\"api\";r=0;t=9"))
    ∷ (codes "ratelimit-policy", some (codes "\"fixed window\";\"api\";q=500;w=300"))
    ∷ (codes "retry-after", some (codes "30"))
    ∷ [])

asks_thirty : retry_after no_date hub 0 ≡ some (30 * second)
unfolding retry_after listed text_eq fetchloom.Base.Text.trim fetchloom.Base.Text.value_from
asks_thirty = refl

hub_limits :
    limits no_date 429 hub 0 0
    ≡ record {
      name = codes "api";
      quota = some 500;
      window = some (300 * second);
      remaining = 0;
      reset = 30 * second;
      stamp = none;
    }
      ∷ []
unfolding limits listed text_eq fetchloom.Base.Text.trim fetchloom.Base.Text.value_from
    fetchloom.Base.Text.split fetchloom.Base.Text.split_once
hub_limits = refl

limits-used_up_example :
    ((w : ℕ) × (used_up (limits no_date 429 hub 0 0) ≡ some w) × (min (30 * second) farthest ≤ w))
    × All (λ l. l.reset ≤ farthest) (limits no_date 429 hub 0 0)
limits-used_up_example = limits-used_up no_date hub 0 0 (30 * second) asks_thirty
