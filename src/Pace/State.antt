-- ===== src/Pace/State.antt =====
-- src/net/pace.rs: `Limit`, `Known`, `Pace`, `Hold`, and the operations `admit`, `learn` and
-- `heard` on the pace of one host. Instants and durations are numbers of nanoseconds. The map of
-- limits by name is an association list; among limits that reset at one instant the code takes
-- whichever its map yields last, and the model the last of the list.
use fetchloom.Base.{
  ℕ, ◌+◌, ◌-◌, min, max, Bool, true, ◌&&◌, List, [], ◌∷◌, Option, none, some, ltb, leb, ◌==◌,
  if◌then◌else◌,
}
use fetchloom.Base.Text.{Text, text_eq}

abbrev pub second : ℕ
second = 1_000_000_000

abbrev pub longest : ℕ
longest = 120_000_000_000

abbrev pub same_window : ℕ
same_window = 1_500_000_000

abbrev pub quiet : ℕ
quiet = 10_000_000_000

pub record Limit : Type 0 where
  pub name : Text
  pub quota : Option ℕ
  pub window : Option ℕ
  pub remaining : ℕ
  pub reset : ℕ
  pub stamp : Option ℕ

pub record Known : Type 0 where
  pub quota : Option ℕ
  pub window : Option ℕ
  pub remaining : ℕ
  pub reset : ℕ
  pub stamp : Option ℕ

pub record Pace : Type 0 where
  pub limits : List (Text × Known)
  pub pending : ℕ
  pub announced : Option ℕ

pub record Hold : Type 0 where
  pub until : ℕ
  pub quota : Option ℕ
  pub window : Option ℕ
  pub announce : Bool

-- `Result<Ticket, Hold>`.
pub data Answer : Type 0 where
  ticket : Answer
  hold : Hold → Answer

-- `Pace::default()`.
abbrev pub fresh_pace : Pace
fresh_pace = record { limits = []; pending = 0; announced = none }

-- `used_up`: how long until every limit an answer says is used up resets.
abbrev pub later_of : ℕ → Option ℕ → Option ℕ
later_of a none = some a
later_of a (some b) = some (max a b)

unfoldable pub used_up : List Limit → Option ℕ
used_up [] = none
used_up (l ∷ limits) =
    if l.remaining == 0 then later_of l.reset (used_up limits) else used_up limits

-- `retain`.
unfoldable pub retain : ℕ → List (Text × Known) → List (Text × Known)
retain now [] = []
retain now ((n, k) ∷ limits) =
    if ltb now k.reset then (n, k) ∷ retain now limits else retain now limits

abbrev pub blocks : ℕ → ℕ → Known → Bool
blocks now pending k = leb k.remaining pending && leb (k.reset - now) longest

abbrev pub later_known : Known → Option Known → Option Known
later_known k none = some k
later_known k (some best) = if leb best.reset k.reset then some k else some best

-- `filter` and `max_by_key`.
unfoldable pub blocking_from : ℕ → ℕ → List (Text × Known) → Option Known → Option Known
blocking_from now pending [] best = best
blocking_from now pending ((n, k) ∷ limits) best =
    blocking_from now pending limits (if blocks now pending k then later_known k best else best)

abbrev pub tells : Option ℕ → ℕ → Bool
tells none reset = true
tells (some announced) reset = ltb (announced + quiet) reset

unfoldable pub admit_or_hold : Pace → Option Known → Pace × Answer
admit_or_hold p none = (record p { pending = p.pending + 1 }, ticket)
admit_or_hold p (some k) = (
  if tells p.announced k.reset then record p { announced = some k.reset } else p,
  hold (record {
    until = k.reset;
    quota = k.quota;
    window = k.window;
    announce = tells p.announced k.reset;
  }),
)

-- `Paces::admit`, on the pace of the host.
unfoldable pub admit : Pace → ℕ → Pace × Answer
unfolding retain blocking_from admit_or_hold
admit p now =
    let kept : Pace = record p { limits = retain now p.limits } in
    admit_or_hold kept (blocking_from now p.pending kept.limits none)

pub data Order : Type 0 where
  greater equal less : Order

-- How the window of an answer stands to the one that is known.
abbrev pub by_reset : Known → Known → Order
by_reset known fresh =
    if ltb (known.reset + same_window) fresh.reset
    then greater
    else if ltb (fresh.reset + same_window) known.reset
    then less
    else equal

abbrev pub by_stamp : ℕ → ℕ → Order
by_stamp old new = if ltb old new then greater else if old == new then equal else less

unfoldable pub window_order : Known → Known → Order
window_order known fresh = elim known.stamp [
  | none ↦ by_reset known fresh
  | some old ↦ elim fresh.stamp [ none ↦ by_reset known fresh | some new ↦ by_stamp old new ]
]

-- `Option::or`.
abbrev pub or_else {ℓ} : {A : Type ℓ} → Option A → Option A → Option A
or_else none b = b
or_else (some a) b = some a

unfoldable pub merge_by : Order → Known → Known → Known
merge_by greater known fresh = fresh
merge_by equal known fresh = record known {
  remaining = min known.remaining fresh.remaining;
  reset = max known.reset fresh.reset;
  quota = or_else fresh.quota known.quota;
  window = or_else fresh.window known.window;
}
merge_by less known fresh = known

unfoldable pub merge : Known → Known → Known
unfolding merge_by window_order
merge known fresh = merge_by (window_order known fresh) known fresh

abbrev pub known_of : Limit → ℕ → Known
known_of l at = record {
  quota = l.quota;
  window = l.window;
  remaining = l.remaining;
  reset = at + l.reset;
  stamp = l.stamp;
}

unfoldable pub learn_in : List (Text × Known) → Text → Known → List (Text × Known)
unfolding text_eq
learn_in [] name fresh = (name, fresh) ∷ []
learn_in ((n, k) ∷ limits) name fresh =
    if text_eq n name then (n, merge k fresh) ∷ limits else (n, k) ∷ learn_in limits name fresh

-- `Pace::learn`.
unfoldable pub learn : Pace → Limit → ℕ → Pace
unfolding learn_in merge
learn p l at = record p { limits = learn_in p.limits l.name (known_of l at) }

unfoldable pub learn_all : Pace → List Limit → ℕ → Pace
unfolding learn
learn_all p [] at = p
learn_all p (l ∷ limits) at = learn_all (learn p l at) limits at

-- A ticket that is dropped: its request failed, or was never sent.
unfoldable pub drop_ticket : Pace → Pace
drop_ticket p = record p { pending = p.pending - 1 }

-- `Paces::heard`: the answer to the ticket's request came.
unfoldable pub heard : Pace → List Limit → ℕ → Pace
unfolding drop_ticket learn_all
heard p limits at = learn_all (drop_ticket p) limits at
