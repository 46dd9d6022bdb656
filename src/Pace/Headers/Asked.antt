-- ===== src/Pace/Headers/Asked.antt =====
-- What is known of a host's limits after its answer: no reset is beyond a day, and a 429 with a wait
-- says that a limit is used up for that long.
use fetchloom.Base.{
  ℕ, ◌≤◌, ◌≡◌, refl, sym, ap, subst, ◌∙◌, inl, inr, min, max, Bool, true, false, ◌||◌, List, [],
  ◌∷◌, map, Option, none, some, any, All, Some, arith, if◌then◌else◌, Bool-cases,
}
use fetchloom.Base.Text.{Text, codes}
use fetchloom.Pace.State.{Limit, used_up, later_of}
use fetchloom.Pace.Headers.{
  Headers, farthest, get, plain, structured, cons_some, is_used, use_up, refused_limits, cap,
  retry_after, clock_or, bind, limits,
}

abbrev pub IsUsedFor : ℕ → Limit → Type 0
IsUsedFor wait limit = (limit.remaining ≡ 0) × (wait ≤ limit.reset)

cap-All : (ls : List Limit) → All (λ l. l.reset ≤ farthest) (map cap ls)
cap-All [] = tt
cap-All (l ∷ ls) = (omega arith, cap-All ls)

later_of_lem :
    (wait reset : ℕ) (o : Option ℕ)
    → wait ≤ reset
    → (w : ℕ) × (later_of reset o ≡ some w) × (wait ≤ w)
later_of_lem wait reset none h = (reset, refl, h)
later_of_lem wait reset (some b) h = (max reset b, refl, omega (arith, h))

is_used_lem : (l : Limit) → l.remaining ≡ 0 → is_used l ≡ true
is_used_lem l h = ground (arith, h)

-- A limit that is used up for some time says so of the answer.
used_up-Some :
    (wait : ℕ) (ls : List Limit)
    → Some (IsUsedFor wait) ls
    → (w : ℕ) × (used_up ls ≡ some w) × (wait ≤ w)
unfolding used_up
used_up-Some wait [] h = absurd h
used_up-Some wait (l ∷ ls) (inl h) =
    let r = later_of_lem wait l.reset (used_up ls) h.1 in
    (
      r.0,
      ap (λ b. if b then later_of l.reset (used_up ls) else used_up ls) (is_used_lem l h.0) ∙ r.1,
      r.2,
    )
used_up-Some wait (l ∷ ls) (inr h) =
    let r = used_up-Some wait ls h in
    elim (Bool-cases (is_used l)) [
      | inl e ↦ (
        max l.reset r.0,
        ap (λ b. if b then later_of l.reset (used_up ls) else used_up ls) e
            ∙ ap (later_of l.reset) r.1,
        omega (arith, r.2),
      )
      | inr e ↦
          (r.0, ap (λ b. if b then later_of l.reset (used_up ls) else used_up ls) e ∙ r.1, r.2)
    ]

cap-Some :
    (wait : ℕ) (ls : List Limit)
    → Some (IsUsedFor wait) ls
    → Some (IsUsedFor (min wait farthest)) (map cap ls)
cap-Some wait [] h = h
cap-Some wait (l ∷ ls) (inl h) = inl (h.0, omega (arith, h.1))
cap-Some wait (l ∷ ls) (inr h) = inr (cap-Some wait ls h)

flagged :
    (asked : ℕ) (l : Limit) (b : Bool)
    → b ≡ true
    → IsUsedFor asked (if b then record l { remaining = 0; reset = max l.reset asked } else l)
flagged asked l true h = (refl, omega arith)
flagged asked l false h = absurd (not_flagged h)
  where
    not_flagged : false ≡ true → ⊥
    not_flagged x = cc

use_up-named :
    (asked : ℕ) (ls : List Limit)
    → any is_used ls ≡ true
    → Some (IsUsedFor asked) (map (use_up true (some asked)) ls)
use_up-named asked [] h = absurd (no_limit h)
  where
    no_limit : false ≡ true → ⊥
    no_limit x = cc
use_up-named asked (l ∷ ls) h = elim (Bool-cases (is_used l)) [
  | inl e ↦ inl (flagged asked l (is_used l) e)
  | inr e ↦ inr (use_up-named asked ls (rest (is_used l) e h))
]
  where
    rest : (b : Bool) → b ≡ false → (b || any is_used ls) ≡ true → any is_used ls ≡ true
    rest b e x = ground (arith, e, x)

refused_limits-Some :
    (asked : ℕ) (ls : List Limit) → Some (IsUsedFor asked) (refused_limits (some asked) ls)
unfolding refused_limits
refused_limits-Some asked [] = inl (refl, omega arith)
refused_limits-Some asked (l ∷ ls) = elim (Bool-cases (any is_used (l ∷ ls))) [
  | inl e ↦
      subst (λ b. Some (IsUsedFor asked) (map (use_up b (some asked)) (l ∷ ls))) (sym e)
        (use_up-named asked (l ∷ ls) e)
  | inr e ↦
      subst (λ b. Some (IsUsedFor asked) (map (use_up b (some asked)) (l ∷ ls))) (sym e)
        (inl (flagged asked l true refl))
]

module _ (http_date : Text → Option ℕ) where
  -- Whatever the headers say, no reset that is kept is more than a day away.
  limits-All :
      (status : ℕ) (headers : Headers) (now later : ℕ)
      → All (λ l. l.reset ≤ farthest) (limits http_date status headers now later)
  unfolding limits
  limits-All status headers now later = cap-All _

  -- After a 429 that asks for a wait, whatever else its headers say, the limits that are read of it
  -- are used up for that wait, or for a day when it is longer, and none of them for more than a day.
  pub limits-used_up :
      (headers : Headers) (now later asked : ℕ)
      → retry_after http_date headers later ≡ some asked
      → ((w : ℕ) × (used_up (limits http_date 429 headers now later) ≡ some w)
          × (min asked farthest ≤ w))
        × All (λ l. l.reset ≤ farthest) (limits http_date 429 headers now later)
  unfolding limits
  limits-used_up headers now later asked h = (
    used_up-Some (min asked farthest) _ (
        cap-Some asked _ (
          subst (λ o. Some (IsUsedFor asked) (refused_limits o stated)) (sym h)
            (refused_limits-Some asked stated))),
    limits-All 429 headers now later,
  )
    where
      stated : List Limit
      stated =
          cons_some (plain headers (clock_or now (bind (get (codes "date") headers) http_date)))
            (structured headers)
