-- ===== src/Failure/Tries.antt =====
-- How often one request is tried, and how long its waits are.
use fetchloom.Base.{
  ℕ, suc, ◌+◌, ◌-◌, ◌*◌, ◌^◌, ◌≤◌, ◌<◌, ◌≡◌, refl, sym, ap, subst, ◌∙◌, Bool, true, false, ◌||◌,
  Option, none, some, min, arith, leb, if◌then◌else◌,
}
use fetchloom.Base.Text.{Text}
use fetchloom.Failure.{
  Kind, attempts, most_tries, longest_wait, limited_waits, gave_up, Retry, new, progressed, Answer,
  again, over, or_zero, backoff, try_after, wait, wait_limited,
}

over_again : {k : Kind} {n : ℕ} → over k ≡ again n → ⊥
over_again h = cc

-- The waits of a request, each of which another try follows: it may make progress in between.
pub data Trying (random : ℕ → ℕ) : ℕ → Retry → Type 0 where
  begun : Trying random 0 new
  moves : {n : ℕ} {r : Retry} → Trying random n r → Trying random n (progressed r)
  waits :
      {n : ℕ} {r : Retry}
      → Trying random n r
      → (reason : Text) (asked : Option ℕ) (stopped : Bool) (w : ℕ)
      → (wait random r reason asked stopped).1 ≡ again w
      → Trying random (suc n) (wait random r reason asked stopped).0
  waits_limited :
      {n : ℕ} {r : Retry}
      → Trying random n r
      → (reason : Text) (stopped : Bool) (w : ℕ)
      → (wait_limited random r reason stopped).1 ≡ again w
      → Trying random (suc n) (wait_limited random r reason stopped).0

module _ (random : ℕ → ℕ) where
  -- Every wait counts as a try or as one for a limit.
  record IsCounted (n : ℕ) (r : Retry) : Type 0 where
    counted : suc n ≡ r.tries + r.limited
    tries : r.tries ≤ most_tries
    limits : r.limited ≤ limited_waits

  try_after-again :
      (r : Retry) (stopped : Bool) (o : Option ℕ) (w : ℕ)
      → (try_after random r stopped o).1 ≡ again w
      → (o ≡ some w)
        × ((try_after random r stopped o).0
            ≡ record r { attempt = suc r.attempt; tries = suc r.tries })
  try_after-again r stopped none w h = absurd (over_again h)
  try_after-again r true (some x) w h = absurd (over_again h)
  try_after-again r false (some x) w h = (again_inj h, refl)
    where
      again_inj : {a b : ℕ} → again a ≡ again b → some a ≡ some b
      again_inj e = cc

  backoff-bounded :
      (attempt : ℕ) (asked : Option ℕ) (w : ℕ)
      → ((ceiling : ℕ) → random ceiling ≤ ceiling)
      → backoff random attempt asked ≡ some w
      → (or_zero asked ≤ w) × (w ≤ longest_wait)
  unfolding backoff
  backoff-bounded attempt none w share h =
      let c = share (min (2 ^ min (attempt - 1) 6 * 1_000_000_000) longest_wait) in
      ground (arith, c, h)
  backoff-bounded attempt (some a) w share h =
      let c = share (min (2 ^ min (attempt - 1) 6 * 1_000_000_000) longest_wait) in
      ground (arith, c, h)

  if_over :
      (r : Retry) (b : Bool) (x : Retry × Answer) (k : Kind) (w : ℕ)
      → (if b then (r, over k) else x).1 ≡ again w
      → (b ≡ false) × ((if b then (r, over k) else x) ≡ x)
  if_over r true x k w h = absurd (over_again h)
  if_over r false x k w h = (refl, refl)

  -- A wait that answers with another try.
  wait-again :
      (r : Retry) (reason : Text) (asked : Option ℕ) (stopped : Bool) (w : ℕ)
      → (wait random r reason asked stopped).1 ≡ again w
      → (r.tries < most_tries)
        × (backoff random r.attempt asked ≡ some w)
        × ((wait random r reason asked stopped).0
            ≡ record r { attempt = suc r.attempt; tries = suc r.tries })
  unfolding wait
  wait-again r reason asked stopped w h =
      let e = if_over r (leb attempts r.attempt || leb most_tries r.tries) _ (gave_up reason) w h in
      let t =
        try_after-again r stopped (backoff random r.attempt asked) w
          (ap (λ (x : Retry × Answer). x.1) (sym e.1) ∙ h) in
      (few _ e.0, t.0, ap (λ (x : Retry × Answer). x.0) e.1 ∙ t.1)
    where
      few : (b : Bool) → (b || leb most_tries r.tries) ≡ false → r.tries < most_tries
      few b x = ground (arith, x)

  wait-IsCounted :
      (n : ℕ) (r : Retry) (reason : Text) (asked : Option ℕ) (stopped : Bool) (w : ℕ)
      → IsCounted n r
      → (wait random r reason asked stopped).1 ≡ again w
      → IsCounted (suc n) (wait random r reason asked stopped).0
  wait-IsCounted n r reason asked stopped w i h =
      let t = wait-again r reason asked stopped w h in
      subst (IsCounted (suc n)) (sym t.2)
        (record { counted = omega (arith, i.counted); tries = t.0; limits = i.limits })

  wait_limited-IsCounted :
      (n : ℕ) (r : Retry) (reason : Text) (stopped : Bool) (w : ℕ)
      → IsCounted n r
      → (wait_limited random r reason stopped).1 ≡ again w
      → IsCounted (suc n) (wait_limited random r reason stopped).0
  unfolding wait_limited
  wait_limited-IsCounted n r reason stopped w i h = go (leb limited_waits r.limited) refl h
    where
      go :
          (b : Bool)
          → leb limited_waits r.limited ≡ b
          → (if b
              then wait random r reason none stopped
              else (record r { limited = suc r.limited }, again 0)).1
            ≡ again w
          → IsCounted
              (suc n)
              (if b
                then wait random r reason none stopped
                else (record r { limited = suc r.limited }, again 0)).0
      go true e h = wait-IsCounted n r reason none stopped w i h
      go false e h = record {
        counted = omega (arith, i.counted);
        tries = i.tries;
        limits = ground (arith, e);
      }

  Trying-IsCounted : {n : ℕ} {r : Retry} → Trying random n r → IsCounted n r
  Trying-IsCounted begun = record { counted = refl; tries = omega arith; limits = omega arith }
  Trying-IsCounted (moves run) =
      let i = Trying-IsCounted run in
      record { counted = i.counted; tries = i.tries; limits = i.limits }
  Trying-IsCounted (waits {n} {r} run reason asked stopped w h) =
      wait-IsCounted n r reason asked stopped w (Trying-IsCounted run) h
  Trying-IsCounted (waits_limited {n} {r} run reason stopped w h) =
      wait_limited-IsCounted n r reason stopped w (Trying-IsCounted run) h

  -- However often a request makes progress, at most 59 of its waits are followed by another try:
  -- it is tried 60 times at most.
  pub Trying-ends : {n : ℕ} {r : Retry} → Trying random n r → n ≤ 59
  Trying-ends run = let i = Trying-IsCounted run in omega (arith, i.counted, i.tries, i.limits)

  -- Where the random share of a ceiling is no more than the ceiling, a wait that another try follows
  -- is at least as long as the server asks for and at most a minute.
  pub wait-bounded :
      (r : Retry) (reason : Text) (asked : Option ℕ) (stopped : Bool) (w : ℕ)
      → ((ceiling : ℕ) → random ceiling ≤ ceiling)
      → (wait random r reason asked stopped).1 ≡ again w
      → (or_zero asked ≤ w) × (w ≤ longest_wait)
  wait-bounded r reason asked stopped w share h =
      backoff-bounded r.attempt asked w share (wait-again r reason asked stopped w h).1
