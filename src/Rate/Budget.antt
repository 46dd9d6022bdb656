-- ===== src/Rate/Budget.antt =====
-- The bytes that `Rate::take` lets through, against the rate.
use fetchloom.Base.{
  ℕ, zero, suc, ◌+◌, ◌-◌, ◌*◌, ◌≤◌, ◌≡◌, refl, ap, inl, inr, ◌⊎◌, List, [], ◌∷◌, arith, leb, leb→le,
  Bool-cases,
}
use native.Mathlib.Nat.{sub_self}
use fetchloom.Rate.Bucket.{
  nanos, Rate, Bucket, refill, Reading, Outcome, granted, stopped, unread, portion, Round, paid,
  slept, round, take,
}

abbrev pub bucket_of : Outcome → Bucket
bucket_of (granted b) = b
bucket_of (stopped left b) = b
bucket_of (unread left b) = b

-- The bytes that were not let through.
abbrev pub rest_of : Outcome → ℕ
rest_of (granted b) = 0
rest_of (stopped left b) = left
rest_of (unread left b) = left

-- A clock that never runs backwards.
abbrev pub Forward : ℕ → List Reading → Type 0
Forward from [] = Unit
Forward from (t ∷ readings) = (from ≤ t.now) × Forward t.now readings

-- What is paid for by a bucket that becomes another: the bytes are covered by the credit that went
-- and by what the time in between is worth.
pub record Covers (r : Rate) (b b' : Bucket) (spent : ℕ) : Type 0 where
  pub no_earlier : b.updated ≤ b'.updated
  pub paid_for : spent * nanos + b'.credit ≤ b.credit + (b'.updated - b.updated) * r.per_second

elapsed_add : (a b c p : ℕ) → a ≤ b → b ≤ c → (b - a) * p + (c - b) * p ≡ (c - a) * p
elapsed_add a b c p h k =
    let e : (b - a) + (c - b) ≡ c - a = omega arith in omega (arith, ap (λ (t : ℕ). t * p) e)

Covers-then :
    (r : Rate) (a b c : Bucket) (m n k : ℕ)
    → m + n ≡ k
    → Covers r a b m
    → Covers r b c n
    → Covers r a c k
Covers-then r a b c m n k e x y = record {
  no_earlier = omega (arith, x.no_earlier, y.no_earlier);
  paid_for = omega (
    arith,
    ap (λ (t : ℕ). t * nanos) e,
    elapsed_add a.updated b.updated c.updated r.per_second x.no_earlier y.no_earlier,
    x.paid_for,
    y.paid_for,
  );
}

refill-Covers : (r : Rate) (b : Bucket) (now : ℕ) → b.updated ≤ now → Covers r b (refill r b now) 0
unfolding refill
refill-Covers r b now h = record { no_earlier = h; paid_for = omega arith }

abbrev RoundCovers : Rate → ℕ → Bucket → Round → Type 0
RoundCovers r left b (paid b') = Covers r b b' (portion r left)
RoundCovers r left b (slept b') = Covers r b b' 0

round-Covers : (r : Rate) (left : ℕ) (b : Bucket) → RoundCovers r left b (round r left b)
unfolding round
round-Covers r left b = elim (Bool-cases (leb (portion r left * nanos) b.credit)) [
  | inl t ↦ rw t (record {
    no_earlier = omega arith;
    paid_for = omega (arith, leb→le (portion r left * nanos) b.credit t);
  })
  | inr t ↦ rw t (record { no_earlier = omega arith; paid_for = omega arith })
]

-- A whole round, its refill included.
round_after_refill :
    (r : Rate) (left : ℕ) (b : Bucket) (now : ℕ)
    → b.updated ≤ now
    → RoundCovers r left b (round r left (refill r b now))
round_after_refill r left b now h =
    from (round r left (refill r b now)) (round-Covers r left (refill r b now))
  where
    from : (x : Round) → RoundCovers r left (refill r b now) x → RoundCovers r left b x
    from (paid b') c =
        Covers-then r b (refill r b now) b' 0 (portion r left) (portion r left) (omega arith)
          (refill-Covers r b now h) c
    from (slept b') c =
        Covers-then r b (refill r b now) b' 0 0 0 (omega arith) (refill-Covers r b now h) c

Round-cases : (x : Round) → ((b : Bucket) × (x ≡ paid b)) ⊎ ((b : Bucket) × (x ≡ slept b))
Round-cases (paid b) = inl (b, refl)
Round-cases (slept b) = inr (b, refl)

abbrev Spends : Rate → ℕ → Bucket → Outcome → Type 0
Spends r left b o = (rest_of o ≤ left) × Covers r b (bucket_of o) (left - rest_of o)

Covers-nothing : (r : Rate) (b : Bucket) → Covers r b b 0
Covers-nothing r b = record { no_earlier = omega arith; paid_for = omega arith }

updated_at :
    (r : Rate) (left : ℕ) (b : Bucket) (now : ℕ) (b' : Bucket)
    → (round r left (refill r b now) ≡ paid b') ⊎ (round r left (refill r b now) ≡ slept b')
    → b'.updated ≡ now
unfolding round refill
updated_at r left b now b' (inl e) = ground (arith, e)
updated_at r left b now b' (inr e) = ground (arith, e)

Spends-then :
    (r : Rate) (left n m : ℕ) (b b' : Bucket) (o : Outcome)
    → n + m ≡ left
    → Covers r b b' n
    → Spends r m b' o
    → Spends r left b o
Spends-then r left n m b b' o h c s = (
  omega (arith, s.0),
  Covers-then r b b' (bucket_of o) n (m - rest_of o) (left - rest_of o) (omega (arith, s.0)) c s.1,
)

take-Spends :
    (r : Rate) (readings : List Reading) (left : ℕ) (b : Bucket)
    → Forward b.updated readings
    → Spends r left b (take r readings left b)
unfolding take
take-Spends r [] zero b f = (omega arith, Covers-nothing r b)
take-Spends r [] (suc left) b f = (omega arith, rw sub_self (Covers-nothing r b))
take-Spends r (t ∷ readings) zero b f = (omega arith, Covers-nothing r b)
take-Spends r (t ∷ readings) (suc left) b f =
    elim (Round-cases (round r (suc left) (refill r b t.now))) [
      | inl (b', e) ↦
          let later : b'.updated ≡ t.now = updated_at r (suc left) b t.now b' (inl e) in
          rw (e, take)
            (Spends-then r (suc left) (portion r (suc left)) _ b b'
              (take r readings (suc left - portion r (suc left)) b') (omega arith)
              (rw e at (round_after_refill r (suc left) b t.now f.0))
              (take-Spends r readings (suc left - portion r (suc left)) b' (rw later f.1)))
      | inr (b', e) ↦
          let later : b'.updated ≡ t.now = updated_at r (suc left) b t.now b' (inr e) in
          let here = rw e at (round_after_refill r (suc left) b t.now f.0) in
          rw (e, take)
            (elim (Bool-cases t.stop) [
              | inl s ↦ rw (s, take) (omega arith, rw sub_self here)
              | inr s ↦
                  rw (s, take)
                    (Spends-then r (suc left) 0 (suc left) b b' (take r readings (suc left) b')
                      (omega arith) here (take-Spends r readings (suc left) b' (rw later f.1)))
            ])
    ]

-- A bucket holds no more than its capacity.
abbrev pub IsWithin : Rate → Bucket → Type 0
IsWithin r b = b.credit ≤ r.capacity * nanos

-- The responses take turns: each call of `take` runs under the lock, with readings of its own.
pub data Calls (r : Rate) (b : Bucket) : ℕ → Bucket → Type 0 where
  no_call : Calls r b 0 b
  then_call :
      {total : ℕ} {b' : Bucket} (readings : List Reading) (left : ℕ)
      → Calls r b total b'
      → Forward b'.updated readings
      → Calls r b
          (total + (left - rest_of (take r readings left b')))
          (bucket_of (take r readings left b'))

Calls-Covers : {r : Rate} {b b' : Bucket} {total : ℕ} → Calls r b total b' → Covers r b b' total
Calls-Covers {r} {b} no_call = Covers-nothing r b
Calls-Covers {r} {b} (then_call {total = total} {b' = b'} readings left c f) =
    Covers-then r b b' _ total _ _ refl (Calls-Covers c) (take-Spends r readings left b' f).1

-- However the responses take turns, from a bucket that holds at most its capacity they get no more
-- bytes than the capacity and what the time that passed is worth at the rate.
pub Calls-within_rate :
    {r : Rate} {b b' : Bucket} {total : ℕ}
    → IsWithin r b
    → Calls r b total b'
    → total * nanos ≤ r.capacity * nanos + (b'.updated - b.updated) * r.per_second
Calls-within_rate w c = let k = (Calls-Covers c).paid_for in omega arith
