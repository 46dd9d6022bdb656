-- ===== src/Pace/Burst.antt =====
-- Requests that ask while a limit of the host is known.
use fetchloom.Base.{
  ℕ, suc, ◌-◌, ◌≤◌, ◌<◌, ◌≡◌, ap, sym, subst, leb, if◌then◌else◌, inl, inr, ◌∙◌, List, [], ◌∷◌,
  some, max, arith, All, Bool-cases, some_inj, none-some,
}
use fetchloom.Base.Text.{Text, text_eq}
use fetchloom.Pace.State.{
  longest, Limit, Known, Pace, Hold, ticket, hold, admit, drop_ticket, heard,
}
use fetchloom.Pace.Admit.{Holds, admit-Means}
use fetchloom.Pace.Learn.{lookup}
use fetchloom.Pace.Tickets.{Flight, let_in, held, answered, lost, Flight-pending}

-- The limit `name` leaves at most `r` requests, until an instant that is waited for.
pub record Leaves (name : Text) (r now : ℕ) (p : Pace) : Type 0 where
  pub known : Known
  pub is_known : lookup name p.limits ≡ some known
  pub at_most : known.remaining ≤ r
  pub live : now < known.reset
  pub near : known.reset - now ≤ longest

-- What happens to a pace with `m` requests under way, after which there are `n`: whenever a request
-- asks, the limit `name` is known to leave at most `r`.
pub data Burst (name : Text) (r m : ℕ) (p : Pace) : ℕ → Pace → Type 0 where
  begun : Burst name r m p m p
  asks :
      {n : ℕ} {q : Pace} (now : ℕ)
      → Burst name r m p n q
      → Leaves name r now q
      → (admit q now).1 ≡ ticket
      → Burst name r m p (suc n) (admit q now).0
  waits :
      {n : ℕ} {q : Pace} (now : ℕ) (h : Hold)
      → Burst name r m p n q
      → Leaves name r now q
      → (admit q now).1 ≡ hold h
      → Burst name r m p n (admit q now).0
  hears :
      {n : ℕ} {q : Pace} (limits : List Limit) (at : ℕ)
      → Burst name r m p (suc n) q
      → Burst name r m p n (heard q limits at)
  loses : {n : ℕ} {q : Pace} → Burst name r m p (suc n) q → Burst name r m p n (drop_ticket q)

Burst-Flight :
    {name : Text} {r m : ℕ} {p : Pace} {n : ℕ} {q : Pace}
    → Flight m p
    → Burst name r m p n q
    → Flight n q
Burst-Flight f begun = f
Burst-Flight f (asks now b l e) = let_in now (Burst-Flight f b) e
Burst-Flight f (waits now h b l e) = held now h (Burst-Flight f b) e
Burst-Flight f (hears limits at b) = answered limits at (Burst-Flight f b)
Burst-Flight f (loses b) = lost (Burst-Flight f b)

-- A limit that is known does not hold requests back where none does.
leaves_more :
    (now pending : ℕ) (name : Text) (k : Known) (ls : List (Text × Known))
    → lookup name ls ≡ some k
    → now < k.reset
    → k.reset - now ≤ longest
    → All (λ l. ¬ Holds now pending l) ls
    → pending < k.remaining
unfolding lookup
leaves_more now pending name k [] e live near a = absurd (none-some e)
leaves_more now pending name k ((other, k') ∷ ls) e live near a =
    elim (Bool-cases (text_eq other name)) [
      | inl t ↦ free (some_inj (ap (λ b. if b then some k' else lookup name ls) (sym t) ∙ e))
      | inr t ↦
          leaves_more now pending name k ls
            (ap (λ b. if b then some k' else lookup name ls) (sym t) ∙ e) live near a.1
    ]
  where
    free : k' ≡ k → pending < k.remaining
    free same = elim (Bool-cases (leb k.remaining pending)) [
      | inl t ↦ absurd (
          subst (λ x. ¬ Holds now pending (other, x)) same a.0
            (record { live = live; spent = ground (arith, t); near = near }))
      | inr t ↦ ground (arith, t)
    ]

let_in-Leaves :
    (name : Text) (r now n : ℕ) (q : Pace)
    → Flight n q
    → Leaves name r now q
    → (admit q now).1 ≡ ticket
    → n < r
let_in-Leaves name r now n q f l e = omega (
  arith,
  leaves_more now q.pending name l.known q.limits l.is_known l.live l.near
      (rw e at (admit-Means q now)),
  l.at_most,
  Flight-pending f,
)

-- While the host is known to leave at most `r` requests whenever one asks, however answers and losses
-- come in between, no more than `r` are under way, or no more than were at the start.
pub Burst-within_limit :
    {name : Text} {r m : ℕ} {p : Pace} {n : ℕ} {q : Pace}
    → Flight m p
    → Burst name r m p n q
    → n ≤ max m r
Burst-within_limit f begun = omega arith
Burst-within_limit {name = name} {r = r} f (asks {n} {q} now b l e) =
    omega (arith, let_in-Leaves name r now n q (Burst-Flight f b) l e)
Burst-within_limit f (waits now h b l e) = Burst-within_limit f b
Burst-within_limit f (hears limits at b) = omega (arith, Burst-within_limit f b)
Burst-within_limit f (loses b) = omega (arith, Burst-within_limit f b)
