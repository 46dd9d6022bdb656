-- ===== src/Pace/Learn.antt =====
-- What the answers of a host teach about one of its limits.
use fetchloom.Base.{
  ℕ, ◌≡◌, refl, ap, inl, inr, List, [], ◌∷◌, Option, none, some, arith, if◌then◌else◌, Bool-cases,
}
use fetchloom.Base.Text.{Text, text_eq, text_eq→≡, text_eq_refl}
use fetchloom.Pace.State.{Limit, Known, Pace, known_of, merge, learn_in, learn}

-- `get` of the map of limits.
unfoldable pub lookup : Text → List (Text × Known) → Option Known
lookup name [] = none
lookup name ((n, k) ∷ ls) = if text_eq n name then some k else lookup name ls

-- What is known of a limit after an answer stated it.
abbrev pub taught : Option Known → Known → Known
taught none fresh = fresh
taught (some k) fresh = merge k fresh

pub lookup-learn_in :
    (ls : List (Text × Known)) (name other : Text) (fresh : Known)
    → lookup other (learn_in ls name fresh)
      ≡ (if text_eq name other then some (taught (lookup name ls) fresh) else lookup other ls)
unfolding lookup learn_in
lookup-learn_in [] name other fresh = refl
lookup-learn_in ((n, k) ∷ ls) name other fresh = elim (Bool-cases (text_eq n name)) [
  | inl t ↦ let same = text_eq→≡ n name t in ground (arith, t, ap (λ m. text_eq m other) same)
  | inr t ↦ ground (
    arith,
    t,
    text_eq→≡ n other,
    text_eq→≡ name other,
    text_eq_refl n,
    lookup-learn_in ls name other fresh,
  )
]

-- An answer changes what is known of the limit that it names and of no other: a limit that was not
-- known is taken as it was stated, and one that was known is merged.
pub lookup-learn :
    (p : Pace) (l : Limit) (at : ℕ) (name : Text)
    → lookup name (learn p l at).limits ≡ (
        if text_eq l.name name
        then some (taught (lookup l.name p.limits) (known_of l at))
        else lookup name p.limits)
unfolding learn
lookup-learn p l at name = lookup-learn_in p.limits l.name name (known_of l at)

-- Of answers whose limits state when they reset in seconds since 1970, as they were known, the
-- order in which they come does not matter for what remains and for when it resets.
pub merge_comm :
    (k a b : Known) (s t u : ℕ)
    → k.stamp ≡ some s
    → a.stamp ≡ some t
    → b.stamp ≡ some u
    → ((merge (merge k a) b).remaining ≡ (merge (merge k b) a).remaining)
      × ((merge (merge k a) b).reset ≡ (merge (merge k b) a).reset)
      × ((merge (merge k a) b).stamp ≡ (merge (merge k b) a).stamp)
unfolding merge
merge_comm k a b s t u e f g = ground (arith, e, f, g)
