-- ===== src/Failure/Answers.antt =====
-- What a status that may pass leaves behind when the tries are over.
use fetchloom.Base.{
  leb, Bool-cases, ◌≢◌, ◌<◌, ℕ, ◌≤◌, ◌≡◌, refl, sym, ap, subst, ◌∙◌, ◌⊎◌, inl, inr, Bool, true,
  false, ◌&&◌, [], ◌∷◌, ◌++◌, Option, none, some, arith, ◌==◌, all, if◌then◌else◌, if_both,
}
use fetchloom.Base.Text.{Text, codes, is_digit, value_from}
use fetchloom.Plan.Paths.{strip_prefix}
use fetchloom.Lock.Format.{decimal}
use fetchloom.Lock.Tokens.{is_empty}
use fetchloom.Lock.Canonical.Decimals.{decimal-IsDecimal}
use fetchloom.Failure.{
  network_rate_limited, network_status, network_unreachable, Kind, Failure, final, transient,
  limited, is_transient, reason_of, refusal, after_last, digits_u16, parse_u16, parse_after,
  kind_of, gave_up, own_or, final_kind, or_else, is_soon,
}

abbrev marker : Text
marker = codes "answered "

first_digit : (c : ℕ) (s : Text) → all is_digit (c ∷ s) ≡ true → strip_prefix marker (c ∷ s) ≡ none
unfolding strip_prefix
first_digit c s h = ground (arith, h)

after_last-digits : (s : Text) → all is_digit s ≡ true → after_last marker s ≡ none
unfolding after_last strip_prefix
after_last-digits [] h = refl
after_last-digits (c ∷ s) h = rw (after_last-digits s (ground (arith, h))) (first_digit c s h)

after_last-append :
    (s t r : Text) → after_last marker t ≡ some r → after_last marker (s ++ t) ≡ some r
unfolding after_last
after_last-append [] t r h = h
after_last-append (c ∷ s) t r h = rw (after_last-append s t r h) refl

after_last-marker :
    (s : Text) → all is_digit s ≡ true → after_last marker (codes "answered " ++ s) ≡ some s
unfolding after_last strip_prefix
after_last-marker s h = rw (after_last-digits s h) refl

digits_u16_lem :
    (s : Text) (n : ℕ)
    → is_empty s ≡ false
    → all is_digit s ≡ true
    → value_from 0 s ≡ n
    → n ≤ 0xffff
    → digits_u16 s ≡ some n
digits_u16_lem [] n h d v f = absurd (true_false h)
  where
    true_false : true ≡ false → ⊥
    true_false x = cc
digits_u16_lem (c ∷ s) n h d v f = rw (d, v) (ground (arith, f))

parse_u16-digits : (s : Text) → all is_digit s ≡ true → parse_u16 s ≡ digits_u16 s
unfolding parse_u16
parse_u16-digits [] h = refl
parse_u16-digits (c ∷ s) h = rw (no_plus c (all is_digit s) h) refl
  where
    no_plus : (c : ℕ) (b : Bool) → (is_digit c && b) ≡ true → (c == b'+') ≡ false
    no_plus c b h = ground (arith, h)

parse_u16-decimal : (n : ℕ) → n ≤ 0xffff → parse_u16 (decimal n) ≡ some n
parse_u16-decimal n h =
    let d = decimal-IsDecimal n in
    parse_u16-digits (decimal n) d.digits ∙ digits_u16_lem (decimal n) n d.filled d.digits d.value h

pub gave_up-reason_of :
    (host : Text) (status : ℕ)
    → status ≤ 0xffff
    → gave_up (reason_of host status) ≡ kind_of (some status)
unfolding gave_up reason_of
gave_up-reason_of host status h =
    ap (λ o. kind_of (parse_after o))
      (after_last-append host (codes " answered " ++ decimal status) _ (
        after_last-append (b' ' ∷ []) (codes "answered " ++ decimal status) _
          (after_last-marker (decimal status) (decimal-IsDecimal status).digits)))
    ∙ ap kind_of (parse_u16-decimal status h)

module _ (host : Text) (status : ℕ) (reason : Text) (asked : Option ℕ) where
  MayPass : Failure → Type 0
  MayPass f =
      (f ≡ transient reason asked) ⊎ (f ≡ limited reason)
      → (reason ≡ reason_of host status) × (status ≤ 0xffff)

  final-MayPass : (k : Kind) → MayPass (final k)
  unfolding MayPass
  final-MayPass k (inl e) = absurd (final_transient e)
    where
      final_transient : final k ≡ transient reason asked → ⊥
      final_transient x = cc
  final-MayPass k (inr e) = absurd (final_limited e)
    where
      final_limited : final k ≡ limited reason → ⊥
      final_limited x = cc

  transient-MayPass :
      (o : Option ℕ) → status ≤ 0xffff → MayPass (transient (reason_of host status) o)
  unfolding MayPass
  transient-MayPass o h (inl e) = (sym (same e), h)
    where
      same :
          transient (reason_of host status) o ≡ transient reason asked
          → reason_of host status ≡ reason
      same x = cc
  transient-MayPass o h (inr e) = absurd (other e)
    where
      other : transient (reason_of host status) o ≡ limited reason → ⊥
      other x = cc

  limited-MayPass : status ≤ 0xffff → MayPass (limited (reason_of host status))
  unfolding MayPass
  limited-MayPass h (inl e) = absurd (other e)
    where
      other : limited (reason_of host status) ≡ transient reason asked → ⊥
      other x = cc
  limited-MayPass h (inr e) = (sym (same e), h)
    where
      same : limited (reason_of host status) ≡ limited reason → reason_of host status ≡ reason
      same x = cc

  is_transient-small : is_transient status ≡ true → status ≤ 0xffff
  unfolding is_transient
  is_transient-small h = ground (arith, h)

  refusal-MayPass :
      (used_up retry_after : Option ℕ) (own : Option Kind)
      → MayPass (refusal host status used_up retry_after own)
  unfolding refusal
  refusal-MayPass used_up retry_after own = go (is_transient status) refl
    where
      go :
          (b : Bool)
          → is_transient status ≡ b
          → MayPass (
              if b
              then if status == 429
                then if is_soon used_up
                  then limited (reason_of host status)
                  else transient (reason_of host status) (or_else used_up retry_after)
                else transient (reason_of host status) retry_after
              else if status == 403
              then final (own_or own (final_kind status))
              else final (final_kind status))
      go true e =
          let h = is_transient-small e in
          if_both MayPass (status == 429) _ _
            (if_both MayPass (is_soon used_up) _ _ (limited-MayPass h) (transient-MayPass _ h))
            (transient-MayPass _ h)
      go false e = if_both MayPass (status == 403) _ _ (final-MayPass _) (final-MayPass _)

-- The kind that a status calls for.
abbrev pub IsKindFor : ℕ → Kind → Type 0
IsKindFor status kind =
    ((status ≡ 429) × (kind ≡ network_rate_limited))
    ⊎ ((500 ≤ status × status ≤ 599) × (kind ≡ network_status))
    ⊎ ((status ≢ 429) × ((status < 500) ⊎ (599 < status)) × (kind ≡ network_unreachable))

kind_of-IsKindFor : (status : ℕ) → IsKindFor status (kind_of (some status))
kind_of-IsKindFor status = elim (Bool-cases (status == 429)) [
  | inl a ↦ inl (ground (arith, a), ground (arith, a))
  | inr a ↦ elim (Bool-cases (leb 500 status && leb status 599)) [
    | inl b ↦ inr (inl ((ground (arith, b), ground (arith, b)), ground (arith, a, b)))
    | inr b ↦ inr (inr (ground (arith, a), ground (arith, b), ground (arith, a, b)))
  ]
]

-- When the tries are over after an answer that may pass, the error is one of a rate limit for 429,
-- one of the server for the statuses from 500 to 599, and else one of the connection.
pub gave_up-refusal :
    (host : Text) (status : ℕ) (used_up retry_after : Option ℕ) (own : Option Kind) (reason : Text)
    (asked : Option ℕ)
    → (refusal host status used_up retry_after own ≡ transient reason asked)
      ⊎ (refusal host status used_up retry_after own ≡ limited reason)
    → IsKindFor status (gave_up reason)
unfolding MayPass
gave_up-refusal host status used_up retry_after own reason asked h =
    let r = refusal-MayPass host status reason asked used_up retry_after own h in
    subst (IsKindFor status) (sym (ap gave_up r.0 ∙ gave_up-reason_of host status r.1))
      (kind_of-IsKindFor status)
