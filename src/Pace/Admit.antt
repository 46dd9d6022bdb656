-- ===== src/Pace/Admit.antt =====
-- When a request is let through, and how long it is held otherwise.
use fetchloom.Base.{
  ℕ, ◌-◌, ◌≤◌, ◌<◌, ◌≡◌, refl, sym, ap, inl, inr, ◌⊎◌, true, List, [], ◌∷◌, Option, none, some,
  arith, ltb, leb, All, Some, if◌then◌else◌, Bool-cases,
}
use fetchloom.Base.Text.{Text}
use fetchloom.Pace.State.{
  longest, Known, Pace, Hold, Answer, ticket, hold, retain, blocks, later_known, blocking_from,
  admit_or_hold, admit,
}

-- A limit that holds requests back: it did not reset yet, as many requests are under way as it
-- leaves, and it resets soon enough to wait for.
pub record Holds (now pending : ℕ) (limit : Text × Known) : Type 0 where
  pub live : now < limit.1.reset
  pub spent : limit.1.remaining ≤ pending
  pub near : limit.1.reset - now ≤ longest

-- `h` tells of the limit `limit`.
pub record IsOf (h : Hold) (limit : Text × Known) : Type 0 where
  pub until_is : h.until ≡ limit.1.reset
  pub quota_is : h.quota ≡ limit.1.quota
  pub window_is : h.window ≡ limit.1.window

-- What the answer means: a ticket when no limit holds requests back, else a wait for one that does
-- and that resets last.
abbrev pub Means : Pace → ℕ → Answer → Type 0
Means p now ticket = All (λ l. ¬ Holds now p.pending l) p.limits
Means p now (hold h) =
    Some (λ l. Holds now p.pending l × IsOf h l) p.limits
    × All (λ l. Holds now p.pending l → l.1.reset ≤ h.until) p.limits

some_inj {ℓ} : {A : Type ℓ} {a b : A} → some a ≡ some b → a ≡ b
some_inj e = cc

-- A limit that passes the filter holds requests back, and no other does.
passes→Holds :
    (now pending : ℕ) (n : Text) (k : Known)
    → ltb now k.reset ≡ true
    → blocks now pending k ≡ true
    → Holds now pending (n, k)
passes→Holds now pending n k a b = record {
  live = ground arith;
  spent = ground arith;
  near = ground arith;
}

Holds→passes :
    (now pending : ℕ) (n : Text) (k : Known)
    → Holds now pending (n, k)
    → (ltb now k.reset ≡ true) × (blocks now pending k ≡ true)
Holds→passes now pending n k h = (ground (arith, h.live), ground (arith, h.spent, h.near))

module _ (now pending : ℕ) where
  abbrev Late : Known → Text × Known → Type 0
  Late k l = Holds now pending l → l.1.reset ≤ k.reset

  -- What the search finds among `ls`, after it found `best`.
  abbrev Found : Option Known → List (Text × Known) → Option Known → Type 0
  Found best ls none = (best ≡ none) × All (λ l. ¬ Holds now pending l) ls
  Found best ls (some k) =
      ((best ≡ some k) ⊎ Some (λ l. Holds now pending l × (l.1 ≡ k)) ls)
      × All (Late k) ls
      × ((b : Known) → best ≡ some b → b.reset ≤ k.reset)

  Found-skip :
      (best : Option Known) (l : Text × Known) (ls : List (Text × Known)) (r : Option Known)
      → ¬ Holds now pending l
      → Found best ls r
      → Found best (l ∷ ls) r
  Found-skip best l ls none n f = (f.0, (n, f.1))
  Found-skip best l ls (some k) n (place, late, over) =
      (elim place [ inl e ↦ inl e | inr s ↦ inr (inr s) ], ((λ h. absurd (n h)), late), over)

  Found-take :
      (best : Option Known) (n : Text) (k : Known) (ls : List (Text × Known)) (r : Option Known)
      → Holds now pending (n, k)
      → Found (later_known k best) ls r
      → Found best ((n, k) ∷ ls) r
  Found-take none n k ls none h f = cc f.0
  Found-take (some b) n k ls none h f = ground (arith, f.0)
  Found-take none n k ls (some m) h (place, late, over) = (
    elim place [ inl e ↦ inr (inl (h, some_inj e)) | inr s ↦ inr (inr s) ],
    ((λ _. over k refl), late),
    λ b e. cc e,
  )
  Found-take (some b) n k ls (some m) h (place, late, over) =
      elim (Bool-cases (leb b.reset k.reset)) [
        | inl t ↦ (
          elim place [ inl e ↦ inr (inl (h, some_inj (rw t at e))) | inr s ↦ inr (inr s) ],
          ((λ _. over k (rw t refl)), late),
          λ c e. ground (arith, over k (rw t refl), e, t),
        )
        | inr t ↦ (
          elim place [ inl e ↦ inl (rw t at e) | inr s ↦ inr (inr s) ],
          ((λ _. ground (arith, over b (rw t refl), t)), late),
          λ c e. ground (arith, over b (rw t refl), e),
        )
      ]

  live-Found :
      (n : Text) (k : Known) (ls : List (Text × Known)) (best : Option Known)
      → ltb now k.reset ≡ true
      → Found best ls (blocking_from now pending (retain now ls) best)
      → Found
          (later_known k best)
          ls
          (blocking_from now pending (retain now ls) (later_known k best))
      → Found best ((n, k) ∷ ls) (
          blocking_from now pending
            (retain now ls)
            (if blocks now pending k then later_known k best else best))
  live-Found n k ls best t skipped taken = elim (Bool-cases (blocks now pending k)) [
    | inr u ↦
        rw u (Found-skip best (n, k) ls _ (λ h. cc (u, (Holds→passes now pending n k h).1)) skipped)
    | inl u ↦ rw u (Found-take best n k ls _ (passes→Holds now pending n k t u) taken)
  ]

  blocking_from-Found :
      (ls : List (Text × Known)) (best : Option Known)
      → Found best ls (blocking_from now pending (retain now ls) best)
  unfolding blocking_from retain
  blocking_from-Found [] none = (refl, tt)
  blocking_from-Found [] (some b) = (inl refl, tt, λ c e. ground (arith, e))
  blocking_from-Found ((n, k) ∷ ls) best = elim (Bool-cases (ltb now k.reset)) [
    | inr t ↦ rw t (
        Found-skip best (n, k) ls _ (λ h. cc (t, (Holds→passes now pending n k h).0))
          (blocking_from-Found ls best))
    | inl t ↦ rw t (
        live-Found n k ls best t (blocking_from-Found ls best)
          (blocking_from-Found ls (later_known k best)))
  ]

Some-map :
    {A : Type 0} (P Q : A → Type 0) (xs : List A) → ((x : A) → P x → Q x) → Some P xs → Some Q xs
Some-map P Q [] f s = elim s [ ]
Some-map P Q (x ∷ xs) f (inl h) = inl (f x h)
Some-map P Q (x ∷ xs) f (inr h) = inr (Some-map P Q xs f h)

admit_or_hold-Means :
    (p : Pace) (kept : List (Text × Known)) (now : ℕ) (r : Option Known)
    → Found now p.pending none p.limits r
    → Means p now (admit_or_hold (record p { limits = kept }) r).1
unfolding admit_or_hold
admit_or_hold-Means p kept now none f = f.1
admit_or_hold-Means p kept now (some k) (place, late, _) = (
  elim place [
    | inl e ↦ cc e
    | inr s ↦
        Some-map _ _ p.limits
          (λ l (h, e). (
            h,
            record {
              until_is = ap (λ (k : Known). k.reset) (sym e);
              quota_is = ap (λ (k : Known). k.quota) (sym e);
              window_is = ap (λ (k : Known). k.window) (sym e);
            },
          ))
          s
  ],
  late,
)

-- `Paces::admit` gives a ticket exactly when no limit of the host holds requests back. Otherwise
-- its answer is to wait for a limit that does, and for the one of those that resets last.
pub admit-Means : (p : Pace) (now : ℕ) → Means p now (admit p now).1
unfolding admit
admit-Means p now =
    admit_or_hold-Means p (retain now p.limits) now _
      (blocking_from-Found now p.pending p.limits none)
