-- ===== src/Pace/Windows.antt =====
-- What a host's answers leave known of a limit, told by the answers.
use fetchloom.Base.{
  ltb, leb, ltb→lt, ℕ, ◌+◌, ◌≤◌, ◌<◌, ◌≡◌, ◌≢◌, refl, sym, ap, subst, inl, inr, ◌⊎◌, ◌∙◌, Bool,
  true, false, List, [], ◌∷◌, Option, none, some, min, max, arith, All, Some, Bool-cases,
  if◌then◌else◌,
}
use fetchloom.Base.Text.{Text, text_eq, text_eq→≡, text_eq_refl}
use fetchloom.Pace.State.{Limit, Known, Pace, fresh_pace, known_of, merge, learn}
use fetchloom.Pace.Learn.{lookup, taught, lookup-learn}

-- A limit as an answer stated it at an instant, with the time in seconds since 1970 at which its
-- window ends.
pub record Stated : Type 0 where
  pub limit : Limit
  pub at : ℕ
  pub ends : ℕ
  pub stamp_is : limit.stamp ≡ some ends

-- The pace of a host after such statements, the last one first.
unfoldable pub learned : List Stated → Pace
learned [] = fresh_pace
learned (x ∷ xs) = learn (learned xs) x.limit x.at

module _ (name : Text) where
  abbrev pub IsOfWindow : ℕ → Stated → Type 0
  IsOfWindow ends x = (x.limit.name ≡ name) × (x.ends ≡ ends)

  -- The latest window of the limit: no statement is of a later one, and of those of the window one
  -- has the least count, which is known, and one the last reset.
  pub record IsLatest (xs : List Stated) (k : Known) : Type 0 where
    pub ends : ℕ
    pub stamp_is : k.stamp ≡ some ends
    pub bounds :
        All
          (λ x.
            (x.limit.name ≢ name)
            ⊎ (x.ends < ends)
            ⊎ ((x.ends ≡ ends)
                × (k.remaining ≤ x.limit.remaining)
                × (x.at + x.limit.reset ≤ k.reset)))
          xs
    pub least : Some (λ x. IsOfWindow ends x × (x.limit.remaining ≡ k.remaining)) xs
    pub last : Some (λ x. IsOfWindow ends x × (x.at + x.limit.reset ≡ k.reset)) xs

  -- What is known after the statements: nothing when none is of the limit, else its latest window.
  abbrev pub Tells : List Stated → Option Known → Type 0
  Tells xs none = All (λ x. x.limit.name ≢ name) xs
  Tells xs (some k) = IsLatest xs k

module _ {A : Type 0} {P Q : A → Type 0} (f : (a : A) → P a → Q a) where
  All-map : (xs : List A) → All P xs → All Q xs
  All-map [] h = tt
  All-map (x ∷ xs) h = (f x h.0, All-map xs h.1)

  Some-map : (xs : List A) → Some P xs → Some Q xs
  Some-map [] h = h
  Some-map (x ∷ xs) (inl h) = inl (f x h)
  Some-map (x ∷ xs) (inr h) = inr (Some-map xs h)

not_both : {b : Bool} → b ≡ true → b ≡ false → ⊥
not_both h k = cc

module _ (k a : Known) (s t : ℕ) (e : k.stamp ≡ some s) (f : a.stamp ≡ some t) where
  merge_later : s < t → merge k a ≡ a
  unfolding merge
  merge_later h = ground (arith, e, f, h)

  merge_earlier : t < s → merge k a ≡ k
  unfolding merge
  merge_earlier h = ground (arith, e, f, h)

  merge_same :
      t ≡ s
      → ((merge k a).remaining ≡ min k.remaining a.remaining)
        × ((merge k a).reset ≡ max k.reset a.reset)
        × ((merge k a).stamp ≡ some s)
  unfolding merge
  merge_same h = ground (arith, e, f, h)

module _ (name : Text) where
  skipped :
      (x : Stated) (xs : List Stated) (o : Option Known)
      → x.limit.name ≢ name
      → Tells name xs o
      → Tells name (x ∷ xs) o
  skipped x xs none n h = (n, h)
  skipped x xs (some k) n h = record {
    ends = h.ends;
    stamp_is = h.stamp_is;
    bounds = (inl n, h.bounds);
    least = inr h.least;
    last = inr h.last;
  }

  module _ (x : Stated) (xs : List Stated) (of : x.limit.name ≡ name) where
    abbrev fresh : Known
    fresh = known_of x.limit x.at

    first :
        All
          (λ y.
            (y.limit.name ≢ name)
            ⊎ (y.ends < x.ends)
            ⊎ ((y.ends ≡ x.ends)
                × (fresh.remaining ≤ y.limit.remaining)
                × (y.at + y.limit.reset ≤ fresh.reset)))
          xs
        → IsLatest name (x ∷ xs) fresh
    first h = record {
      ends = x.ends;
      stamp_is = x.stamp_is;
      bounds = (inr (inr (refl, omega arith, omega arith)), h);
      least = inl ((of, refl), refl);
      last = inl ((of, refl), refl);
    }

    merged : (k : Known) → IsLatest name xs k → IsLatest name (x ∷ xs) (merge k fresh)
    merged k h = elim (Bool-cases (ltb h.ends x.ends)) [
      | inl later ↦
          subst (IsLatest name (x ∷ xs))
            (sym (merge_later k fresh h.ends x.ends h.stamp_is x.stamp_is (ltb→lt _ _ later)))
            (first (All-map (passed (ltb→lt _ _ later)) xs h.bounds))
      | inr not_later ↦ elim (Bool-cases (ltb x.ends h.ends)) [
        | inl earlier ↦
            subst (IsLatest name (x ∷ xs))
              (sym (merge_earlier k fresh h.ends x.ends h.stamp_is x.stamp_is (ltb→lt _ _ earlier)))
              (kept (ltb→lt _ _ earlier))
        | inr not_earlier ↦ joined (ground (arith, not_later, not_earlier))
      ]
    ]
      where
        passed :
            h.ends < x.ends
            → (y : Stated)
            → ((y.limit.name ≢ name)
                ⊎ (y.ends < h.ends)
                ⊎ ((y.ends ≡ h.ends)
                    × (k.remaining ≤ y.limit.remaining)
                    × (y.at + y.limit.reset ≤ k.reset)))
            → ((y.limit.name ≢ name)
                ⊎ (y.ends < x.ends)
                ⊎ ((y.ends ≡ x.ends)
                    × (fresh.remaining ≤ y.limit.remaining)
                    × (y.at + y.limit.reset ≤ fresh.reset)))
        passed lt y (inl n) = inl n
        passed lt y (inr (inl b)) = inr (inl (omega (arith, lt, b)))
        passed lt y (inr (inr b)) = inr (inl (omega (arith, lt, b.0)))

        kept : x.ends < h.ends → IsLatest name (x ∷ xs) k
        kept lt = record {
          ends = h.ends;
          stamp_is = h.stamp_is;
          bounds = (inr (inl lt), h.bounds);
          least = inr h.least;
          last = inr h.last;
        }

        joined : x.ends ≡ h.ends → IsLatest name (x ∷ xs) (merge k fresh)
        joined same =
            let e = merge_same k fresh h.ends x.ends h.stamp_is x.stamp_is same in
            record {
              ends = h.ends;
              stamp_is = e.2;
              bounds = (
                inr (inr (same, omega (arith, e.0), omega (arith, e.1))),
                All-map (λ y b. lowered y e.0 e.1 b) xs h.bounds,
              );
              least = elim (Bool-cases (leb k.remaining x.limit.remaining)) [
                | inl t ↦ inr (Some-map (λ y w. (w.0, ground (arith, w.1, t, e.0))) xs h.least)
                | inr t ↦ inl ((of, same), ground (arith, t, e.0))
              ];
              last = elim (Bool-cases (leb (x.at + x.limit.reset) k.reset)) [
                | inl t ↦ inr (Some-map (λ y w. (w.0, ground (arith, w.1, t, e.1))) xs h.last)
                | inr t ↦ inl ((of, same), ground (arith, t, e.1))
              ];
            }
          where
            lowered :
                (y : Stated)
                → (merge k fresh).remaining ≡ min k.remaining fresh.remaining
                → (merge k fresh).reset ≡ max k.reset fresh.reset
                → ((y.limit.name ≢ name)
                    ⊎ (y.ends < h.ends)
                    ⊎ ((y.ends ≡ h.ends)
                        × (k.remaining ≤ y.limit.remaining)
                        × (y.at + y.limit.reset ≤ k.reset)))
                → ((y.limit.name ≢ name)
                    ⊎ (y.ends < h.ends)
                    ⊎ ((y.ends ≡ h.ends)
                        × ((merge k fresh).remaining ≤ y.limit.remaining)
                        × (y.at + y.limit.reset ≤ (merge k fresh).reset)))
            lowered y e f (inl n) = inl n
            lowered y e f (inr (inl b)) = inr (inl b)
            lowered y e f (inr (inr b)) =
                inr (inr (b.0, omega (arith, b.1, e), omega (arith, b.2, f)))

    stated : (o : Option Known) → Tells name xs o → IsLatest name (x ∷ xs) (taught o fresh)
    stated none h = first (All-map (λ y n. inl n) xs h)
    stated (some k) h = merged k h

  differs : (x : Stated) → text_eq x.limit.name name ≡ false → x.limit.name ≢ name
  differs x t e = not_both (ap (λ n. text_eq n name) e ∙ text_eq_refl name) t

  -- Of statements of limits that state when their windows end in seconds since 1970, what is known of
  -- a limit is its latest window: nothing when none is of the limit, else the least count and the
  -- last reset that were stated of the window that ends last.
  pub learned-Tells : (xs : List Stated) → Tells name xs (lookup name (learned xs).limits)
  unfolding lookup learned
  learned-Tells [] = tt
  learned-Tells (x ∷ xs) =
      subst (Tells name (x ∷ xs)) (sym (lookup-learn (learned xs) x.limit x.at name))
        (elim (Bool-cases (text_eq x.limit.name name)) [
          | inl t ↦
              let of = text_eq→≡ x.limit.name name t in
              subst
                (λ (b : Bool). Tells name (x ∷ xs) (
                  if b
                  then some
                      (taught (lookup x.limit.name (learned xs).limits) (known_of x.limit x.at))
                  else lookup name (learned xs).limits))
                (sym t)
                (subst
                  (λ n.
                    IsLatest name (x ∷ xs)
                      (taught (lookup n (learned xs).limits) (known_of x.limit x.at)))
                  (sym of) (stated x xs of _ (learned-Tells xs)))
          | inr t ↦
              subst
                (λ (b : Bool). Tells name (x ∷ xs) (
                  if b
                  then some
                      (taught (lookup x.limit.name (learned xs).limits) (known_of x.limit x.at))
                  else lookup name (learned xs).limits))
                (sym t) (skipped x xs _ (differs x t) (learned-Tells xs))
        ])
