-- ===== src/Glob/Path/Decides.antt =====
-- The table of reachable places that `Glob::matches` fills answers whether the parts cover the
-- names of a path.
use fetchloom.Base.{
  suc, ◌≡◌, refl, ap, ◌∙◌, ◌↔◌, ◌⊎◌, inl, inr, Bool, true, false, ◌||◌, List, [], ◌∷◌, some, length,
  length-replicate, replicate, arith, if◌then◌else◌,
}
use fetchloom.Base.Text.{Text, split}
use fetchloom.Glob.Pattern.{Token, Part, any_folders, named, Glob}
use fetchloom.Glob.Name.{Fits, matches_name}
use fetchloom.Glob.Name.Decides.{Settles, matches_name-Settles}
use fetchloom.Glob.Path.{
  open_from, after_names, advance, advance_all, at_end, matches_parts, matches,
}

-- What it means that the parts of a pattern cover all the names of a path.
pub data Covers : List Part → List Text → Type 0 where
  covered : Covers [] []
  by_name :
      {ts : List Token} {n : Text} {ps : List Part} {ns : List Text}
      → Fits ts n
      → Covers ps ns
      → Covers (named ts ∷ ps) (n ∷ ns)
  no_folder : {ps : List Part} {ns : List Text} → Covers ps ns → Covers (any_folders ∷ ps) ns
  one_folder :
      {n : Text} {ps : List Part} {ns : List Text}
      → Covers (any_folders ∷ ps) ns
      → Covers (any_folders ∷ ps) (n ∷ ns)

-- Some reachable place is one from where the parts cover the names that are left.
abbrev Ahead : List Part → List Bool → List Text → Type 0
Ahead ps [] ns = ⊥
Ahead ps (r ∷ rs) [] = (r ≡ true) × Covers ps []
Ahead ps (r ∷ rs) (n ∷ ns) = ((r ≡ true) × Covers ps (n ∷ ns)) ⊎ Ahead ps rs ns

-- A table has one place more than there are names.
abbrev Wide : List Bool → List Text → Type 0
Wide rs ns = length rs ≡ suc (length ns)

at_end-Ahead :
    (rs : List Bool) (ns : List Text) → Wide rs ns → (at_end rs ns ≡ true) ↔ Ahead [] rs ns
unfolding at_end
at_end-Ahead [] ns w = absurd (omega arith)
at_end-Ahead (r ∷ rs) [] w = (λ h. (h, covered), λ a. a.0)
at_end-Ahead (r ∷ rs) (n ∷ ns) w =
    let ih = at_end-Ahead rs ns (omega arith) in
    (λ h. inr (ih.0 h), λ a. elim a [ inl c ↦ elim c.1 [ ] | inr b ↦ ih.1 b ])

length-open_from : (o : Bool) (rs : List Bool) → length (open_from o rs) ≡ length rs
unfolding open_from
length-open_from o [] = refl
length-open_from o (r ∷ rs) = ap suc (length-open_from (o || r) rs)

-- With the flag `open_now`, the arm for `**` reaches what was reached, and all that lies behind it.
open_from→ :
    (ps : List Part) (o : Bool) (rs : List Bool) (ns : List Text)
    → Wide rs ns
    → Ahead ps (open_from o rs) ns
    → ((o ≡ true) × Covers (any_folders ∷ ps) ns) ⊎ Ahead (any_folders ∷ ps) rs ns
unfolding open_from
open_from→ ps o [] ns w a = absurd a
open_from→ ps true (r ∷ rs) [] w a = inl (refl, no_folder a.1)
open_from→ ps false (r ∷ rs) [] w a = inr (a.0, no_folder a.1)
open_from→ ps true (r ∷ rs) (n ∷ ns) w (inl c) = inl (refl, no_folder c.1)
open_from→ ps false (r ∷ rs) (n ∷ ns) w (inl c) = inr (inl (c.0, no_folder c.1))
open_from→ ps true (r ∷ rs) (n ∷ ns) w (inr b) = elim (open_from→ ps true rs ns (omega arith) b) [
  | inl c ↦ inl (refl, one_folder c.1)
  | inr d ↦ inr (inr d)
]
open_from→ ps false (r ∷ rs) (n ∷ ns) w (inr b) = elim (open_from→ ps r rs ns (omega arith) b) [
  | inl c ↦ inr (inl (c.0, one_folder c.1))
  | inr d ↦ inr (inr d)
]

←open_from :
    (ps : List Part) (o : Bool) (rs : List Bool) (ns : List Text)
    → Wide rs ns
    → ((o ≡ true) × Covers (any_folders ∷ ps) ns) ⊎ Ahead (any_folders ∷ ps) rs ns
    → Ahead ps (open_from o rs) ns
unfolding open_from
←open_from ps o [] ns w a = absurd (omega arith)
←open_from ps o (r ∷ rs) [] w (inl (h, no_folder c)) = (ground arith, c)
←open_from ps o (r ∷ rs) [] w (inr (h, no_folder c)) = (ground arith, c)
←open_from ps o (r ∷ rs) (n ∷ ns) w (inl (h, no_folder c)) = inl (ground arith, c)
←open_from ps o (r ∷ rs) (n ∷ ns) w (inl (h, one_folder c)) =
    inr (←open_from ps (o || r) rs ns (omega arith) (inl (ground arith, c)))
←open_from ps o (r ∷ rs) (n ∷ ns) w (inr (inl (h, no_folder c))) = inl (ground arith, c)
←open_from ps o (r ∷ rs) (n ∷ ns) w (inr (inl (h, one_folder c))) =
    inr (←open_from ps (o || r) rs ns (omega arith) (inl (ground arith, c)))
←open_from ps o (r ∷ rs) (n ∷ ns) w (inr (inr d)) =
    inr (←open_from ps (o || r) rs ns (omega arith) (inr d))

-- What `after_names` decides at one name: the place before it was reachable and its name fits.
here-Settles :
    (ts : List Token) (r : Bool) (n : Text)
    → Settles ((r ≡ true) × Fits ts n) (if r then matches_name ts n else some false)
here-Settles ts true n =
    let (b, e, fit) = matches_name-Settles ts n in (b, e, (λ h. (refl, fit.0 h), λ p. fit.1 p.1))
here-Settles ts false n = (false, refl, (λ h. cc, λ p. p.0))

module _ (ts : List Token) (ps : List Part) where
  abbrev Row : List Bool → List Text → List Bool → Type 0
  Row rs ns row =
      (length row ≡ length ns)
      × ((x : Bool)
          → Ahead ps (x ∷ row) ns ↔ (((x ≡ true) × Covers ps ns) ⊎ Ahead (named ts ∷ ps) rs ns))

  by_name_inv :
      {n : Text} {ns : List Text} → Covers (named ts ∷ ps) (n ∷ ns) → Fits ts n × Covers ps ns
  by_name_inv (by_name d c) = (d, c)

  Row-cons :
      (r b : Bool) (n : Text) (rs row : List Bool) (ns : List Text)
      → (b ≡ true) ↔ ((r ≡ true) × Fits ts n)
      → Row rs ns row
      → Row (r ∷ rs) (n ∷ ns) (b ∷ row)
  Row-cons r b n rs row ns e ih = (
    omega (arith, ih.0),
    λ x. (
      λ a. elim a [
        | inl c ↦ inl c
        | inr d ↦ elim ((ih.1 b).0 d) [
          | inl c ↦ inr (inl ((e.0 c.0).0, by_name (e.0 c.0).1 c.1))
          | inr l ↦ inr (inr l)
        ]
      ],
      λ a. elim a [
        | inl c ↦ inl c
        | inr d ↦ elim d [
          | inl c ↦ inr ((ih.1 b).1 (inl (e.1 (c.0, (by_name_inv c.1).0), (by_name_inv c.1).1)))
          | inr l ↦ inr ((ih.1 b).1 (inr l))
        ]
      ],
    ),
  )

  after_names-Row :
      (rs : List Bool) (ns : List Text)
      → Wide rs ns
      → (row : List Bool) × (after_names ts rs ns ≡ some row) × Row rs ns row
  unfolding after_names
  after_names-Row [] ns w = absurd (omega arith)
  after_names-Row (r ∷ rs) [] w =
      ([], refl, (refl, λ x. (λ a. inl a, λ a. elim a [ inl c ↦ c | inr d ↦ elim d.1 [ ] ])))
  after_names-Row (r ∷ rs) (n ∷ ns) w =
      let (row, e, ih) = after_names-Row rs ns (omega arith) in
      let (b, h, fit) = here-Settles ts r n in
      (b ∷ row, rw (h, e) refl, Row-cons r b n rs row ns fit ih)

-- One round of the loop keeps the table wide and the question the same.
advance_lem :
    (p : Part) (ps : List Part) (rs : List Bool) (ns : List Text)
    → Wide rs ns
    → (next : List Bool) × (advance p rs ns ≡ some next)
      × Wide next ns
      × (Ahead ps next ns ↔ Ahead (p ∷ ps) rs ns)
unfolding advance
advance_lem any_folders ps rs ns w = (
  open_from false rs,
  refl,
  length-open_from false rs ∙ w,
  (
    λ a. elim (open_from→ ps false rs ns w a) [ inl c ↦ cc c.0 | inr d ↦ d ],
    λ d. ←open_from ps false rs ns w (inr d),
  ),
)
advance_lem (named ts) ps rs ns w =
    let (row, e, row_ok) = after_names-Row ts ps rs ns w in
    let row_iff = row_ok.1 in
    (
      false ∷ row,
      rw e refl,
      omega (arith, row_ok.0),
      (
        (λ a. elim ((row_iff false).0 a) [ inl c ↦ cc c.0 | inr d ↦ d ]),
        λ d. (row_iff false).1 (inr d),
      ),
    )

advance_all_lem :
    (ps : List Part) (rs : List Bool) (ns : List Text)
    → Wide rs ns
    → (last : List Bool) × (advance_all ps rs ns ≡ some last)
      × Wide last ns
      × (Ahead [] last ns ↔ Ahead ps rs ns)
unfolding advance_all
advance_all_lem [] rs ns w = (rs, refl, w, (λ a. a, λ a. a))
advance_all_lem (p ∷ ps) rs ns w =
    let (next, e, wide, step) = advance_lem p ps rs ns w in
    let (last, f, wide', more) = advance_all_lem ps next ns wide in
    (last, rw (e, advance_all) f, wide', (λ a. step.0 (more.0 a), λ a. more.1 (step.1 a)))

-- At the start only the place before the first name is reachable.
start-Ahead :
    (ps : List Part) (ns : List Text)
    → Ahead ps (true ∷ replicate (length ns) false) ns ↔ Covers ps ns
start-Ahead ps [] = (λ a. a.1, λ c. (refl, c))
start-Ahead ps (n ∷ ns) =
    (λ a. elim a [ inl c ↦ c.1 | inr d ↦ absurd (nowhere ns d) ], λ c. inl (refl, c))
  where
    nowhere : (ns : List Text) → ¬ Ahead ps (false ∷ replicate (length ns) false) ns
    nowhere [] a = cc a.0
    nowhere (n ∷ ns) (inl c) = cc c.0
    nowhere (n ∷ ns) (inr d) = nowhere ns d

matches_parts-Settles :
    (ps : List Part) (ns : List Text) → Settles (Covers ps ns) (matches_parts ps ns)
unfolding matches_parts
matches_parts-Settles ps ns =
    let (last, e, wide, iff) =
      advance_all_lem ps (true ∷ replicate (length ns) false) ns
        (omega (arith, length-replicate (length ns) false)) in
    let ends = at_end-Ahead last ns wide in
    (
      at_end last ns,
      rw e refl,
      (
        λ h. (start-Ahead ps ns).0 (iff.0 (ends.0 h)),
        λ c. ends.1 (iff.1 ((start-Ahead ps ns).1 c)),
      ),
    )

-- `Glob::matches` always ends, and answers true exactly when the parts of the pattern cover the
-- folder names of the path.
pub matches-Settles :
    (g : Glob) (path : Text) → Settles (Covers g.parts (split b'/' path)) (matches g path)
unfolding matches
matches-Settles g path = matches_parts-Settles g.parts (split b'/' path)
