-- ===== src/Archive/Names/Apart.antt =====
-- The files that are taken from an archive are apart: no two are one name, and none is a folder of
-- another, on a disk that ignores case.
use fetchloom.Base.{
  ℕ, ◌≡◌, refl, sym, ap, ap₂, subst, ◌∙◌, Bool, true, false, ◌&&◌, List, [], ◌∷◌, some, arith,
  some_inj, All,
}
use fetchloom.Base.Text.{Text, text_eq, text_eq→≡}
use fetchloom.Name.Folded.{Unicode}
use fetchloom.Archive.Names.{
  Named, file, folder, Seen, Names, Outcome, accepted, refused, lookup, add, add_all, keep,
}
use fetchloom.Archive.Names.Entries.{
  Map, Extends, Extends-trans, IsFileAt, IsFileAt-Extends, IsEntered,
}
use fetchloom.Archive.Names.Added.{keys, add-IsAdded}

-- Whether the first names lead to the second: they are the same, or a folder of them.
abbrev pub leads : List Text → List Text → Bool
leads [] ls = true
leads (k ∷ ks) [] = false
leads (k ∷ ks) (l ∷ ls) = text_eq k l && leads ks ls

file_folder : false ≡ true → ⊥
file_folder h = cc

not_true : (b : Bool) → (b ≡ true → ⊥) → b ≡ false
not_true true h = absurd (h refl)
not_true false h = refl

and_left : (a b : Bool) → (a && b) ≡ true → a ≡ true
and_left a b h = ground (arith, h)

and_right : (a b : Bool) → (a && b) ≡ true → b ≡ true
and_right a b h = ground (arith, h)

same_seen :
    (m : Map) (at : ℕ) (k l : Text) (s t : Seen)
    → lookup (at, k) m ≡ some s
    → lookup (at, l) m ≡ some t
    → text_eq k l ≡ true
    → s ≡ t
same_seen m at k l s t e f h = some_inj (sym e ∙ ap (λ x. lookup (at, x) m) (text_eq→≡ k l h) ∙ f)

-- A file is no folder of another one.
leads-eq :
    (m : Map) (at : ℕ) (ks ls : List Text)
    → IsFileAt m at ks
    → IsFileAt m at ls
    → leads ks ls ≡ true
    → ks ≡ ls
leads-eq m at (k ∷ ks) [] i j h = absurd j
leads-eq m at [] ls i j h = absurd i
leads-eq m at (k ∷ []) (l ∷ []) i j h = ap (λ x. x ∷ []) (text_eq→≡ k l (ground (arith, h)))
leads-eq m at (k ∷ []) (l ∷ l' ∷ ls) i j h = absurd (
    file_folder (
      sym i.2
      ∙ ap (λ (s : Seen). s.is_folder) (same_seen m at k l i.0 j.0 i.1 j.1 (ground (arith, h)))
      ∙ j.2))
leads-eq m at (k ∷ k' ∷ ks) (l ∷ []) i j h = absurd (clash h)
  where
    clash : (text_eq k l && false) ≡ true → ⊥
    clash x = ground (arith, x)
leads-eq m at (k ∷ k' ∷ ks) (l ∷ l' ∷ ls) i j h =
    let same = same_seen m at k l i.0 j.0 i.1 j.1 (and_left _ _ h) in
    ap₂ (λ x xs. x ∷ xs) (text_eq→≡ k l (and_left _ _ h))
      (leads-eq m j.0.id (k' ∷ ks) (l' ∷ ls)
        (subst (λ (s : Seen). IsFileAt m s.id (k' ∷ ks)) same i.3) j.3 (and_right _ _ h))

module _ (u : Unicode) where
  abbrev pub IsApart : Text → Text → Type 0
  IsApart p q = (leads (keys u p) (keys u q) ≡ false) × (leads (keys u q) (keys u p) ≡ false)

  abbrev pub AreApart : List Text → Type 0
  AreApart [] = Unit
  AreApart (path ∷ rest) = All (IsApart path) rest × AreApart rest

module _ (u : Unicode) (windows : Bool) where
  -- A file that is taken later: `last` has it, and `m` had not.
  abbrev IsFresh : Map → Map → Text → Type 0
  IsFresh m last path = IsEntered u m last 0 (keys u path)

  IsFresh-Extends :
      (m m' last : Map) (paths : List Text)
      → Extends m m'
      → All (IsFresh m' last) paths
      → All (IsFresh m last) paths
  IsFresh-Extends m m' last [] h i = tt
  IsFresh-Extends m m' last (path ∷ paths) h i = (
    (i.0.0, λ was. i.0.1 (IsFileAt-Extends m m' 0 (keys u path) h was)),
    IsFresh-Extends m m' last paths h i.1,
  )

  keep-IsFresh :
      (m m' last : Map) (o : Outcome Named) (paths : List Text)
      → Extends m m'
      → Extends m' last
      → ((path : Text) → o ≡ accepted (file path) → IsEntered u m m' 0 (keys u path))
      → All (IsFresh m' last) paths
      → All (IsFresh m last) (keep o paths)
  keep-IsFresh m m' last (refused e) paths h h' f i = IsFresh-Extends m m' last paths h i
  keep-IsFresh m m' last (accepted folder) paths h h' f i = IsFresh-Extends m m' last paths h i
  keep-IsFresh m m' last (accepted (file path)) paths h h' f i =
      let e = f path refl in
      ((IsFileAt-Extends m' last 0 (keys u path) h' e.0, e.1), IsFresh-Extends m m' last paths h i)

  add_all-IsFresh :
      (names : Names) (entries : List (Text × Bool))
      → Extends names.seen (add_all u windows names entries).0.seen
        × All
            (IsFresh names.seen (add_all u windows names entries).0.seen)
            (add_all u windows names entries).1
  unfolding add_all
  add_all-IsFresh names [] = (λ k s x. x, tt)
  add_all-IsFresh names ((raw, is_folder) ∷ entries) =
      let r = add u windows names raw is_folder in
      let i = add-IsAdded u windows names raw is_folder in
      let rest = add_all-IsFresh r.0 entries in
      (
        Extends-trans names.seen r.0.seen _ i.extends rest.0,
        keep-IsFresh names.seen r.0.seen _ r.1 _ i.extends rest.0 i.entered rest.1,
      )

  fresh-IsApart :
      (m last : Map) (path : Text) (paths : List Text)
      → IsFileAt m 0 (keys u path)
      → Extends m last
      → All (IsFresh m last) paths
      → All (IsApart u path) paths
  fresh-IsApart m last path [] h e i = tt
  fresh-IsApart m last path (other ∷ paths) h e i = (
    (
      not_true _ (λ x. i.0.1 (subst (IsFileAt m 0) (leads-eq last 0 _ _ there i.0.0 x) h)),
      not_true _ (λ x. i.0.1 (subst (IsFileAt m 0) (sym (leads-eq last 0 _ _ i.0.0 there x)) h)),
    ),
    fresh-IsApart m last path paths h e i.1,
  )
    where
      there : IsFileAt last 0 (keys u path)
      there = IsFileAt-Extends m last 0 (keys u path) e h

  keep-AreApart :
      (m m' last : Map) (o : Outcome Named) (paths : List Text)
      → Extends m' last
      → ((path : Text) → o ≡ accepted (file path) → IsEntered u m m' 0 (keys u path))
      → All (IsFresh m' last) paths
      → AreApart u paths
      → AreApart u (keep o paths)
  keep-AreApart m m' last (refused e) paths h f i a = a
  keep-AreApart m m' last (accepted folder) paths h f i a = a
  keep-AreApart m m' last (accepted (file path)) paths h f i a =
      (fresh-IsApart m' last path paths (f path refl).0 h i, a)

  -- Whatever entries an archive has, in whatever order, of the files that are taken from it no two
  -- have paths that are one name on a disk that ignores case, and the path of none is a folder of
  -- another's.
  pub add_all-AreApart :
      (names : Names) (entries : List (Text × Bool))
      → AreApart u (add_all u windows names entries).1
  unfolding add_all
  add_all-AreApart names [] = tt
  add_all-AreApart names ((raw, is_folder) ∷ entries) =
      let r = add u windows names raw is_folder in
      let rest = add_all-IsFresh r.0 entries in
      keep-AreApart names.seen r.0.seen _ r.1 _ rest.0
        (add-IsAdded u windows names raw is_folder).entered rest.1 (add_all-AreApart r.0 entries)
