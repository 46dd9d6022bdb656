-- ===== src/Plan/Expand/Paired.antt =====
-- Members of an archive and their paths, side by side.
use fetchloom.Base.{
  true, false, ◌||◌, if◌then◌else◌, ℕ, zero, suc, ◌≡◌, refl, ap, ap₂, ◌⊎◌, inl, inr, Bool, List, [],
  ◌∷◌, ◌++◌, Option, none, some, length, get_elem?, some_inj, none-some,
}
use fetchloom.Base.Text.{Text}
use fetchloom.Plan.Paths.{
  Member, join_path, unpacked_paths, place_under, paths_alone, paths_beside, paths_in,
  folder_and_name, is_some, is_one_file, stem, common_top, rsplit_once,
}
use fetchloom.Plan.Expand.{Target, zip_with}

module _ {A : Type 0} where
  abbrev pub IsIn : A → List A → Type 0
  IsIn a [] = ⊥
  IsIn a (x ∷ xs) = (x ≡ a) ⊎ IsIn a xs

  pub IsIn-append→ : (a : A) (xs ys : List A) → IsIn a (xs ++ ys) → IsIn a xs ⊎ IsIn a ys
  IsIn-append→ a [] ys h = inr h
  IsIn-append→ a (x ∷ xs) ys (inl e) = inl (inl e)
  IsIn-append→ a (x ∷ xs) ys (inr h) = elim (IsIn-append→ a xs ys h) [
    | inl i ↦ inl (inr i)
    | inr i ↦ inr i
  ]

  pub ←IsIn-append : (a : A) (xs ys : List A) → IsIn a xs ⊎ IsIn a ys → IsIn a (xs ++ ys)
  ←IsIn-append a [] ys (inl h) = absurd h
  ←IsIn-append a [] ys (inr h) = h
  ←IsIn-append a (x ∷ xs) ys (inl (inl e)) = inl e
  ←IsIn-append a (x ∷ xs) ys (inl (inr h)) = inr (←IsIn-append a xs ys (inl h))
  ←IsIn-append a (x ∷ xs) ys (inr h) = inr (←IsIn-append a xs ys (inr h))

  pub IsIn-one : (a x : A) → IsIn a (x ∷ []) → x ≡ a
  IsIn-one a x (inl e) = e
  IsIn-one a x (inr h) = absurd h

-- The same place of two lists.
abbrev pub IsPaired : List Member → List Text → Member → Text → Type 0
IsPaired ms paths m path = (i : ℕ) × (get_elem? ms i ≡ some m) × (get_elem? paths i ≡ some path)

module _ (f : Member → Text → Target) where
  pub zip_with→ :
      (t : Target) (ms : List Member) (paths : List Text)
      → IsIn t (zip_with f ms paths)
      → (m : Member) × (path : Text) × IsPaired ms paths m path × (f m path ≡ t)
  zip_with→ t [] paths h = absurd h
  zip_with→ t (m ∷ ms) [] h = absurd h
  zip_with→ t (m ∷ ms) (path ∷ paths) (inl e) = (m, path, (0, refl, refl), e)
  zip_with→ t (m ∷ ms) (path ∷ paths) (inr h) =
      let (m', path', (i, a, b), e) = zip_with→ t ms paths h in (m', path', (suc i, a, b), e)

  pub ←zip_with :
      (ms : List Member) (paths : List Text) (m : Member) (path : Text) (i : ℕ)
      → get_elem? ms i ≡ some m
      → get_elem? paths i ≡ some path
      → IsIn (f m path) (zip_with f ms paths)
  ←zip_with [] paths m path i a b = absurd (none-some a)
  ←zip_with (m' ∷ ms) [] m path i a b = absurd (none-some b)
  ←zip_with (m' ∷ ms) (path' ∷ paths) m path zero a b = inl (ap₂ f (some_inj a) (some_inj b))
  ←zip_with (m' ∷ ms) (path' ∷ paths) m path (suc i) a b = inr (←zip_with ms paths m path i a b)

-- Every member of an archive has a path.
length-place_under :
    (folder : Text) (ms : List Member) (rest : Text → Text)
    → length (place_under folder ms rest) ≡ length ms
unfolding place_under
length-place_under folder [] rest = refl
length-place_under folder (m ∷ ms) rest = ap suc (length-place_under folder ms rest)

length-paths_alone :
    (beside : Text) (ms : List Member) (top : Option Text)
    → length (paths_alone beside ms top) ≡ length ms
unfolding paths_alone
length-paths_alone beside ms none = length-place_under beside ms _
length-paths_alone beside ms (some top) = length-place_under beside ms _

length-paths_in :
    (r : Text × Text) (alone : Bool) (ms : List Member) → length (paths_in r alone ms) ≡ length ms
unfolding paths_in paths_beside
length-paths_in (beside, name) true ms = length-paths_alone beside ms (common_top ms)
length-paths_in (beside, name) false ms =
    length-place_under
      (if is_some (common_top ms) || is_one_file ms then beside else join_path beside (stem name))
      ms (λ path. path)

pub length-unpacked_paths :
    (archive : Text) (alone : Bool) (ms : List Member)
    → length (unpacked_paths archive alone ms) ≡ length ms
unfolding unpacked_paths
length-unpacked_paths archive alone ms =
    length-paths_in (folder_and_name archive (rsplit_once b'/' archive)) alone ms
