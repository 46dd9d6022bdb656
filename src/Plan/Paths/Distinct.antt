-- ===== src/Plan/Paths/Distinct.antt =====
-- Two files of an archive never land on one path.
use fetchloom.Base.{
  suc, ◌≡◌, ◌≢◌, sym, ap, ap₂, subst, ◌∙◌, inl, inr, Bool, true, false, List, [], ◌∷◌, ◌++◌, map,
  Option, none, some, arith, ◌==◌, length, all, All, Bool-cases, Option-cases,
}
use fetchloom.Base.Text.{Text, split_once}
use fetchloom.Plan.Paths.{
  Member, rsplit_once, strip_prefix, skip, join_path, is_slash_first, sits_under, top_of,
  common_top, place_under, folder_and_name, paths_alone, paths_beside, paths_in, unpacked_paths,
}

-- No two texts of the list are equal.
abbrev pub AreDistinct : List Text → Type 0
AreDistinct [] = Unit
AreDistinct (s ∷ ss) = All (λ t. s ≢ t) ss × AreDistinct ss

append_cancel : (s t u : Text) → s ++ t ≡ s ++ u → t ≡ u
append_cancel [] t u e = e
append_cancel (c ∷ s) t u e = append_cancel s t u (tail_eq e)
  where
    tail_eq : c ∷ (s ++ t) ≡ c ∷ (s ++ u) → s ++ t ≡ s ++ u
    tail_eq h = cc

join_path_cancel : (folder s t : Text) → join_path folder s ≡ join_path folder t → s ≡ t
unfolding join_path
join_path_cancel [] s t e = e
join_path_cancel (c ∷ folder) s t e = after (append_cancel (c ∷ folder) (b'/' ∷ s) (b'/' ∷ t) e)
  where
    after : b'/' ∷ s ≡ b'/' ∷ t → s ≡ t
    after h = cc

-- A path under a folder is the folder, a slash, and what `skip` leaves of it.
strip_prefix_lem :
    (top path : Text)
    → is_slash_first (strip_prefix top path) ≡ true
    → path ≡ top ++ (b'/' ∷ skip (suc (length top)) path)
unfolding strip_prefix skip
strip_prefix_lem [] [] h = cc
strip_prefix_lem [] (c ∷ s) h = ground (arith, h)
strip_prefix_lem (c ∷ top) [] h = cc
strip_prefix_lem (c ∷ top) (d ∷ s) h = elim (Bool-cases (c == d)) [
  | inl e ↦ ap₂ (λ x y. x ∷ y) (ground (arith, e)) (strip_prefix_lem top s (rw e at h))
  | inr e ↦ no (rw e at h)
]
  where
    no : false ≡ true → d ∷ s ≡ c ∷ (top ++ (b'/' ∷ skip (suc (length top)) s))
    no x = cc

-- A placement that keeps apart the paths for which `P` holds.
module _ (folder : Text) (rest : Text → Text) (P : Text → Type 0)
    (keeps : (s t : Text) → P s → P t → rest s ≡ rest t → s ≡ t) where
  placed : Member → Text
  placed m = join_path folder (rest m.path)

  apart :
      (m : Member) (ms : List Member)
      → P m.path
      → All (λ m. P m.path) ms
      → All (λ t. m.path ≢ t) (map (λ m. m.path) ms)
      → All (λ t. join_path folder (rest m.path) ≢ t) (place_under folder ms rest)
  unfolding place_under
  apart m [] h k d = tt
  apart m (m' ∷ ms) h k d = (
    (λ e.
        d.0 (keeps m.path m'.path h k.0 (join_path_cancel folder (rest m.path) (rest m'.path) e))),
    apart m ms h k.1 d.1,
  )

  place_under-AreDistinct :
      (ms : List Member)
      → All (λ m. P m.path) ms
      → AreDistinct (map (λ m. m.path) ms)
      → AreDistinct (place_under folder ms rest)
  unfolding place_under
  place_under-AreDistinct [] h d = tt
  place_under-AreDistinct (m ∷ ms) h d =
      (apart m ms h.0 h.1 d.0, place_under-AreDistinct ms h.1 d.1)

unfoldable AreAny : List Member → Type 0
AreAny = All (λ _. Unit)

trivial : (ms : List Member) → AreAny ms
unfolding AreAny
trivial [] = tt
trivial (m ∷ ms) = (tt, trivial ms)

whole-AreDistinct :
    (folder : Text) (ms : List Member)
    → AreDistinct (map (λ m. m.path) ms)
    → AreDistinct (place_under folder ms (λ path. path))
unfolding AreAny
whole-AreDistinct folder ms =
    place_under-AreDistinct folder (λ path. path) (λ _. Unit) (λ s t _ _ e. e) ms (trivial ms)

-- What `common_top` finds holds every member.
unfoldable AreUnder : Text → List Member → Type 0
AreUnder top = All (λ m. is_slash_first (strip_prefix top m.path) ≡ true)

all-AreUnder : (top : Text) (ms : List Member) → all (sits_under top) ms ≡ true → AreUnder top ms
unfolding AreUnder sits_under
all-AreUnder top [] h = tt
all-AreUnder top (m ∷ ms) h = (ground (arith, h), all-AreUnder top ms (ground (arith, h)))

some_inj : {a b : Text} → some a ≡ some b → a ≡ b
some_inj e = cc

top_of-AreUnder :
    (o : Option (Text × Text)) (ms : List Member) (top : Text)
    → top_of o ms ≡ some top
    → AreUnder top ms
unfolding top_of
top_of-AreUnder none ms top = λ e. cc
top_of-AreUnder (some (t, _)) ms top = elim (Bool-cases (all (sits_under t) ms)) [
  | inl h ↦ rw h (λ e. subst (λ t. AreUnder t ms) (some_inj e) (all-AreUnder t ms h))
  | inr h ↦ rw h (λ e. no e)
]
  where
    no : none ≡ some top → AreUnder top ms
    no e = cc

common_top-AreUnder : (ms : List Member) (top : Text) → common_top ms ≡ some top → AreUnder top ms
unfolding common_top
common_top-AreUnder [] top e = cc
common_top-AreUnder (m ∷ ms) top e = top_of-AreUnder (split_once b'/' m.path) (m ∷ ms) top e

alone-AreDistinct :
    (beside : Text) (ms : List Member)
    → AreDistinct (map (λ m. m.path) ms)
    → AreDistinct (paths_alone beside ms (common_top ms))
unfolding paths_alone AreUnder
alone-AreDistinct beside ms d = elim (Option-cases (common_top ms)) [
  | inl e ↦ rw e (whole-AreDistinct beside ms d)
  | inr (top, e) ↦ rw e (
      place_under-AreDistinct beside (skip (suc (length top)))
        (λ s. is_slash_first (strip_prefix top s) ≡ true)
        (λ s t h k r.
          strip_prefix_lem top s h ∙ ap (λ u. top ++ (b'/' ∷ u)) r ∙ sym (strip_prefix_lem top t k))
        ms (common_top-AreUnder ms top e) d)
]

-- The files of an archive, whose paths differ, land on paths that differ, whatever folder is taken
-- off and whichever one is put in front.
pub unpacked_paths-AreDistinct :
    (archive : Text) (alone : Bool) (members : List Member)
    → AreDistinct (map (λ m. m.path) members)
    → AreDistinct (unpacked_paths archive alone members)
unfolding unpacked_paths paths_in paths_beside
unpacked_paths-AreDistinct archive true members d =
    alone-AreDistinct (folder_and_name archive (rsplit_once b'/' archive)).0 members d
unpacked_paths-AreDistinct archive false members d = whole-AreDistinct _ members d
