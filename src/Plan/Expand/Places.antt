-- ===== src/Plan/Expand/Places.antt =====
-- What `expand` places, and where.
use fetchloom.Base.{
  ℕ, ◌≡◌, ◌↔◌, refl, sym, subst, ◌∙◌, ◌⊎◌, inl, inr, Bool, List, [], ◌∷◌, Option, none, some, ◌==◌,
  length, Some, some_inj, none-some,
}
use fetchloom.Base.Text.{Text}
use fetchloom.Plan.Paths.{Member, join_path, unpacked_paths}
use fetchloom.Lock.Format.{LockedFile}
use fetchloom.Plan.Expand.{
  Target, Plan, zip_with, target, expand_archive, expand_file, expand_all, expand,
}
use fetchloom.Plan.Expand.Paired.{
  IsIn, IsIn-append→, ←IsIn-append, IsIn-one, IsPaired, zip_with→, ←zip_with, length-unpacked_paths,
}

module _ (dataset folder : Text) (copy : Bool) (members : LockedFile → Option (List Member)) where
  -- The target of these bytes at this path below the folder.
  abbrev placed : LockedFile → Text → List ℕ → ℕ → Target
  placed file path sha256 size = record {
    dataset = dataset;
    path = join_path folder path;
    sha256 = sha256;
    size = size;
    copy = copy;
    locked = file;
  }

  -- The targets of a locked file: the file itself, or each member of the archive at its path.
  pub data Places (alone : Bool) (t : Target) (file : LockedFile) : Type 0 where
    whole :
        file.unpacks_to ≡ none
        → placed file file.path file.sha256 file.size ≡ t
        → Places alone t file
    unpacked :
        (tree : List ℕ) (ms : List Member) (m : Member) (path : Text)
        → file.unpacks_to ≡ some tree
        → members file ≡ some ms
        → IsPaired ms (unpacked_paths file.path alone ms) m path
        → placed file path m.sha256 m.size ≡ t
        → Places alone t file

  -- An archive that was never unpacked here.
  pub record IsUnknown (file : LockedFile) : Type 0 where
    pub tree : List ℕ
    pub is_archive : file.unpacks_to ≡ some tree
    pub not_seen : members file ≡ none

  archive→ :
      (p : Plan) (alone : Bool) (file : LockedFile) (tree : List ℕ) (o : Option (List Member))
      (t : Target)
      → file.unpacks_to ≡ some tree
      → members file ≡ o
      → IsIn t (expand_archive dataset folder copy members p alone file o).targets
      → IsIn t p.targets ⊎ Places alone t file
  unfolding expand_archive target
  archive→ p alone file tree none t e k h = inl h
  archive→ p alone file tree (some ms) t e k h = elim (IsIn-append→ t p.targets _ h) [
    | inl i ↦ inl i
    | inr i ↦
        let (m, path, pair, q) = zip_with→ _ t ms (unpacked_paths file.path alone ms) i in
        inr (unpacked tree ms m path e k pair q)
  ]

  file→ :
      (p : Plan) (alone : Bool) (file : LockedFile) (o : Option (List ℕ)) (t : Target)
      → file.unpacks_to ≡ o
      → IsIn t (expand_file dataset folder copy members p alone file o).targets
      → IsIn t p.targets ⊎ Places alone t file
  unfolding expand_file target
  file→ p alone file none t e h = elim (IsIn-append→ t p.targets _ h) [
    | inl i ↦ inl i
    | inr i ↦ inr (whole e (IsIn-one t _ i))
  ]
  file→ p alone file (some tree) t e h = archive→ p alone file tree (members file) t e refl h

  ←archive :
      (p : Plan) (alone : Bool) (file : LockedFile) (tree : List ℕ) (o : Option (List Member))
      (t : Target)
      → file.unpacks_to ≡ some tree
      → members file ≡ o
      → IsIn t p.targets ⊎ Places alone t file
      → IsIn t (expand_archive dataset folder copy members p alone file o).targets
  unfolding expand_archive target
  ←archive p alone file tree none t e k (inl h) = h
  ←archive p alone file tree (some ms) t e k (inl h) = ←IsIn-append t p.targets _ (inl h)
  ←archive p alone file tree o t e k (inr (whole e' q)) = absurd (none-some (sym e' ∙ e))
  ←archive p alone file tree none t e k (inr (unpacked tree' ms m path e' k' pair q)) =
      absurd (none-some (sym k ∙ k'))
  ←archive p alone file tree (some ms') t e k (inr (unpacked tree' ms m path e' k' pair q)) =
      let same = some_inj (sym k' ∙ k) in
      ←IsIn-append t p.targets _ (
        inr (
          subst
            (λ x. IsIn t (
              zip_with (λ m path. target dataset folder copy members file path m.sha256 m.size) x
                (unpacked_paths file.path alone x)))
            same
            (subst
              (λ x. IsIn x (
                zip_with (λ m path. target dataset folder copy members file path m.sha256 m.size) ms
                  (unpacked_paths file.path alone ms)))
              q (←zip_with _ ms (unpacked_paths file.path alone ms) m path pair.0 pair.1 pair.2))))

  ←file :
      (p : Plan) (alone : Bool) (file : LockedFile) (o : Option (List ℕ)) (t : Target)
      → file.unpacks_to ≡ o
      → IsIn t p.targets ⊎ Places alone t file
      → IsIn t (expand_file dataset folder copy members p alone file o).targets
  unfolding expand_file target
  ←file p alone file none t e (inl h) = ←IsIn-append t p.targets _ (inl h)
  ←file p alone file none t e (inr (whole e' q)) = ←IsIn-append t p.targets _ (inr (inl q))
  ←file p alone file none t e (inr (unpacked tree ms m path e' k pair q)) =
      absurd (none-some (sym e ∙ e'))
  ←file p alone file (some tree) t e h = ←archive p alone file tree (members file) t e refl h

  all→ :
      (p : Plan) (alone : Bool) (files : List LockedFile) (t : Target)
      → IsIn t (expand_all dataset folder copy members p alone files).targets
      → IsIn t p.targets ⊎ Some (Places alone t) files
  unfolding expand_all
  all→ p alone [] t h = inl h
  all→ p alone (file ∷ files) t h =
      elim (all→ (expand_file dataset folder copy members p alone file file.unpacks_to) alone files
        t h) [
          | inl i ↦ elim (file→ p alone file file.unpacks_to t refl i) [
            | inl j ↦ inl j
            | inr j ↦ inr (inl j)
          ]
          | inr i ↦ inr (inr i)
        ]

  ←all :
      (p : Plan) (alone : Bool) (files : List LockedFile) (t : Target)
      → IsIn t p.targets ⊎ Some (Places alone t) files
      → IsIn t (expand_all dataset folder copy members p alone files).targets
  unfolding expand_all
  ←all p alone [] t (inl h) = h
  ←all p alone [] t (inr h) = absurd h
  ←all p alone (file ∷ files) t (inr (inr h)) =
      ←all (expand_file dataset folder copy members p alone file file.unpacks_to) alone files t
        (inr h)
  ←all p alone (file ∷ files) t (inr (inl h)) =
      ←all (expand_file dataset folder copy members p alone file file.unpacks_to) alone files t
        (inl (←file p alone file file.unpacks_to t refl (inr h)))
  ←all p alone (file ∷ files) t (inl h) =
      ←all (expand_file dataset folder copy members p alone file file.unpacks_to) alone files t
        (inl (←file p alone file file.unpacks_to t refl (inl h)))

  -- The archives of which nothing is known.
  archive_unknown :
      (p : Plan) (alone : Bool) (file : LockedFile) (tree : List ℕ) (o : Option (List Member))
      (x : Text × LockedFile)
      → file.unpacks_to ≡ some tree
      → members file ≡ o
      → IsIn x (expand_archive dataset folder copy members p alone file o).unknown
        ↔ (IsIn x p.unknown ⊎ (((dataset, file) ≡ x) × IsUnknown file))
  unfolding expand_archive
  archive_unknown p alone file tree none x e k = (
    λ h. elim (IsIn-append→ x p.unknown _ h) [
      | inl i ↦ inl i
      | inr i ↦ inr (IsIn-one x _ i, record { tree = tree; is_archive = e; not_seen = k })
    ],
    λ h. elim h [
      | inl i ↦ ←IsIn-append x p.unknown _ (inl i)
      | inr i ↦ ←IsIn-append x p.unknown _ (inr (inl i.0))
    ],
  )
  archive_unknown p alone file tree (some ms) x e k =
      (λ h. inl h, λ h. elim h [ inl i ↦ i | inr i ↦ absurd (none-some (sym i.1.not_seen ∙ k)) ])

  file_unknown :
      (p : Plan) (alone : Bool) (file : LockedFile) (o : Option (List ℕ)) (x : Text × LockedFile)
      → file.unpacks_to ≡ o
      → IsIn x (expand_file dataset folder copy members p alone file o).unknown
        ↔ (IsIn x p.unknown ⊎ (((dataset, file) ≡ x) × IsUnknown file))
  unfolding expand_file
  file_unknown p alone file none x e =
      (λ h. inl h, λ h. elim h [ inl i ↦ i | inr i ↦ absurd (none-some (sym e ∙ i.1.is_archive)) ])
  file_unknown p alone file (some tree) x e =
      archive_unknown p alone file tree (members file) x e refl

  all_unknown :
      (p : Plan) (alone : Bool) (files : List LockedFile) (x : Text × LockedFile)
      → IsIn x (expand_all dataset folder copy members p alone files).unknown
        ↔ (IsIn x p.unknown ⊎ Some (λ file. ((dataset, file) ≡ x) × IsUnknown file) files)
  unfolding expand_all
  all_unknown p alone [] x = (λ h. inl h, λ h. elim h [ inl i ↦ i | inr i ↦ absurd i ])
  all_unknown p alone (file ∷ files) x =
      let rest =
        all_unknown (expand_file dataset folder copy members p alone file file.unpacks_to) alone
          files x in
      let one = file_unknown p alone file file.unpacks_to x refl in
      (
        λ h. elim (rest.0 h) [
          | inl i ↦ elim (one.0 i) [ inl j ↦ inl j | inr j ↦ inr (inl j) ]
          | inr i ↦ inr (inr i)
        ],
        λ h. elim h [
          | inl i ↦ rest.1 (inl (one.1 (inl i)))
          | inr i ↦ elim i [ inl j ↦ rest.1 (inl (one.1 (inr j))) | inr j ↦ rest.1 (inr j) ]
        ],
      )

  -- The targets of the plan that `expand` leaves are those that it had and, for each file, the file
  -- at its path below the folder, or each member of an archive that is known at its own path, of
  -- which there are as many as members. The unknown archives are those that the plan had and each
  -- archive of which no members are known.
  pub expand-Places :
      (p : Plan) (files : List LockedFile)
      → ((t : Target)
          → IsIn t (expand dataset folder copy members p files).targets
            ↔ (IsIn t p.targets ⊎ Some (Places (length files == 1) t) files))
        × ((archive : Text) (ms : List Member)
            → length (unpacked_paths archive (length files == 1) ms) ≡ length ms)
        × ((x : Text × LockedFile)
            → IsIn x (expand dataset folder copy members p files).unknown
              ↔ (IsIn x p.unknown ⊎ Some (λ file. ((dataset, file) ≡ x) × IsUnknown file) files))
  unfolding expand
  expand-Places p files = (
    λ t. (all→ p (length files == 1) files t, ←all p (length files == 1) files t),
    λ archive ms. length-unpacked_paths archive (length files == 1) ms,
    λ x. all_unknown p (length files == 1) files x,
  )
