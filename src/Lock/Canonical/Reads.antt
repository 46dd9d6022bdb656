-- ===== src/Lock/Canonical/Reads.antt =====
-- The fast reader takes back what `render` writes.
use fetchloom.Base.{
  ℕ, zero, suc, ◌<◌, ◌≡◌, refl, ap, ◌∙◌, Bool, true, false, ◌&&◌, List, [], ◌∷◌, ◌++◌, Option, none,
  some, arith, all, All, length,
}
use fetchloom.Base.Text.{Text, codes, split_once, text_eq, text_eq_refl}
use fetchloom.Plan.Paths.{strip_prefix}
use fetchloom.Lock.Format.{
  LockedFile, Locked, quoted, put_optional, put_value, put_fields, put_each, put_files, put_dataset,
  put_datasets, render,
}
use fetchloom.Lock.Tokens.{when, next, sets, optional, starts}
use fetchloom.Lock.Canonical.{is_safe, read_files, files_after, read_dataset, read_datasets, read}
use fetchloom.Lock.Canonical.Lengths.{length-put_each, length-put_datasets}
use fetchloom.Lock.Canonical.Lines.{
  stays, strip_prefix-append, IsLine-append, IsLine-last, next-IsLine, value-put_value,
}
use fetchloom.Lock.Canonical.Files.{CanBeWritten, bind_step, read_file-put_fields, IsLine-put_file}
use fetchloom.Lock.Canonical.Sorted.{IsAscending, sort_by-IsAscending}

pub record IsFile (file : LockedFile) : Type 0 where
  pub safe : is_safe file.path ≡ true
  pub written : CanBeWritten file

-- A dataset as a lock keeps it: its files in the order of their paths, each below its folder.
pub record IsDataset (d : Locked) : Type 0 where
  pub ascend : IsAscending (λ f. f.path) none d.files
  pub each : All IsFile d.files

-- A lock: datasets in the order of their names.
pub record IsLock (datasets : List Locked) : Type 0 where
  pub ascend : IsAscending (λ d. d.name) none datasets
  pub each : All IsDataset datasets

bracket_line : (rest : Text) → next (codes "]" ++ (10 ∷ rest)) ≡ some (codes "]", rest)
bracket_line rest = next-IsLine _ _ rest (IsLine-last b']' rest refl refl)

no_bracket : (file : LockedFile) → text_eq (put_fields file (codes " },")) (codes "]") ≡ false
unfolding put_fields text_eq
no_bracket file = refl

both : (a b : Bool) → a ≡ true → b ≡ true → (a && b) ≡ true
both a b h k = ground (arith, h, k)

read_files-put_each :
    (fuel : ℕ) (last : Option Text) (files : List LockedFile) (rest : Text)
    → length files < fuel
    → IsAscending (λ f. f.path) last files
    → All IsFile files
    → read_files fuel last (put_each files rest) ≡ some (files, rest)
unfolding read_files put_each
read_files-put_each zero last files rest n a h = absurd (omega (arith, n))
read_files-put_each (suc fuel) last [] rest n a h =
    bind_step (bracket_line rest) _ (rw (text_eq_refl (codes "]")) refl)
read_files-put_each (suc fuel) last (file ∷ files) rest n a h =
    bind_step (next-IsLine _ _ _ (IsLine-put_file file (put_each files rest) h.0.written)) _ (
      rw (no_bracket file) (
        bind_step (read_file-put_fields file h.0.written) _ (
          bind_step (ap when (both _ _ a.0 h.0.safe)) _ (
            bind_step
              (read_files-put_each fuel (some file.path) files rest (omega (arith, n)) a.1 h.1) _
              refl))))

abbrev opening : List LockedFile → Text
opening [] = codes "files = []"
opening (file ∷ files) = codes "files = ["

abbrev after_opening : List LockedFile → Text → Text
after_opening [] rest = rest
after_opening (file ∷ files) rest = put_each (file ∷ files) rest

next-put_files :
    (files : List LockedFile) (rest : Text)
    → next (put_files files rest) ≡ some (opening files, after_opening files rest)
unfolding put_files
next-put_files [] rest =
    next-IsLine _ _ _
      (IsLine-append (codes "files = [") _ _ rest refl (IsLine-last b']' rest refl refl))
next-put_files (file ∷ files) rest =
    next-IsLine _ _ _ (IsLine-append (codes "files = ") _ _ _ refl (IsLine-last b'[' _ refl refl))

files_after-put_files :
    (files : List LockedFile) (rest : Text)
    → IsAscending (λ f. f.path) none files
    → All IsFile files
    → files_after (opening files) (after_opening files rest) ≡ some (files, rest)
unfolding text_eq
files_after-put_files [] rest a h = refl
files_after-put_files (file ∷ files) rest a h =
    read_files-put_each _ none (file ∷ files) rest
      (omega (arith, length-put_each (file ∷ files) rest)) a h

abbrev OptionalRead : Type 0
OptionalRead = Option (Option Text × Text)

sets-put_value : (key v rest : Text) → sets key (put_value key v rest) ≡ true
unfolding sets put_value
sets-put_value key v rest =
    ap (starts (codes " = ")) (strip_prefix-append key (codes " = " ++ (quoted v ++ (10 ∷ rest))))
    ∙ ap (λ (o : Option Text). elim o [ none ↦ false | some _ ↦ true ])
        (strip_prefix-append (codes " = ") (quoted v ++ (10 ∷ rest)))

optional-put_optional :
    (key : Text) (o : Option Text) (rest : Text)
    → all stays key ≡ true
    → sets key rest ≡ false
    → ◌≡◌ {A = OptionalRead} (optional key (put_optional (put_value key) o rest)) (some (o, rest))
unfolding optional
optional-put_optional key none rest h k = rw k refl
optional-put_optional key (some v) rest h k =
    rw (sets-put_value key v rest, value-put_value key v rest h) refl

-- None of the optional keys is the next one.
sets_other :
    (key other v rest : Text)
    → ((x : Text) → strip_prefix key (other ++ x) ≡ none)
    → sets key (put_value other v rest) ≡ false
unfolding sets put_value
sets_other key other v rest h = rw (h (codes " = " ++ (quoted v ++ (10 ∷ rest)))) refl

module _ (rest : Text) (timestamp : Text) where
  abbrev from_locked : Text
  from_locked = put_value (codes "locked") timestamp rest

  abbrev from_doi : Option Text → Text
  from_doi doi = put_optional (put_value (codes "doi")) doi from_locked

  abbrev from_license : Option Text → Option Text → Text
  from_license license doi = put_optional (put_value (codes "license")) license (from_doi doi)

  no_doi : sets (codes "doi") from_locked ≡ false
  unfolding strip_prefix
  no_doi = sets_other (codes "doi") (codes "locked") timestamp rest (λ x. refl)

  no_license : (doi : Option Text) → sets (codes "license") (from_doi doi) ≡ false
  unfolding strip_prefix
  no_license none = sets_other (codes "license") (codes "locked") timestamp rest (λ x. refl)
  no_license (some v) = sets_other (codes "license") (codes "doi") v from_locked (λ x. refl)

  no_title : (license doi : Option Text) → sets (codes "title") (from_license license doi) ≡ false
  unfolding strip_prefix
  no_title none none = sets_other (codes "title") (codes "locked") timestamp rest (λ x. refl)
  no_title none (some v) = sets_other (codes "title") (codes "doi") v from_locked (λ x. refl)
  no_title (some v) doi = sets_other (codes "title") (codes "license") v (from_doi doi) (λ x. refl)

abbrev DatasetRead : Type 0
DatasetRead = Option (Locked × Text)

abbrev put_body : Locked → Text → Text
put_body d rest = put_value (codes "name") d.name (
    put_value (codes "ref") d.reference (
      put_value (codes "spec") d.spec (
        put_value (codes "resolved") d.resolved (
          put_optional (put_value (codes "title")) d.title
            (from_license (put_files d.files rest) d.timestamp d.license d.doi)))))

read_dataset-put_body :
    (d : Locked) (rest : Text)
    → IsDataset d
    → ◌≡◌ {A = DatasetRead} (read_dataset (put_body d rest)) (some (d, rest))
unfolding read_dataset
read_dataset-put_body d rest h =
    let files = put_files d.files rest in
    bind_step (value-put_value (codes "name") d.name _ refl) _ (
      bind_step (value-put_value (codes "ref") d.reference _ refl) _ (
        bind_step (value-put_value (codes "spec") d.spec _ refl) _ (
          bind_step (value-put_value (codes "resolved") d.resolved _ refl) _ (
            bind_step
              (optional-put_optional (codes "title") d.title _ refl
                (no_title files d.timestamp d.license d.doi))
              _
              (bind_step
                (optional-put_optional (codes "license") d.license _ refl
                  (no_license files d.timestamp d.doi))
                _
                (bind_step
                  (optional-put_optional (codes "doi") d.doi _ refl (no_doi files d.timestamp)) _
                  (bind_step (value-put_value (codes "locked") d.timestamp files refl) _ (
                    bind_step (next-put_files d.files rest) _ (
                      bind_step (files_after-put_files d.files rest h.ascend h.each) _ refl)))))))))

put_dataset-IsDataset :
    (d : Locked) (rest : Text)
    → IsDataset d
    → put_dataset d rest ≡ 10 ∷ (codes "[[dataset]]" ++ (10 ∷ put_body d rest))
unfolding put_dataset
put_dataset-IsDataset d rest h =
    ap
      (λ files.
        10
        ∷ (codes "[[dataset]]"
            ++ (10
                ∷ put_value (codes "name") d.name (
                    put_value (codes "ref") d.reference (
                      put_value (codes "spec") d.spec (
                        put_value (codes "resolved") d.resolved (
                          put_optional (put_value (codes "title")) d.title
                            (from_license (put_files files rest) d.timestamp d.license d.doi))))))))
      (sort_by-IsAscending (λ f. f.path) none d.files h.ascend)

blank_line : (rest : Text) → next (10 ∷ rest) ≡ some ([], rest)
unfolding next split_once
blank_line rest = refl

header_line :
    (rest : Text) → next (codes "[[dataset]]" ++ (10 ∷ rest)) ≡ some (codes "[[dataset]]", rest)
header_line rest =
    next-IsLine _ _ rest
      (IsLine-append (codes "[[dataset]") _ _ rest refl (IsLine-last b']' rest refl refl))

version_line :
    (rest : Text) → next (codes "version = 1" ++ (10 ∷ rest)) ≡ some (codes "version = 1", rest)
version_line rest =
    next-IsLine _ _ rest
      (IsLine-append (codes "version = ") _ _ rest refl (IsLine-last b'1' rest refl refl))

read_datasets-put_datasets :
    (fuel : ℕ) (last : Option Text) (datasets : List Locked)
    → length datasets < fuel
    → IsAscending (λ d. d.name) last datasets
    → All IsDataset datasets
    → read_datasets fuel last (put_datasets datasets) ≡ some datasets
unfolding read_datasets put_datasets
read_datasets-put_datasets zero last datasets n a h = absurd (omega (arith, n))
read_datasets-put_datasets (suc fuel) last [] n a h = refl
read_datasets-put_datasets (suc fuel) last (d ∷ datasets) n a h =
    ap (read_datasets (suc fuel) last) (put_dataset-IsDataset d (put_datasets datasets) h.0)
    ∙ bind_step (blank_line _) _ (
        bind_step (header_line _) _ (
          bind_step (ap when (text_eq_refl (codes "[[dataset]]"))) _ (
            bind_step (read_dataset-put_body d (put_datasets datasets) h.0) _ (
              bind_step (ap when a.0) _ (
                bind_step
                  (read_datasets-put_datasets fuel (some d.name) datasets (omega (arith, n)) a.1
                    h.1)
                  _ refl)))))

-- `read` of what `render` wrote for a lock whose datasets and files are in order, whose paths stay
-- inside their folders and whose sizes and digests can be written is that lock.
pub read-render :
    (datasets : List Locked) → IsLock datasets → read (render datasets) ≡ some datasets
unfolding read render
read-render datasets h =
    ap (λ sorted. read (codes "version = 1" ++ (10 ∷ put_datasets sorted)))
      (sort_by-IsAscending (λ d. d.name) none datasets h.ascend)
    ∙ bind_step (version_line _) _ (
        bind_step (ap when (text_eq_refl (codes "version = 1"))) _ (
          read_datasets-put_datasets _ none datasets (omega (arith, length-put_datasets datasets))
            h.ascend h.each))
