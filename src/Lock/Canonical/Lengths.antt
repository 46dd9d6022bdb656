-- ===== src/Lock/Canonical/Lengths.antt =====
-- The loops of the reader have the fuel that they need: every file and every dataset that is
-- written takes some text.
use fetchloom.Base.{
  ℕ, suc, ◌≤◌, List, [], ◌∷◌, ◌++◌, Option, none, some, arith, length, length-append,
}
use fetchloom.Base.Text.{Text, codes}
use fetchloom.Digest.{hex}
use fetchloom.Lock.Format.{
  LockedFile, Locked, sort_by, quoted, decimal, put_md5, put_tree, put_optional, put_value,
  put_fields, put_file, put_each, put_files, put_dataset, put_datasets,
}

record IsAsLong (n : ℕ) (text : Text) : Type 0 where
  fits : n ≤ length text

IsAsLong-append : (a : Text) {t : Text} {n : ℕ} → IsAsLong n t → IsAsLong n (a ++ t)
IsAsLong-append a {t} h = record { fits = omega (arith, h.fits, length-append a t) }

IsAsLong-cons : (c : ℕ) {t : Text} {n : ℕ} → IsAsLong n t → IsAsLong (suc n) (c ∷ t)
IsAsLong-cons c h = record { fits = omega (arith, h.fits) }

le_weak : {t : Text} {n : ℕ} → IsAsLong (suc n) t → IsAsLong n t
le_weak h = record { fits = omega (arith, h.fits) }

IsAsLong-put_md5 :
    (o : Option (List ℕ)) {t : Text} {n : ℕ} → IsAsLong n t → IsAsLong n (put_md5 o t)
unfolding put_md5
IsAsLong-put_md5 none h = h
IsAsLong-put_md5 (some md5) h =
    IsAsLong-append (codes ", md5 = ")
      (le_weak (IsAsLong-cons b'"' (IsAsLong-append (hex md5) (le_weak (IsAsLong-cons b'"' h)))))

IsAsLong-put_tree :
    (o : Option (List ℕ)) {t : Text} {n : ℕ} → IsAsLong n t → IsAsLong n (put_tree o t)
unfolding put_tree
IsAsLong-put_tree none h = h
IsAsLong-put_tree (some tree) h = IsAsLong-append (codes ", unpacks_to = ") (
    le_weak (
      IsAsLong-cons b'"'
        (IsAsLong-append (codes "sha256:" ++ hex tree) (le_weak (IsAsLong-cons b'"' h)))))

IsAsLong-put_file :
    (file : LockedFile) {t : Text} {n : ℕ} → IsAsLong n t → IsAsLong (suc n) (put_file file t)
unfolding put_file put_fields
IsAsLong-put_file file h = IsAsLong-append (codes "  { path = ") (
    IsAsLong-append (quoted file.path) (
      IsAsLong-append (codes ", size = ") (
        IsAsLong-append (decimal file.size) (
          IsAsLong-append (codes ", sha256 = ") (
            le_weak (
              IsAsLong-cons b'"' (
                IsAsLong-append (hex file.sha256) (
                  le_weak (
                    IsAsLong-cons b'"' (
                      IsAsLong-put_md5 file.md5 (
                        IsAsLong-append (codes ", url = ") (
                          IsAsLong-append (quoted file.url) (
                            IsAsLong-put_tree file.unpacks_to
                              (IsAsLong-append (codes " },") (IsAsLong-cons 10 h)))))))))))))))

pub length-put_each :
    (files : List LockedFile) (rest : Text) → length files ≤ length (put_each files rest)
unfolding put_each
length-put_each [] rest = omega arith
length-put_each (file ∷ files) rest =
    (IsAsLong-put_file file (record { fits = length-put_each files rest })).fits

IsAsLong-put_each :
    (files : List LockedFile) {t : Text} {n : ℕ} → IsAsLong n t → IsAsLong n (put_each files t)
unfolding put_each
IsAsLong-put_each [] h = IsAsLong-append (codes "]") (le_weak (IsAsLong-cons 10 h))
IsAsLong-put_each (file ∷ files) h = le_weak (IsAsLong-put_file file (IsAsLong-put_each files h))

IsAsLong-put_files :
    (files : List LockedFile) {t : Text} {n : ℕ} → IsAsLong n t → IsAsLong n (put_files files t)
unfolding put_files
IsAsLong-put_files [] h = IsAsLong-append (codes "files = []") (le_weak (IsAsLong-cons 10 h))
IsAsLong-put_files (file ∷ files) h =
    IsAsLong-append (codes "files = [")
      (le_weak (IsAsLong-cons 10 (IsAsLong-put_each (file ∷ files) h)))

IsAsLong-put_value :
    (key v : Text) {t : Text} {n : ℕ} → IsAsLong n t → IsAsLong n (put_value key v t)
unfolding put_value
IsAsLong-put_value key v h =
    IsAsLong-append key
      (IsAsLong-append (codes " = ") (IsAsLong-append (quoted v) (le_weak (IsAsLong-cons 10 h))))

IsAsLong-put_optional :
    (key : Text) (o : Option Text) {t : Text} {n : ℕ}
    → IsAsLong n t
    → IsAsLong n (put_optional (put_value key) o t)
IsAsLong-put_optional key none h = h
IsAsLong-put_optional key (some v) h = IsAsLong-put_value key v h

IsAsLong-put_dataset :
    (d : Locked) {t : Text} {n : ℕ} → IsAsLong n t → IsAsLong (suc n) (put_dataset d t)
unfolding put_dataset
IsAsLong-put_dataset d h = IsAsLong-cons 10 (
    IsAsLong-append (codes "[[dataset]]") (
      le_weak (
        IsAsLong-cons 10 (
          IsAsLong-put_value (codes "name") d.name (
            IsAsLong-put_value (codes "ref") d.reference (
              IsAsLong-put_value (codes "spec") d.spec (
                IsAsLong-put_value (codes "resolved") d.resolved (
                  IsAsLong-put_optional (codes "title") d.title (
                    IsAsLong-put_optional (codes "license") d.license (
                      IsAsLong-put_optional (codes "doi") d.doi (
                        IsAsLong-put_value (codes "locked") d.timestamp
                          (IsAsLong-put_files (sort_by (λ f. f.path) d.files) h))))))))))))

pub length-put_datasets : (ds : List Locked) → length ds ≤ length (put_datasets ds)
unfolding put_datasets
length-put_datasets [] = omega arith
length-put_datasets (d ∷ ds) =
    (IsAsLong-put_dataset d (record { fits = length-put_datasets ds })).fits
