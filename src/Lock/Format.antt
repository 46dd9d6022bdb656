-- ===== src/Lock/Format.antt =====
-- src/project/lock.rs: `Lock` and `Lock::render`. A digest is the list of its bytes, and the order
-- of texts is that of their characters, which is that of their bytes in UTF-8.
use fetchloom.Base.{
  ℕ, zero, suc, ◌+◌, ◌-◌, ◌/◌, ◌%◌, Bool, true, false, List, [], ◌∷◌, ◌++◌, Option, none, some, ltb,
  ◌==◌, if◌then◌else◌,
}
use fetchloom.Base.Text.{Text, codes, is_control}
use fetchloom.Digest.{hex}

pub record LockedFile : Type 0 where
  pub path : Text
  pub size : ℕ
  pub sha256 : List ℕ
  pub md5 : Option (List ℕ)
  pub url : Text
  pub unpacks_to : Option (List ℕ)

pub record Locked : Type 0 where
  pub name : Text
  pub reference : Text
  pub spec : Text
  pub resolved : Text
  pub title : Option Text
  pub license : Option Text
  pub doi : Option Text
  pub timestamp : Text
  pub files : List LockedFile

-- `a < b` and `sort_by`, which is stable.
unfoldable pub text_less : Text → Text → Bool
text_less s [] = false
text_less [] (d ∷ t) = true
text_less (c ∷ s) (d ∷ t) = if c == d then text_less s t else ltb c d

module _ {A : Type 0} (key : A → Text) where
  unfoldable pub insert : A → List A → List A
  unfolding text_less
  insert a [] = a ∷ []
  insert a (b ∷ bs) = if text_less (key b) (key a) then b ∷ insert a bs else a ∷ b ∷ bs

  unfoldable pub sort_by : List A → List A
  unfolding insert
  sort_by [] = []
  sort_by (a ∷ as') = insert a (sort_by as')

-- The decimal digits of a number, on fuel.
unfoldable pub decimal_from : ℕ → ℕ → Text
decimal_from zero n = []
decimal_from (suc fuel) n =
    let more = decimal_from fuel (n / 10) in
    if ltb n 10 then (b'0' + n) ∷ [] else more ++ ((b'0' + n % 10) ∷ [])

unfoldable pub decimal : ℕ → Text
unfolding decimal_from
decimal n = decimal_from (suc n) n

-- `{:04X}` of a control character.
unfoldable pub upper_digit : ℕ → ℕ
upper_digit n = if ltb n 10 then b'0' + n else b'A' + (n - 10)

unfoldable pub escape_char : ℕ → Text
unfolding upper_digit
escape_char c =
    if c == b'"'
    then b'\\' ∷ b'"' ∷ []
    else if c == b'\\'
    then b'\\' ∷ b'\\' ∷ []
    else if c == 10
    then b'\\' ∷ b'n' ∷ []
    else if c == 9
    then b'\\' ∷ b't' ∷ []
    else if c == 13
    then b'\\' ∷ b'r' ∷ []
    else if is_control c
    then b'\\'
      ∷ b'u'
      ∷ upper_digit (c / 4096 % 16)
      ∷ upper_digit (c / 256 % 16)
      ∷ upper_digit (c / 16 % 16)
      ∷ upper_digit (c % 16)
      ∷ []
    else c ∷ []

unfoldable pub escape_all : Text → Text
unfolding escape_char
escape_all [] = []
escape_all (c ∷ s) = escape_char c ++ escape_all s

unfoldable pub quoted : Text → Text
unfolding escape_all
quoted s = b'"' ∷ (escape_all s ++ (b'"' ∷ []))

-- `write!` and `push_str` behind one another: each piece is put before what follows.
abbrev pub put_optional : (Text → Text → Text) → Option Text → Text → Text
put_optional put none rest = rest
put_optional put (some s) rest = put s rest

unfoldable pub put_value : Text → Text → Text → Text
unfolding quoted
put_value key value rest = key ++ (codes " = " ++ (quoted value ++ (10 ∷ rest)))

unfoldable pub put_md5 : Option (List ℕ) → Text → Text
unfolding hex
put_md5 none rest = rest
put_md5 (some md5) rest = codes ", md5 = " ++ (b'"' ∷ (hex md5 ++ (b'"' ∷ rest)))

unfoldable pub put_tree : Option (List ℕ) → Text → Text
unfolding hex
put_tree none rest = rest
put_tree (some tree) rest =
    codes ", unpacks_to = " ++ (b'"' ∷ ((codes "sha256:" ++ hex tree) ++ (b'"' ∷ rest)))

-- The fields of a file, which `rest` ends.
unfoldable pub put_fields : LockedFile → Text → Text
put_fields file rest =
    codes "  { path = "
    ++ (quoted file.path
        ++ (codes ", size = "
            ++ (decimal file.size
                ++ (codes ", sha256 = "
                    ++ (b'"'
                        ∷ (hex file.sha256
                            ++ (b'"'
                                ∷ put_md5 file.md5 (
                                    codes ", url = "
                                    ++ (quoted file.url ++ put_tree file.unpacks_to rest)))))))))

unfoldable pub put_file : LockedFile → Text → Text
put_file file rest = put_fields file (codes " }," ++ (10 ∷ rest))

unfoldable pub put_each : List LockedFile → Text → Text
put_each [] rest = codes "]" ++ (10 ∷ rest)
put_each (file ∷ files) rest = put_file file (put_each files rest)

unfoldable pub put_files : List LockedFile → Text → Text
put_files [] rest = codes "files = []" ++ (10 ∷ rest)
put_files (file ∷ files) rest = codes "files = [" ++ (10 ∷ put_each (file ∷ files) rest)

unfoldable pub put_dataset : Locked → Text → Text
put_dataset d rest =
    10
    ∷ (codes "[[dataset]]"
        ++ (10
            ∷ put_value (codes "name") d.name (
                put_value (codes "ref") d.reference (
                  put_value (codes "spec") d.spec (
                    put_value (codes "resolved") d.resolved (
                      put_optional (put_value (codes "title")) d.title (
                        put_optional (put_value (codes "license")) d.license (
                          put_optional (put_value (codes "doi")) d.doi (
                            put_value (codes "locked") d.timestamp
                              (put_files (sort_by (λ f. f.path) d.files) rest))))))))))

unfoldable pub put_datasets : List Locked → Text
put_datasets [] = []
put_datasets (d ∷ ds) = put_dataset d (put_datasets ds)

-- `Lock::render`.
unfoldable pub render : List Locked → Text
render datasets = codes "version = 1" ++ (10 ∷ put_datasets (sort_by (λ d. d.name) datasets))
