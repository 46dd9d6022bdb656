-- ===== src/Lock/Canonical/Files.antt =====
-- The reader takes back the lines of files that were written.
use fetchloom.Base.{
  ℕ, ◌/◌, ◌%◌, ◌≤◌, ◌<◌, ◌≡◌, refl, ap, ◌∙◌, Bool, true, List, [], ◌∷◌, ◌++◌, Option, none, some,
  arith, all, All, length,
}
use fetchloom.Base.Text.{Text, codes, is_control, is_digit, text_eq_refl}
use fetchloom.Digest.{hex, digit}
use fetchloom.Digest.Reads.{IsByte, from_hex-hex}
use fetchloom.Plan.Paths.{strip_prefix}
use fetchloom.Lock.Format.{LockedFile, decimal, put_md5, put_tree, put_fields, put_file}
use fetchloom.Lock.Tokens.{◌>>=◌, when, ◌>>◌, string}
use fetchloom.Lock.Canonical.{i64_max, sized, read_size, md5_from, tree_from, read_file}
use fetchloom.Lock.Canonical.Strings.{is_plain, string-quoted, string-is_plain}
use fetchloom.Lock.Canonical.Decimals.{integer-decimal, span_digits-decimal, digits-decimal}
use fetchloom.Lock.Canonical.Lines.{
  stays, IsLine, IsLine-append, IsLine-quoted, IsLine-last, strip_prefix-append,
}

abbrev pub IsDigest : ℕ → List ℕ → Type 0
IsDigest n bytes = (length bytes ≡ n) × All IsByte bytes

abbrev pub IsDigestIfSome : ℕ → Option (List ℕ) → Type 0
IsDigestIfSome n none = Unit {0}
IsDigestIfSome n (some bytes) = IsDigest n bytes

-- A file that can be written: digests of 32 and 16 bytes, and a size that TOML allows.
pub record CanBeWritten (file : LockedFile) : Type 0 where
  pub size_fits : file.size ≤ i64_max
  pub sha256_is : IsDigest 32 file.sha256
  pub md5_is : IsDigestIfSome 16 file.md5
  pub tree_is : IsDigestIfSome 32 file.unpacks_to

is_plain-digit : (n : ℕ) → n < 16 → is_plain (digit n) ≡ true
unfolding digit is_control
is_plain-digit n h = ground (arith, h)

div_lt : (b : ℕ) → b < 256 → b / 16 < 16
div_lt b h = omega (arith, h)

mod_lt : (b : ℕ) → b % 16 < 16
mod_lt b = omega arith

is_plain-hex : (bytes : List ℕ) → All IsByte bytes → all is_plain (hex bytes) ≡ true
unfolding hex
is_plain-hex [] h = refl
is_plain-hex (b ∷ bytes) h =
    rw
      (
        is_plain-digit (b / 16) (div_lt b h.0),
        is_plain-digit (b % 16) (mod_lt b),
        is_plain-hex bytes h.1,
      )
      refl

string-hex :
    (n : ℕ) (bytes : List ℕ) (rest : Text)
    → IsDigest n bytes
    → string (b'"' ∷ (hex bytes ++ (b'"' ∷ rest))) ≡ some (hex bytes, rest)
string-hex n bytes rest h = string-is_plain (hex bytes) rest (is_plain-hex bytes h.1)

all-append : (p : ℕ → Bool) (s t : Text) → all p s ≡ true → all p t ≡ true → all p (s ++ t) ≡ true
all-append p [] t h k = k
all-append p (c ∷ s) t h k = ground (arith, all-append p s t, h, k)

string-tree :
    (bytes : List ℕ) (rest : Text)
    → IsDigest 32 bytes
    → string (b'"' ∷ ((codes "sha256:" ++ hex bytes) ++ (b'"' ∷ rest)))
      ≡ some (codes "sha256:" ++ hex bytes, rest)
unfolding is_control
string-tree bytes rest h =
    string-is_plain (codes "sha256:" ++ hex bytes) rest
      (all-append is_plain (codes "sha256:") (hex bytes) prefix_plain (is_plain-hex bytes h.1))
  where
    prefix_plain : all is_plain (codes "sha256:") ≡ true
    prefix_plain = refl

abbrev Md5Read : Type 0
Md5Read = Option (Option (List ℕ) × Text)

read_md5 :
    (t : Text) (o : Option (List ℕ))
    → strip_prefix (codes ", md5 = ") t ≡ none
    → IsDigestIfSome 16 o
    → ◌≡◌ {A = Md5Read}
        (md5_from (put_md5 o t) (strip_prefix (codes ", md5 = ") (put_md5 o t)))
        (some (o, t))
unfolding put_md5
read_md5 t none e h = rw e refl
read_md5 t (some md5) e h =
    rw
      (
        strip_prefix-append (codes ", md5 = ") (b'"' ∷ (hex md5 ++ (b'"' ∷ t))),
        string-hex 16 md5 t h,
        from_hex-hex 16 md5 h.0 h.1,
      )
      refl

read_tree :
    (t : Text) (o : Option (List ℕ))
    → strip_prefix (codes ", unpacks_to = ") t ≡ none
    → IsDigestIfSome 32 o
    → ◌≡◌ {A = Md5Read}
        (tree_from (put_tree o t) (strip_prefix (codes ", unpacks_to = ") (put_tree o t)))
        (some (o, t))
unfolding put_tree
read_tree t none e h = rw e refl
read_tree t (some tree) e h =
    rw
      (
        strip_prefix-append (codes ", unpacks_to = ")
            (b'"' ∷ ((codes "sha256:" ++ hex tree) ++ (b'"' ∷ t))),
        string-tree tree t h,
        strip_prefix-append (codes "sha256:") (hex tree),
        from_hex-hex 32 tree h.0 h.1,
      )
      refl

pub bind_step {ℓ κ} :
    {A : Type ℓ} {B : Type κ} {o : Option A} {a : A} {r : Option B}
    → o ≡ some a
    → (f : A → Option B) → f a ≡ r
    → (o >>= f) ≡ r
bind_step e f k = ap (λ o. o >>= f) e ∙ k

sized-decimal : (n : ℕ) (t : Text) → n ≤ i64_max → sized (decimal n, b',' ∷ t) ≡ some (n, b',' ∷ t)
unfolding sized
sized-decimal n t h = rw (integer-decimal n h) refl

read_size-decimal :
    (n : ℕ) (t : Text) → n ≤ i64_max → read_size (decimal n ++ (b',' ∷ t)) ≡ some (n, b',' ∷ t)
unfolding read_size
read_size-decimal n t h = rw (span_digits-decimal n b',' t refl) (sized-decimal n t h)

no_md5 : (t : Text) → strip_prefix (codes ", md5 = ") (codes ", url = " ++ t) ≡ none
unfolding strip_prefix
no_md5 t = refl

no_tree : strip_prefix (codes ", unpacks_to = ") (codes " },") ≡ none
unfolding strip_prefix
no_tree = refl

-- A line that was written reads as the file.
pub read_file-put_fields :
    (file : LockedFile) → CanBeWritten file → read_file (put_fields file (codes " },")) ≡ some file
unfolding read_file put_fields
read_file-put_fields file w = bind_step (strip_prefix-append (codes "  { path = ") _) _ (
    bind_step (string-quoted file.path _) _ (
      bind_step (strip_prefix-append (codes ", size = ") _) _ (
        bind_step (read_size-decimal file.size _ w.size_fits) _ (
          bind_step (strip_prefix-append (codes ", sha256 = ") _) _ (
            bind_step (string-hex 32 file.sha256 _ w.sha256_is) _ (
              bind_step (from_hex-hex 32 file.sha256 w.sha256_is.0 w.sha256_is.1) _ (
                bind_step (read_md5 _ file.md5 (no_md5 _) w.md5_is) _ (
                  bind_step (strip_prefix-append (codes ", url = ") _) _ (
                    bind_step (string-quoted file.url _) _ (
                      bind_step (read_tree (codes " },") file.unpacks_to no_tree w.tree_is) _
                        (ap (λ t. when t >> some file) (text_eq_refl (codes " },")))))))))))))

-- The fields of a file are one line.
stays-is_plain : (c : ℕ) → is_plain c ≡ true → stays c ≡ true
unfolding is_control
stays-is_plain c h = ground (arith, h)

stays-all : (s : Text) → all is_plain s ≡ true → all stays s ≡ true
stays-all [] h = refl
stays-all (c ∷ s) h = ground (arith, stays-is_plain c, stays-all s, h)

stays-digits : (s : Text) → all is_digit s ≡ true → all stays s ≡ true
stays-digits [] h = refl
stays-digits (c ∷ s) h = ground (arith, stays-digits s, h)

IsLine-in_quotes :
    (s t l r : Text)
    → all stays s ≡ true
    → IsLine t l r
    → IsLine (b'"' ∷ (s ++ (b'"' ∷ t))) (b'"' ∷ (s ++ (b'"' ∷ l))) r
IsLine-in_quotes s t l r h i =
    IsLine-append (b'"' ∷ []) _ _ r refl
      (IsLine-append s _ _ r h (IsLine-append (b'"' ∷ []) t l r refl i))

IsLine-put_md5 :
    (o : Option (List ℕ)) (t l r : Text)
    → IsDigestIfSome 16 o
    → IsLine t l r
    → IsLine (put_md5 o t) (put_md5 o l) r
unfolding put_md5
IsLine-put_md5 none t l r h i = i
IsLine-put_md5 (some md5) t l r h i =
    IsLine-append (codes ", md5 = ") _ _ r refl
      (IsLine-in_quotes (hex md5) t l r (stays-all (hex md5) (is_plain-hex md5 h.1)) i)

IsLine-put_tree :
    (o : Option (List ℕ)) (t l r : Text)
    → IsDigestIfSome 32 o
    → IsLine t l r
    → IsLine (put_tree o t) (put_tree o l) r
unfolding put_tree
IsLine-put_tree none t l r h i = i
IsLine-put_tree (some tree) t l r h i = IsLine-append (codes ", unpacks_to = ") _ _ r refl (
    IsLine-in_quotes (codes "sha256:" ++ hex tree) t l r
      (all-append stays (codes "sha256:") (hex tree) refl
        (stays-all (hex tree) (is_plain-hex tree h.1)))
      i)

pub IsLine-put_file :
    (file : LockedFile) (rest : Text)
    → CanBeWritten file
    → IsLine (put_file file rest) (put_fields file (codes " },")) rest
unfolding put_file put_fields
IsLine-put_file file rest w = IsLine-append (codes "  { path = ") _ _ rest refl (
    IsLine-quoted file.path _ _ rest (
      IsLine-append (codes ", size = ") _ _ rest refl (
        IsLine-append (decimal file.size) _ _ rest
          (stays-digits (decimal file.size) (digits-decimal file.size))
          (IsLine-append (codes ", sha256 = ") _ _ rest refl (
            IsLine-in_quotes (hex file.sha256) _ _ rest
              (stays-all (hex file.sha256) (is_plain-hex file.sha256 w.sha256_is.1))
              (IsLine-put_md5 file.md5 _ _ rest w.md5_is (
                IsLine-append (codes ", url = ") _ _ rest refl (
                  IsLine-quoted file.url _ _ rest (
                    IsLine-put_tree file.unpacks_to _ _ rest w.tree_is (
                      IsLine-append (codes " }") _ _ rest refl
                        (IsLine-last b',' rest refl refl)))))))))))
