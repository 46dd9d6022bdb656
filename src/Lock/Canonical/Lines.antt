-- ===== src/Lock/Canonical/Lines.antt =====
-- The reader takes back a line that was written.
use fetchloom.Base.{
  ℕ, ◌≡◌, refl, sym, ap, subst, ◌∙◌, ◌/◌, ◌%◌, Bool, true, false, not, [], ◌∷◌, ◌++◌, Option, some,
  arith, ◌==◌, all, append_assoc, append-nil,
}
use fetchloom.Base.Text.{Text, codes, split_once}
use fetchloom.Plan.Paths.{strip_prefix}
use fetchloom.Lock.Format.{upper_digit, escape_char, escape_all, quoted, put_value}
use fetchloom.Lock.Tokens.{◌>>=◌, when, ◌>>◌, without_return, next, is_empty, string, value}
use fetchloom.Lock.Canonical.Strings.{string-quoted}

pub strip_prefix-append : (p s : Text) → strip_prefix p (p ++ s) ≡ some s
unfolding strip_prefix
strip_prefix-append [] s = refl
strip_prefix-append (c ∷ p) s = ground (arith, strip_prefix-append p s)

abbrev pub stays : ℕ → Bool
stays c = not (c == 10)

-- `text` is the line `line` and, behind it, `rest`.
pub record IsLine (text line rest : Text) : Type 0 where
  pub splits : split_once 10 text ≡ some (line, rest)
  pub kept : without_return line ≡ line
  pub filled : is_empty line ≡ false

without_return-cons :
    (c : ℕ) (s : Text) → is_empty s ≡ false → without_return s ≡ s → without_return (c ∷ s) ≡ c ∷ s
without_return-cons c [] h k = cc
without_return-cons c (d ∷ s) h k = ap (λ t. c ∷ t) k

IsLine-cons : (c : ℕ) (t l r : Text) → stays c ≡ true → IsLine t l r → IsLine (c ∷ t) (c ∷ l) r
unfolding split_once
IsLine-cons c t l r h i = record {
  splits = ground (arith, h, i.splits);
  kept = without_return-cons c l i.filled i.kept;
  filled = refl;
}

pub IsLine-append :
    (a t l r : Text) → all stays a ≡ true → IsLine t l r → IsLine (a ++ t) (a ++ l) r
IsLine-append [] t l r h i = i
IsLine-append (c ∷ a) t l r h i =
    IsLine-cons c (a ++ t) (a ++ l) r (ground (arith, h))
      (IsLine-append a t l r (ground (arith, h)) i)

pub IsLine-last :
    (c : ℕ) (r : Text) → stays c ≡ true → (c == 13) ≡ false → IsLine (c ∷ 10 ∷ r) (c ∷ []) r
unfolding split_once
IsLine-last c r h k = record { splits = ground (arith, h); kept = rw k refl; filled = refl }

pub next-IsLine : (t l r : Text) → IsLine t l r → next t ≡ some (l, r)
unfolding next
next-IsLine t l r i = rw (i.splits, i.kept) refl

stays-upper_digit : (n : ℕ) → stays (upper_digit n) ≡ true
unfolding upper_digit
stays-upper_digit n = ground arith

stays-escape_char : (c : ℕ) → all stays (escape_char c) ≡ true
unfolding escape_char
stays-escape_char c = ground (
  arith,
  stays-upper_digit (c / 4096 % 16),
  stays-upper_digit (c / 256 % 16),
  stays-upper_digit (c / 16 % 16),
  stays-upper_digit (c % 16),
)

all-append : (p : ℕ → Bool) (s t : Text) → all p s ≡ true → all p t ≡ true → all p (s ++ t) ≡ true
all-append p [] t h k = k
all-append p (c ∷ s) t h k = ground (arith, all-append p s t, h, k)

pub stays-escape_all : (s : Text) → all stays (escape_all s) ≡ true
unfolding escape_all
stays-escape_all [] = refl
stays-escape_all (c ∷ s) =
    all-append stays (escape_char c) (escape_all s) (stays-escape_char c) (stays-escape_all s)

pub IsLine-quoted_end : (s rest : Text) → IsLine (quoted s ++ (10 ∷ rest)) (quoted s) rest
unfolding quoted
IsLine-quoted_end s rest =
    subst (λ t. IsLine (b'"' ∷ t) (b'"' ∷ (escape_all s ++ (b'"' ∷ []))) rest)
      (sym (append_assoc (escape_all s) (b'"' ∷ []) (10 ∷ rest)))
      (IsLine-append (b'"' ∷ escape_all s) (b'"' ∷ 10 ∷ rest) (b'"' ∷ []) rest (stays-escape_all s)
        (IsLine-last b'"' rest refl refl))

pub IsLine-quoted : (s t l r : Text) → IsLine t l r → IsLine (quoted s ++ t) (quoted s ++ l) r
unfolding quoted
IsLine-quoted s t l r i =
    IsLine-append (b'"' ∷ (escape_all s ++ (b'"' ∷ []))) t l r
      (all-append stays (escape_all s) (b'"' ∷ []) (stays-escape_all s) refl) i

abbrev whole : Text → Text × Text → Option (Text × Text)
whole rest r = when (is_empty r.1) >> some (r.0, rest)

string_end : (v : Text) → string (quoted v) ≡ some (v, [])
string_end v = ap string (sym (append-nil (quoted v))) ∙ string-quoted v []

-- `value` takes back what `put_value` put.
pub value-put_value :
    (key v rest : Text) → all stays key ≡ true → value key (put_value key v rest) ≡ some (v, rest)
unfolding value put_value
value-put_value key v rest h =
    rw
      (
        next-IsLine (key ++ (codes " = " ++ (quoted v ++ (10 ∷ rest))))
            (key ++ (codes " = " ++ quoted v)) rest
            (IsLine-append key _ _ rest h
              (IsLine-append (codes " = ") _ _ rest refl (IsLine-quoted_end v rest))),
        strip_prefix-append key (codes " = " ++ quoted v),
      )
      (ap (λ o. o >>= λ v. string v >>= whole rest) (strip_prefix-append (codes " = ") (quoted v))
        ∙ ap (λ o. o >>= whole rest) (string_end v))
