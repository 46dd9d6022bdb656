-- ===== src/Lock/Canonical/Strings.antt =====
-- The reader takes back a string that was written.
use fetchloom.Base.{
  ℕ, zero, suc, ◌+◌, ◌*◌, ◌/◌, ◌%◌, ◌≤◌, ◌<◌, ◌≡◌, refl, sym, ap, ap₂, subst, ◌∙◌, inl, inr, Bool,
  true, false, not, ◌&&◌, [], ◌∷◌, ◌++◌, Option, none, some, arith, ◌==◌, any, all, length,
  length-append, append_assoc, ==_iff, Bool-cases,
}
use fetchloom.Base.Text.{Text, is_control}
use fetchloom.Digest.{to_digit}
use fetchloom.Plan.Paths.{strip_prefix}
use fetchloom.Lock.Format.{upper_digit, escape_char, escape_all, quoted}
use fetchloom.Lock.Tokens.{
  ◌>>=◌, refused, up_to_quote, scalar, unescape_unicode, unescape, unquote, has_no_escape,
  string_body, string,
}

abbrev put_char : ℕ → Option (Text × Text) → Option (Text × Text)
put_char c o = o >>= λ r. some (c ∷ r.0, r.1)

to_digit-upper_digit : (n : ℕ) → n < 16 → to_digit (upper_digit n) ≡ some n
unfolding to_digit upper_digit
to_digit-upper_digit n h = ground (arith, h)

digits_join :
    (c : ℕ) → c < 160 → ((c / 4096 % 16 * 16 + c / 256 % 16) * 16 + c / 16 % 16) * 16 + c % 16 ≡ c
digits_join c h = omega (arith, h)

digit_lt : (n : ℕ) → n % 16 < 16
digit_lt n = omega arith

scalar_low : (c : ℕ) → c < 160 → scalar c ≡ some c
unfolding scalar
scalar_low c h = ground (arith, h)

abbrev with_rest : Text → ℕ → Option (ℕ × Text)
with_rest s n = some (n, s)

unescape_unicode-digits :
    (c : ℕ) (s : Text)
    → c < 160
    → unescape_unicode (
        upper_digit (c / 4096 % 16)
        ∷ upper_digit (c / 256 % 16)
        ∷ upper_digit (c / 16 % 16)
        ∷ upper_digit (c % 16)
        ∷ s)
      ≡ some (c, s)
unfolding unescape_unicode
unescape_unicode-digits c s h =
    rw
      (
        to_digit-upper_digit (c / 4096 % 16) (digit_lt (c / 4096)),
        to_digit-upper_digit (c / 256 % 16) (digit_lt (c / 256)),
        to_digit-upper_digit (c / 16 % 16) (digit_lt (c / 16)),
        to_digit-upper_digit (c % 16) (digit_lt c),
      )
      (ap (λ n. scalar n >>= with_rest s) (digits_join c h)
        ∙ ap (λ o. o >>= with_rest s) (scalar_low c h))

control_lt : (c : ℕ) → is_control c ≡ true → c < 160
unfolding is_control
control_lt c h = ground (arith, h)

refused-control : (c : ℕ) → is_control c ≡ false → refused c ≡ false
unfolding is_control refused
refused-control c h = ground (arith, h)

-- One character.
unquote-escape_char :
    (fuel c : ℕ) (s : Text) → unquote (suc fuel) (escape_char c ++ s) ≡ put_char c (unquote fuel s)
unfolding unquote unescape escape_char
unquote-escape_char fuel c s = elim (Bool-cases (c == b'"')) [
  | inl e ↦ rw e (ap (λ c. put_char c (unquote fuel s)) (sym ((==_iff c b'"').0 e)))
  | inr e ↦ rw e (elim (Bool-cases (c == b'\\')) [
    | inl f ↦ rw f (ap (λ c. put_char c (unquote fuel s)) (sym ((==_iff c b'\\').0 f)))
    | inr f ↦ rw f (elim (Bool-cases (c == 10)) [
      | inl g ↦ rw g (ap (λ c. put_char c (unquote fuel s)) (sym ((==_iff c 10).0 g)))
      | inr g ↦ rw g (elim (Bool-cases (c == 9)) [
        | inl h ↦ rw h (ap (λ c. put_char c (unquote fuel s)) (sym ((==_iff c 9).0 h)))
        | inr h ↦ rw h (elim (Bool-cases (c == 13)) [
          | inl i ↦ rw i (ap (λ c. put_char c (unquote fuel s)) (sym ((==_iff c 13).0 i)))
          | inr i ↦ rw i (elim (Bool-cases (is_control c)) [
            | inl k ↦ rw k (rw (unescape_unicode-digits c s (control_lt c k)) refl)
            | inr k ↦ rw k (rw (e, f, refused-control c k) refl)
          ])
        ])
      ])
    ])
  ])
]

unquote_end : (fuel : ℕ) (rest : Text) → unquote (suc fuel) (b'"' ∷ rest) ≡ some ([], rest)
unfolding unquote
unquote_end fuel rest = refl

unquote-escape_all :
    (fuel : ℕ) (s rest : Text)
    → length s < fuel
    → unquote fuel (escape_all s ++ (b'"' ∷ rest)) ≡ some (s, rest)
unfolding escape_all
unquote-escape_all zero s rest h = absurd (omega (arith, h))
unquote-escape_all (suc fuel) [] rest h = unquote_end fuel rest
unquote-escape_all (suc fuel) (c ∷ s) rest h =
    ap (unquote (suc fuel)) (append_assoc (escape_char c) (escape_all s) (b'"' ∷ rest))
    ∙ unquote-escape_char fuel c (escape_all s ++ (b'"' ∷ rest))
    ∙ ap (put_char c) (unquote-escape_all fuel s rest (omega (arith, h)))

-- Without escapes the two branches of `string` read the same.
pair_inj :
    {s t u v : Text}
    → ◌≡◌ {A = Option (Text × Text)} (some (s, t)) (some (u, v))
    → (s ≡ u) × (t ≡ v)
pair_inj e = (cc, cc)

false_ne_true : {A : Type 0} → some false ≡ some true → A
false_ne_true h = cc

none_ne_some : {A B : Type 0} {b : B} → ◌≡◌ {A = Option B} none (some b) → A
none_ne_some h = cc

fst_of :
    {s : Text} {r : Text × Text} → ◌≡◌ {A = Option (Text × Text)} (some ([], s)) (some r) → [] ≡ r.0
fst_of h = cc

abbrev Plain : Text → Text × Text → Type 0
Plain body r = (up_to_quote body ≡ some r) × (any refused r.0 ≡ false)

put_char-Plain :
    (c : ℕ) (body : Text) (o : Option (Text × Text)) (r : Text × Text)
    → refused c ≡ false
    → ((r : Text × Text) → o ≡ some r → Plain body r)
    → put_char c o ≡ some r
    → (put_char c (up_to_quote body) ≡ some r) × (any refused r.0 ≡ false)
put_char-Plain c body none r g ih h = cc
put_char-Plain c body (some (a, b)) (u, v) g ih h =
    let (x, y) = ih (a, b) refl in
    let (p, q) = pair_inj h in
    (
      rw x (ap₂ (λ s t. some (s, t)) p q),
      subst (λ s. any refused s ≡ false) p (ground (arith, g, y)),
    )

unquote-Plain :
    (fuel : ℕ) (body : Text) (r : Text × Text)
    → has_no_escape body ≡ some true
    → unquote fuel body ≡ some r
    → Plain body r
unfolding has_no_escape unquote up_to_quote
unquote-Plain zero body r = λ p h. cc
unquote-Plain (suc fuel) [] r = λ p h. cc
unquote-Plain (suc fuel) (c ∷ body) r = elim (Bool-cases (c == b'"')) [
  | inl e ↦ rw e (λ p h. (h, subst (λ s. any refused s ≡ false) (fst_of h) refl))
  | inr e ↦ rw e (elim (Bool-cases (c == b'\\')) [
    | inl f ↦ rw f (λ p h. false_ne_true p)
    | inr f ↦ rw f (elim (Bool-cases (refused c)) [
      | inl g ↦ rw g (λ p h. none_ne_some h)
      | inr g ↦
          rw g
            (λ p. put_char-Plain c body (unquote fuel body) r g (λ r. unquote-Plain fuel body r p))
    ])
  ])
]

has_no_escape-some : (s rest : Text) → (b : Bool) × (has_no_escape (s ++ (b'"' ∷ rest)) ≡ some b)
unfolding has_no_escape
has_no_escape-some [] rest = (true, refl)
has_no_escape-some (c ∷ s) rest = elim (Bool-cases (c == b'"')) [
  | inl e ↦ rw e (true, refl)
  | inr e ↦ rw e (elim (Bool-cases (c == b'\\')) [
    | inl f ↦ rw f (false, refl)
    | inr f ↦ rw f (has_no_escape-some s rest)
  ])
]

length-escape_char : (c : ℕ) → 1 ≤ length (escape_char c)
unfolding escape_char
length-escape_char c = ground arith

length-escape_all : (s rest : Text) → length s ≤ length (escape_all s ++ rest)
unfolding escape_all
length-escape_all [] rest = omega arith
length-escape_all (c ∷ s) rest = omega (
  arith,
  length-append (escape_char c ++ escape_all s) rest,
  length-append (escape_char c) (escape_all s),
  length-append (escape_all s) rest,
  length-escape_char c,
  length-escape_all s rest,
)

string_body-unquote :
    (body : Text) (b : Bool) (r : Text × Text)
    → has_no_escape body ≡ some b
    → unquote (suc (length body)) body ≡ some r
    → string_body body b ≡ some r
unfolding string_body
string_body-unquote body true r e h =
    let (p, q) = unquote-Plain (suc (length body)) body r e h in rw (p, q) refl
string_body-unquote body false r e h = h

-- Whatever follows, the reader takes a string that was written and leaves the rest.
pub string-quoted : (s rest : Text) → string (quoted s ++ rest) ≡ some (s, rest)
unfolding string quoted strip_prefix
string-quoted s rest =
    rw (append_assoc (escape_all s) (b'"' ∷ []) rest)
      (from (has_no_escape-some (escape_all s) rest))
  where
    from :
        (b : Bool) × (has_no_escape (escape_all s ++ (b'"' ∷ rest)) ≡ some b)
        → (has_no_escape (escape_all s ++ (b'"' ∷ rest))
            >>= string_body (escape_all s ++ (b'"' ∷ rest)))
          ≡ some (s, rest)
    from (b, e) = rw e (
        string_body-unquote (escape_all s ++ (b'"' ∷ rest)) b (s, rest) e
          (unquote-escape_all (suc (length (escape_all s ++ (b'"' ∷ rest)))) s rest
            (omega (arith, length-escape_all s (b'"' ∷ rest)))))

-- A string without characters to escape is written as it is.
abbrev pub is_plain : ℕ → Bool
is_plain c = not (c == b'"') && not (c == b'\\') && not (is_control c)

escape_char-is_plain : (c : ℕ) → is_plain c ≡ true → escape_char c ≡ c ∷ []
unfolding escape_char is_control
escape_char-is_plain c h = ground (arith, h)

escape_all-is_plain : (s : Text) → all is_plain s ≡ true → escape_all s ≡ s
unfolding escape_all
escape_all-is_plain [] h = refl
escape_all-is_plain (c ∷ s) h =
    ap₂ (λ x y. x ++ y) (escape_char-is_plain c (ground (arith, h)))
      (escape_all-is_plain s (ground (arith, h)))

pub string-is_plain :
    (s rest : Text) → all is_plain s ≡ true → string (b'"' ∷ (s ++ (b'"' ∷ rest))) ≡ some (s, rest)
unfolding quoted
string-is_plain s rest h =
    ap (λ t. string (b'"' ∷ t))
      (ap (λ t. t ++ (b'"' ∷ rest)) (sym (escape_all-is_plain s h))
        ∙ sym (append_assoc (escape_all s) (b'"' ∷ []) rest))
    ∙ string-quoted s rest
