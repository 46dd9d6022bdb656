-- ===== src/Lock/Tokens.antt =====
-- src/project/lock/canonical.rs: the quoted texts of the fast reader, `string`, and its lines,
-- `Lines::next`, `value` and `sets`.
use fetchloom.Base.{
  ℕ, zero, suc, ◌+◌, ◌*◌, Bool, true, false, not, ◌&&◌, ◌||◌, [], ◌∷◌, Option, none, some, ltb, leb,
  ◌==◌, any, length, if◌then◌else◌,
}
use fetchloom.Base.Text.{Text, codes, split_once}
use fetchloom.Digest.{to_digit}
use fetchloom.Plan.Paths.{strip_prefix}

infixl 5 ◌>>=◌
abbrev pub ◌>>=◌ {ℓ κ} : {A : Type ℓ} {B : Type κ} → Option A → (A → Option B) → Option B
none >>= f = none
some a >>= f = f a

abbrev pub when : Bool → Option (Unit {0})
when true = some tt
when false = none

infixl 5 ◌>>◌
abbrev pub ◌>>◌ {ℓ} : {B : Type ℓ} → Option (Unit {0}) → Option B → Option B
m >> k = m >>= λ _. k

unfoldable pub refused : ℕ → Bool
refused c = (ltb c 32 && not (c == 9)) || c == 127

-- The branch without escapes: the text up to the first quote, where no `\` stands before it.
unfoldable pub up_to_quote : Text → Option (Text × Text)
up_to_quote [] = none
up_to_quote (c ∷ s) =
    if c == b'"'
    then some ([], s)
    else if c == b'\\'
    then none
    else (do r ← up_to_quote s; some (c ∷ r.0, r.1))

-- `char::from_u32` of four hexadecimal digits: surrogates are no characters.
unfoldable pub scalar : ℕ → Option ℕ
scalar n = if leb 0xd800 n && leb n 0xdfff then none else some n

unfoldable pub unescape_unicode : Text → Option (ℕ × Text)
unfolding to_digit scalar
unescape_unicode (a ∷ b ∷ c ∷ d ∷ s) = do
  w ← to_digit a
  x ← to_digit b
  y ← to_digit c
  z ← to_digit d
  n ← scalar (((w * 16 + x) * 16 + y) * 16 + z)
  some (n, s)
unescape_unicode _ = none

-- What stands for one character after `\`.
unfoldable pub unescape : Text → Option (ℕ × Text)
unfolding unescape_unicode
unescape [] = none
unescape (c ∷ s) =
    if c == b'"'
    then some (b'"', s)
    else if c == b'\\'
    then some (b'\\', s)
    else if c == b'n'
    then some (10, s)
    else if c == b't'
    then some (9, s)
    else if c == b'r'
    then some (13, s)
    else if c == b'u'
    then unescape_unicode s
    else none

-- The loop over the characters, on fuel.
unfoldable pub unquote : ℕ → Text → Option (Text × Text)
unfolding unescape refused
unquote zero s = none
unquote (suc fuel) [] = none
unquote (suc fuel) (c ∷ s) =
    let escaped : Option (Text × Text) = (do
      r ← unescape s
      rest ← unquote fuel r.1
      some (r.0 ∷ rest.0, rest.1)) in
    let plain : Option (Text × Text) = (do rest ← unquote fuel s; some (c ∷ rest.0, rest.1)) in
    if c == b'"'
    then some ([], s)
    else if c == b'\\'
    then escaped
    else if refused c
    then none
    else plain

-- Whether a quote comes before any `\`.
unfoldable pub has_no_escape : Text → Option Bool
has_no_escape [] = none
has_no_escape (c ∷ s) =
    if c == b'"' then some true else if c == b'\\' then some false else has_no_escape s

unfoldable pub string_body : Text → Bool → Option (Text × Text)
unfolding up_to_quote refused unquote
string_body body true = do r ← up_to_quote body; when (not (any refused r.0)); some r
string_body body false = unquote (suc (length body)) body

unfoldable pub string : Text → Option (Text × Text)
unfolding strip_prefix has_no_escape string_body
string text = do
  body ← strip_prefix (b'"' ∷ []) text
  plain ← has_no_escape body
  string_body body plain

-- `Lines::next`: the line without its `\n` or `\r\n`, and the rest.
abbrev pub without_return : Text → Text
without_return [] = []
without_return (c ∷ []) = if c == 13 then [] else c ∷ []
without_return (c ∷ d ∷ s) = c ∷ without_return (d ∷ s)

unfoldable pub next : Text → Option (Text × Text)
unfolding split_once
next text = do r ← split_once 10 text; some (without_return r.0, r.1)

abbrev pub is_empty : Text → Bool
is_empty [] = true
is_empty (c ∷ s) = false

-- `Lines::value` and `Lines::sets`.
unfoldable pub value : Text → Text → Option (Text × Text)
unfolding next strip_prefix string
value key text = do
  line ← next text
  v ← strip_prefix key line.0
  v' ← strip_prefix (codes " = ") v
  r ← string v'
  when (is_empty r.1)
  some (r.0, line.1)

abbrev pub starts : Text → Option Text → Bool
starts p none = false
starts p (some s) = elim (strip_prefix p s) [ none ↦ false | some _ ↦ true ]

unfoldable pub sets : Text → Text → Bool
unfolding strip_prefix
sets key text = starts (codes " = ") (strip_prefix key text)

abbrev pub optional_from : Text → Text → Bool → Option (Option Text × Text)
optional_from key text true = do r ← value key text; some (some r.0, r.1)
optional_from key text false = some (none, text)

unfoldable pub optional : Text → Text → Option (Option Text × Text)
unfolding sets value
optional key text = optional_from key text (sets key text)
