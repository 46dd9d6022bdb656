-- ===== src/Rate/Parse.antt =====
-- src/net/rate.rs: `parse`, the text of FETCHLOOM_RATE.
use fetchloom.Base.{
  ℕ, ◌+◌, ◌*◌, ◌/◌, ◌^◌, ◌≤◌, ◌<◌, inl, inr, Bool, true, false, not, ◌&&◌, ◌||◌, [], ◌∷◌, Option,
  none, some, arith, ltb, leb, ◌==◌, length, any, all, if◌then◌else◌, Bool-cases,
}
use fetchloom.Base.Text.{Text, trim, is_digit, value_from, split_once}
use fetchloom.Rate.Bucket.{u64_max, u128_max}

infixl 5 ◌>>=◌
abbrev ◌>>=◌ {ℓ κ} : {A : Type ℓ} {B : Type κ} → Option A → (A → Option B) → Option B
none >>= f = none
some a >>= f = f a

-- The last character of a text with the text before it. Its last byte is one of the letters below
-- only if its last character is.
abbrev pub last_of : ℕ → Option (Text × ℕ) → Text × ℕ
last_of c none = ([], c)
last_of c (some (s, d)) = (c ∷ s, d)

unfoldable pub split_last : Text → Option (Text × ℕ)
split_last [] = none
split_last (c ∷ s) = some (last_of c (split_last s))

unfoldable pub power : ℕ → ℕ
power c =
    if c == b'K'
    then 1
    else if c == b'M'
    then 2
    else if c == b'G'
    then 3
    else if c == b'T'
    then 4
    else 0

abbrev pub digits : Text → Bool
digits [] = false
digits (c ∷ s) = all is_digit (c ∷ s)

-- `checked_..` of a `u128`.
abbrev pub checked : ℕ → Option ℕ
checked n = if leb n u128_max then some n else none

abbrev pub unwrap_or_whole : Text → Option (Text × Text) → Text × Text
unwrap_or_whole s none = (s, [])
unwrap_or_whole s (some p) = p

-- `u64::try_from(..).ok().filter(..)`.
abbrev pub positive_u64 : ℕ → Option ℕ
positive_u64 n = if ltb 0 n && leb n u64_max then some n else none

unfoldable pub scaled : Text → Text → ℕ → Option ℕ
unfolding value_from
scaled whole fraction pow = do
  scale ← if ltb (length fraction) (2 ^ 32) then checked (10 ^ length fraction) else none
  w ← checked (value_from 0 whole)
  w' ← checked (w * scale)
  f ← checked (value_from 0 fraction)
  sum ← checked (w' + f)
  bytes ← checked (sum * 1024 ^ pow)
  positive_u64 (bytes / scale)

unfoldable pub parse_number : Text → ℕ → Option ℕ
unfolding split_once scaled
parse_number number pow =
    let (whole, fraction) = unwrap_or_whole number (split_once b'.' number) in
    if not (digits whole) || (any (λ c. c == b'.') number && not (digits fraction))
    then none
    else scaled whole fraction pow

unfoldable pub parse_trimmed : Text → Option (Text × ℕ) → Option ℕ
unfolding power parse_number
parse_trimmed text none = none
parse_trimmed text (some (before, c)) =
    if power c == 0 then parse_number text 0 else parse_number before (power c)

unfoldable pub parse : Text → Option ℕ
unfolding trim split_last parse_trimmed
parse text = parse_trimmed (trim text) (split_last (trim text))

-- A rate that was read is positive and fits 64 bits.
pub data IsRate : Option ℕ → Type 0 where
  no_rate : IsRate none
  rate : {n : ℕ} → 0 < n → n ≤ u64_max → IsRate (some n)

bind-IsRate {ℓ} :
    {A : Type ℓ} (m : Option A) (f : A → Option ℕ) → ((a : A) → IsRate (f a)) → IsRate (m >>= f)
bind-IsRate none f h = no_rate
bind-IsRate (some a) f h = h a

positive_u64-IsRate : (n : ℕ) → IsRate (positive_u64 n)
positive_u64-IsRate n = elim (Bool-cases (ltb 0 n && leb n u64_max)) [
  | inl t ↦ rw t (rate (ground (arith, t)) (ground (arith, t)))
  | inr t ↦ rw t no_rate
]

scaled-IsRate : (w f : Text) (pow : ℕ) → IsRate (scaled w f pow)
unfolding scaled
scaled-IsRate w f pow =
    bind-IsRate (if ltb (length f) (2 ^ 32) then checked (10 ^ length f) else none) _ λ scale.
      bind-IsRate (checked (value_from 0 w)) _ λ a. bind-IsRate (checked (a * scale)) _ λ b.
        bind-IsRate (checked (value_from 0 f)) _ λ c.
          bind-IsRate (checked (b + c)) _
            λ d. bind-IsRate (checked (d * 1024 ^ pow)) _ λ e. positive_u64-IsRate (e / scale)

if_else-IsRate : (t : Bool) (o : Option ℕ) → IsRate o → IsRate (if t then none else o)
if_else-IsRate true o h = no_rate
if_else-IsRate false o h = h

parse_number-IsRate : (s : Text) (pow : ℕ) → IsRate (parse_number s pow)
unfolding parse_number
parse_number-IsRate s pow =
    let p = unwrap_or_whole s (split_once b'.' s) in
    if_else-IsRate _ (scaled p.0 p.1 pow) (scaled-IsRate p.0 p.1 pow)

choose-IsRate : (t : Bool) (a b : Option ℕ) → IsRate a → IsRate b → IsRate (if t then a else b)
choose-IsRate true a b h k = h
choose-IsRate false a b h k = k

parse_trimmed-IsRate : (s : Text) (o : Option (Text × ℕ)) → IsRate (parse_trimmed s o)
unfolding parse_trimmed
parse_trimmed-IsRate s none = no_rate
parse_trimmed-IsRate s (some (before, c)) =
    choose-IsRate (power c == 0) _ _ (parse_number-IsRate s 0)
      (parse_number-IsRate before (power c))

-- Whatever the text, a rate that is read from it is positive and fits 64 bits.
pub parse-IsRate : (text : Text) → IsRate (parse text)
unfolding parse
parse-IsRate text = parse_trimmed-IsRate (trim text) (split_last (trim text))
