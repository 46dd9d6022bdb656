-- ===== src/Rate/Decimal.antt =====
-- What `parse` reads from a decimal with a unit.
use native.Mathlib.Nat.{le_trans}
use fetchloom.Base.{
  ℕ, ◌+◌, ◌*◌, ◌/◌, ◌^◌, ◌≤◌, ◌<◌, ◌≡◌, refl, ap, ◌∙◌, Bool, true, false, [], ◌∷◌, ◌++◌, some,
  arith, ltb, ◌==◌, length, any, all,
}
use fetchloom.Base.Text.{
  Text, is_whitespace, drop_while, drop_while_end, trim, is_digit, value_from, split_once,
}
use fetchloom.Rate.Bucket.{u128_max}
use fetchloom.Rate.Parse.{
  split_last, power, digits, checked, positive_u64, scaled, parse_number, parse_trimmed, parse,
}

split_last-append : (s : Text) (c : ℕ) → split_last (s ++ c ∷ []) ≡ some (s, c)
unfolding split_last
split_last-append [] c = refl
split_last-append (d ∷ s) c = rw (split_last-append s c) refl

drop_while_end-append :
    (p : ℕ → Bool) (s : Text) (c : ℕ) → p c ≡ false → drop_while_end p (s ++ c ∷ []) ≡ s ++ c ∷ []
unfolding drop_while_end
drop_while_end-append p [] c h = rw h refl
drop_while_end-append p (d ∷ []) c h = rw h refl
drop_while_end-append p (d ∷ e ∷ s) c h = rw (drop_while_end-append p (e ∷ s) c h) refl

split_once-digits :
    (w f : Text) → all is_digit w ≡ true → split_once b'.' (w ++ b'.' ∷ f) ≡ some (w, f)
unfolding split_once
split_once-digits [] f h = refl
split_once-digits (c ∷ w) f h =
    let other : (c == b'.') ≡ false = ground (arith, h) in
    rw (other, split_once-digits w f (ground (arith, h))) refl

any_dot : (w f : Text) → any (λ c. c == b'.') (w ++ b'.' ∷ f) ≡ true
any_dot [] f = refl
any_dot (c ∷ w) f = ground (arith, any_dot w f)

digit_is_no_space : (c : ℕ) → is_digit c ≡ true → is_whitespace c ≡ false
unfolding is_whitespace
digit_is_no_space c h = ground arith

unit_is_no_space : (c : ℕ) → (power c == 0) ≡ false → is_whitespace c ≡ false
unfolding is_whitespace power
unit_is_no_space c h = ground arith

trim-decimal :
    (d : ℕ) (rest : Text) (c : ℕ)
    → is_digit d ≡ true
    → is_whitespace c ≡ false
    → trim (d ∷ rest ++ c ∷ []) ≡ d ∷ rest ++ c ∷ []
unfolding trim drop_while
trim-decimal d rest c h k =
    rw (digit_is_no_space d h) (drop_while_end-append is_whitespace (d ∷ rest) c k)

parse_number-decimal :
    (w f : Text) (pow : ℕ)
    → digits w ≡ true
    → digits f ≡ true
    → parse_number (w ++ b'.' ∷ f) pow ≡ scaled w f pow
unfolding parse_number
parse_number-decimal [] f pow hw hf = cc
parse_number-decimal (d ∷ w) f pow hw hf =
    rw (split_once-digits (d ∷ w) f hw, hw, any_dot (d ∷ w) f, hf) refl

checked-some : (n : ℕ) → n ≤ u128_max → checked n ≡ some n
checked-some n h = ground arith

le_scaled : (n c : ℕ) → n ≤ n * 1024 ^ power c
unfolding power
le_scaled n c = ground arith

scaled-some :
    (w f : Text) (pow : ℕ)
    → ltb (length f) (2 ^ 32) ≡ true
    → 10 ^ length f ≤ u128_max
    → value_from 0 w ≤ u128_max
    → value_from 0 w * 10 ^ length f ≤ u128_max
    → value_from 0 f ≤ u128_max
    → value_from 0 w * 10 ^ length f + value_from 0 f ≤ u128_max
    → (value_from 0 w * 10 ^ length f + value_from 0 f) * 1024 ^ pow ≤ u128_max
    → scaled w f pow
      ≡ positive_u64
          ((value_from 0 w * 10 ^ length f + value_from 0 f) * 1024 ^ pow / 10 ^ length f)
unfolding scaled
scaled-some w f pow a b c d e g h =
    rw
      (
        a,
        checked-some (10 ^ length f) b,
        checked-some (value_from 0 w) c,
        checked-some (value_from 0 w * 10 ^ length f) d,
        checked-some (value_from 0 f) e,
        checked-some (value_from 0 w * 10 ^ length f + value_from 0 f) g,
        checked-some ((value_from 0 w * 10 ^ length f + value_from 0 f) * 1024 ^ pow) h,
      )
      refl

scaled-checked :
    (w f : Text) (c : ℕ)
    → length f < 2 ^ 32
    → (value_from 0 w * 10 ^ length f + value_from 0 f) * 1024 ^ power c ≤ u128_max
    → 10 ^ length f ≤ u128_max
    → value_from 0 f ≤ u128_max
    → value_from 0 w ≤ u128_max
    → scaled w f (power c)
      ≡ positive_u64
          ((value_from 0 w * 10 ^ length f + value_from 0 f) * 1024 ^ power c / 10 ^ length f)
scaled-checked w f c hl hb hs hv hu =
    let total = value_from 0 w * 10 ^ length f + value_from 0 f in
    let small : total ≤ u128_max = le_trans (le_scaled total c) hb in
    scaled-some w f (power c) (ground arith) hs hu (omega (arith, small)) hv small hb

with_unit :
    (text s : Text) (c : ℕ)
    → (power c == 0) ≡ false
    → parse_trimmed text (some (s, c)) ≡ parse_number s (power c)
unfolding parse_trimmed
with_unit text s c l = rw l refl

parse-cases :
    (s : Text) (c : ℕ) (text : Text)
    → trim text ≡ text
    → split_last text ≡ some (s, c)
    → (power c == 0) ≡ false
    → parse text ≡ parse_number s (power c)
unfolding parse
parse-cases s c text h k l =
    ap (λ t. parse_trimmed t (split_last t)) h ∙ (ap (parse_trimmed text) k ∙ with_unit text s c l)

parse-unit :
    (s : Text) (c : ℕ)
    → trim (s ++ c ∷ []) ≡ s ++ c ∷ []
    → (power c == 0) ≡ false
    → parse (s ++ c ∷ []) ≡ parse_number s (power c)
parse-unit s c h k = parse-cases s c (s ++ c ∷ []) h (split_last-append s c) k

-- `w.f` with the unit `c`, where `w` and `f` are digits and nothing is beyond 128 bits: the value
-- of the decimal times the power of 1024 that the unit stands for, rounded down, when that is
-- positive and fits 64 bits.
pub parse-decimal :
    (w f : Text) (c : ℕ)
    → digits w ≡ true
    → digits f ≡ true
    → (power c == 0) ≡ false
    → length f < 2 ^ 32
    → (value_from 0 w * 10 ^ length f + value_from 0 f) * 1024 ^ power c ≤ u128_max
    → 10 ^ length f ≤ u128_max
    → value_from 0 f ≤ u128_max
    → value_from 0 w ≤ u128_max
    → parse ((w ++ b'.' ∷ f) ++ c ∷ [])
      ≡ positive_u64
          ((value_from 0 w * 10 ^ length f + value_from 0 f) * 1024 ^ power c / 10 ^ length f)
parse-decimal [] f c hw hf hc hl hb hs hv hu = cc
parse-decimal (d ∷ w) f c hw hf hc hl hb hs hv hu =
    parse-unit (d ∷ (w ++ b'.' ∷ f)) c
      (trim-decimal d (w ++ b'.' ∷ f) c (ground (arith, hw)) (unit_is_no_space c hc)) hc
    ∙ (parse_number-decimal (d ∷ w) f (power c) hw hf ∙ scaled-checked (d ∷ w) f c hl hb hs hv hu)
