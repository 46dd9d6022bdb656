-- ===== src/Lock/Canonical/Decimals.antt =====
-- A number that was written is read back.
use fetchloom.Base.{
  ℕ, zero, suc, ◌+◌, ◌-◌, ◌*◌, ◌/◌, ◌%◌, ◌≤◌, ◌<◌, ◌≡◌, refl, ap, ◌∙◌, inl, inr, Bool, true, false,
  ◌&&◌, [], ◌∷◌, ◌++◌, some, arith, ltb, all, length, if◌then◌else◌, Bool-cases,
}
use fetchloom.Base.Text.{Text, is_digit, value_from}
use fetchloom.Lock.Format.{decimal_from, decimal}
use fetchloom.Lock.Tokens.{is_empty}
use fetchloom.Lock.Canonical.{starts_with_zero, i64_max, integer, span_digits}

value_from-append : (n : ℕ) (s t : Text) → value_from n (s ++ t) ≡ value_from (value_from n s) t
unfolding value_from
value_from-append n [] t = refl
value_from-append n (c ∷ s) t = value_from-append (n * 10 + (c - b'0')) s t

-- The digits of a number, a 0 in front only of 0 itself.
pub record IsDecimal (n : ℕ) (s : Text) : Type 0 where
  pub value : value_from 0 s ≡ n
  pub digits : all is_digit s ≡ true
  pub filled : is_empty s ≡ false
  no_zero : 0 < n → starts_with_zero s ≡ false
  one : n < 10 → length s ≡ 1

starts-append : (s t : Text) → is_empty s ≡ false → starts_with_zero (s ++ t) ≡ starts_with_zero s
starts-append [] t h = cc
starts-append (c ∷ s) t h = refl

filled-append : (s t : Text) → is_empty s ≡ false → is_empty (s ++ t) ≡ false
filled-append [] t h = cc
filled-append (c ∷ s) t h = refl

all-append :
    (s t : Text) → all is_digit s ≡ true → all is_digit t ≡ true → all is_digit (s ++ t) ≡ true
all-append [] t h k = k
all-append (c ∷ s) t h k = ground (arith, all-append s t, h, k)

small-IsDecimal : (n : ℕ) → n < 10 → IsDecimal n ((b'0' + n) ∷ [])
unfolding value_from
small-IsDecimal n h = record {
  value = omega (arith, h);
  digits = ground (arith, h);
  filled = refl;
  no_zero = λ k. ground (arith, h, k);
  one = λ k. refl;
}

large-IsDecimal :
    (n : ℕ) (s : Text) → 10 ≤ n → IsDecimal (n / 10) s → IsDecimal n (s ++ ((b'0' + n % 10) ∷ []))
unfolding value_from
large-IsDecimal n s h d = record {
  value =
      value_from-append 0 s ((b'0' + n % 10) ∷ [])
      ∙ ap (λ v. value_from v ((b'0' + n % 10) ∷ [])) d.value
      ∙ last;
  digits = all-append s ((b'0' + n % 10) ∷ []) d.digits (digit n);
  filled = filled-append s ((b'0' + n % 10) ∷ []) d.filled;
  no_zero = λ k. starts-append s ((b'0' + n % 10) ∷ []) d.filled ∙ d.no_zero (omega (arith, h));
  one = λ k. absurd (omega (arith, h, k));
}
  where
    last : value_from (n / 10) ((b'0' + n % 10) ∷ []) ≡ n
    last = omega arith

    digit : (n : ℕ) → all is_digit ((b'0' + n % 10) ∷ []) ≡ true
    digit n = ground arith

decimal_from-IsDecimal : (fuel n : ℕ) → n < fuel → IsDecimal n (decimal_from fuel n)
unfolding decimal_from
decimal_from-IsDecimal zero n h = absurd (omega (arith, h))
decimal_from-IsDecimal (suc fuel) n h = elim (Bool-cases (ltb n 10)) [
  | inl e ↦ rw e (small-IsDecimal n (ground (arith, e)))
  | inr e ↦ rw e (
      large-IsDecimal n (decimal_from fuel (n / 10)) (ground (arith, e))
        (decimal_from-IsDecimal fuel (n / 10) (ground (arith, e, h))))
]

pub decimal-IsDecimal : (n : ℕ) → IsDecimal n (decimal n)
unfolding decimal
decimal-IsDecimal n = decimal_from-IsDecimal (suc n) n (omega arith)

no_leading_zero :
    (n : ℕ) (s : Text) → IsDecimal n s → (ltb 1 (length s) && starts_with_zero s) ≡ true → ⊥
no_leading_zero zero s d e = ground (arith, e, d.one (omega arith))
no_leading_zero (suc n) s d e = ground (arith, e, d.no_zero (omega arith))

pub integer-decimal : (n : ℕ) → n ≤ i64_max → integer (decimal n) ≡ some n
unfolding integer
integer-decimal n h =
    let d = decimal-IsDecimal n in
    rw (d.filled, d.value)
      (elim (Bool-cases (ltb 1 (length (decimal n)) && starts_with_zero (decimal n))) [
        | inl e ↦ absurd (no_leading_zero n (decimal n) d e)
        | inr e ↦ rw e (ground (arith, h))
      ])

span_digits-append :
    (s : Text) (c : ℕ) (t : Text)
    → all is_digit s ≡ true
    → is_digit c ≡ false
    → span_digits (s ++ (c ∷ t)) ≡ (s, c ∷ t)
unfolding span_digits
span_digits-append [] c t h k = rw k refl
span_digits-append (d ∷ s) c t h k =
    rw (span_digits-append s c t (ground (arith, h)) k) (
      ap (λ b. if b then (d ∷ s, c ∷ t) else ([], d ∷ (s ++ (c ∷ t)))) (first d (all is_digit s) h))
  where
    first : (d : ℕ) (b : Bool) → (is_digit d && b) ≡ true → is_digit d ≡ true
    first d b e = ground (arith, e)

pub span_digits-decimal :
    (n c : ℕ) (t : Text)
    → is_digit c ≡ false
    → span_digits (decimal n ++ (c ∷ t)) ≡ (decimal n, c ∷ t)
span_digits-decimal n c t h = span_digits-append (decimal n) c t (decimal-IsDecimal n).digits h

pub digits-decimal : (n : ℕ) → all is_digit (decimal n) ≡ true
digits-decimal n = (decimal-IsDecimal n).digits
