-- ===== src/Digest/Reads.antt =====
-- Reading the text of a digest, and writing what was read.
use fetchloom.Base.{
  ℕ, ◌+◌, ◌-◌, ◌*◌, ◌/◌, ◌%◌, ◌<◌, ◌≡◌, refl, sym, ap, ap₂, subst, ◌∙◌, inl, inr, Bool, true, false,
  ◌&&◌, List, [], ◌∷◌, map, Option, none, some, arith, leb, ◌==◌, length, All, if◌then◌else◌,
  Bool-cases,
}
use fetchloom.Digest.{to_digit, put_byte, put_digits, read_pairs, from_hex, digit, hex}

abbrev pub IsByte : ℕ → Type 0
IsByte b = b < 256

abbrev pub to_lower : ℕ → ℕ
to_lower c = if leb b'A' c && leb c b'Z' then c + 32 else c

to_digit-digit : (n : ℕ) → n < 16 → to_digit (digit n) ≡ some n
unfolding to_digit digit
to_digit-digit n h = ground (arith, h)

div_lt : (b : ℕ) → b < 256 → b / 16 < 16
div_lt b h = omega (arith, h)

mod_lt : (b : ℕ) → b % 16 < 16
mod_lt b = omega arith

length-hex : (bytes : List ℕ) → length (hex bytes) ≡ 2 * length bytes
unfolding hex
length-hex [] = refl
length-hex (b ∷ bytes) = omega (arith, length-hex bytes)

put_byte_back :
    (b : ℕ) (bytes : List ℕ)
    → b < 256
    → put_byte (b / 16 * 16 + b % 16) (some bytes) ≡ some (b ∷ bytes)
put_byte_back b bytes h = ap (λ n. put_byte n (some bytes)) whole ∙ fits
  where
    whole : b / 16 * 16 + b % 16 ≡ b
    whole = omega arith

    fits : put_byte b (some bytes) ≡ some (b ∷ bytes)
    fits = ground (arith, h)

read_pairs-hex : (bytes : List ℕ) → All IsByte bytes → read_pairs (hex bytes) ≡ some bytes
unfolding read_pairs hex
read_pairs-hex [] h = refl
read_pairs-hex (b ∷ bytes) h =
    rw
      (
        to_digit-digit (b / 16) (div_lt b h.0),
        to_digit-digit (b % 16) (mod_lt b),
        read_pairs-hex bytes h.1,
      )
      (put_byte_back b bytes h.0)

-- The text of a digest of `n` bytes reads as that digest.
pub from_hex-hex :
    (n : ℕ) (bytes : List ℕ)
    → length bytes ≡ n
    → All IsByte bytes
    → from_hex n (hex bytes) ≡ some bytes
unfolding from_hex
from_hex-hex n bytes e h = rw (long n e) (read_pairs-hex bytes h)
  where
    long : (n : ℕ) → length bytes ≡ n → (length (hex bytes) == 2 * n) ≡ true
    long n e = ground (arith, length-hex bytes, e)

-- What a digit that was read says.
to_digit→ : (c n : ℕ) → to_digit c ≡ some n → (n < 16) × (digit n ≡ to_lower c)
unfolding to_digit digit
to_digit→ c n e = (ground (arith, e), ground (arith, e))

-- What was read: bytes, whose text is the one that was read but for the case of its letters.
record IsReading (text bytes : List ℕ) : Type 0 where
  pub count : length text ≡ 2 * length bytes
  pub fit : All IsByte bytes
  pub text_is : hex bytes ≡ map to_lower text

-- What a byte and the bytes after it were read from.
record IsPut (high low : Option ℕ) (out : Option (List ℕ)) (bytes : List ℕ) : Type 0 where
  pub h : ℕ
  pub l : ℕ
  pub rest : List ℕ
  pub high_is : high ≡ some h
  pub low_is : low ≡ some l
  pub out_is : out ≡ some rest
  pub bytes_is : bytes ≡ (h * 16 + l) ∷ rest

put_digits-IsPut :
    (high low : Option ℕ) (out : Option (List ℕ)) (bytes : List ℕ)
    → put_digits high low out ≡ some bytes
    → IsPut high low out bytes
put_digits-IsPut none low out bytes e = cc
put_digits-IsPut (some h) none out bytes e = cc
put_digits-IsPut (some h) (some l) none bytes e = cc
put_digits-IsPut (some h) (some l) (some rest) bytes e = record {
  h = h;
  l = l;
  rest = rest;
  high_is = refl;
  low_is = refl;
  out_is = refl;
  bytes_is = fitted (leb (h * 16 + l) 255) e;
}
  where
    fitted :
        (t : Bool)
        → (if t then some ((h * 16 + l) ∷ rest) else none) ≡ some bytes
        → bytes ≡ (h * 16 + l) ∷ rest
    fitted true k = cc
    fitted false k = cc

list_inj : {a b : List ℕ} → some a ≡ some b → a ≡ b
list_inj e = cc

byte_digits :
    (h l : ℕ)
    → h < 16
    → l < 16
    → (h * 16 + l < 256) × (((h * 16 + l) / 16 ≡ h) × ((h * 16 + l) % 16 ≡ l))
byte_digits h l a b = (omega (arith, a, b), (omega (arith, a, b), omega (arith, a, b)))

IsReading-cons :
    (c d : ℕ) (text bytes : List ℕ)
    → IsPut (to_digit c) (to_digit d) (read_pairs text) bytes
    → ((rest : List ℕ) → read_pairs text ≡ some rest → IsReading text rest)
    → IsReading (c ∷ d ∷ text) bytes
unfolding hex
IsReading-cons c d text bytes p f =
    let r = f p.rest p.out_is in
    let (hs, hd) = to_digit→ c p.h p.high_is in
    let (ls, ld) = to_digit→ d p.l p.low_is in
    let (small, (q, m)) = byte_digits p.h p.l hs ls in
    subst (IsReading (c ∷ d ∷ text)) (sym p.bytes_is) (record {
      count = omega (arith, r.count);
      fit = (small, r.fit);
      text_is =
          ap₂ (λ x y. x ∷ y) (ap digit q ∙ hd) (ap₂ (λ x y. x ∷ y) (ap digit m ∙ ld) r.text_is);
    })

read_pairs→ :
    (k : ℕ) (text bytes : List ℕ)
    → length text ≡ 2 * k
    → read_pairs text ≡ some bytes
    → IsReading text bytes
unfolding read_pairs hex
read_pairs→ k [] bytes n e =
    subst (IsReading []) (list_inj e) (record { count = refl; fit = tt; text_is = refl })
read_pairs→ k (c ∷ []) bytes n e = absurd (omega (arith, n))
  where
    absurd : ⊥ → IsReading (c ∷ []) bytes
    absurd = elim [ ]
read_pairs→ k (c ∷ d ∷ text) bytes n e =
    IsReading-cons c d text bytes
      (put_digits-IsPut (to_digit c) (to_digit d) (read_pairs text) bytes e)
      (λ rest. read_pairs→ (k - 1) text rest (omega (arith, n)))

-- A digest that `from_hex` takes has the bytes that it should, and its text is the one that was read
-- but for the case of the letters.
pub hex-from_hex :
    (n : ℕ) (text bytes : List ℕ)
    → from_hex n text ≡ some bytes
    → (length bytes ≡ n) × (All IsByte bytes × (hex bytes ≡ map to_lower text))
unfolding from_hex
hex-from_hex n text bytes = elim (Bool-cases (length text == 2 * n)) [
  | inl h ↦ rw h (λ e.
      let r = read_pairs→ n text bytes (ground (arith, h)) e in
      (ground (arith, h, r.count), (r.fit, r.text_is)))
  | inr h ↦ rw h (λ e. no e)
]
  where
    no :
        none ≡ some bytes
        → (length bytes ≡ n) × (All IsByte bytes × (hex bytes ≡ map to_lower text))
    no e = cc
