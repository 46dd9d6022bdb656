-- ===== src/Split/Board/Measure.antt =====
-- What is left to fetch, by any measure of ranges that adds up where ranges join: their length, or
-- whether they hold a given byte.
use fetchloom.Base.{
  ℕ, zero, suc, ◌+◌, ◌-◌, ◌≤◌, ◌<◌, ◌≡◌, ◌≢◌, refl, ap, ◌&&◌, List, [], ◌∷◌, ◌++◌, Option, none,
  some, arith, ltb, leb, length, length-append, length-replicate, get_elem?, set, replicate,
  if◌then◌else◌,
}
use fetchloom.Split.Board.{Range, Share, Board, flatten, insert_free}

pub record Adds (size : ℕ → ℕ → ℕ) : Type 0 where
  pub joins : (a b c : ℕ) → a ≤ b → b ≤ c → size a b + size b c ≡ size a c

-- The number of bytes, and whether the byte `x` is one of them.
abbrev pub bytes : ℕ → ℕ → ℕ
bytes a e = e - a

abbrev pub holds : ℕ → ℕ → ℕ → ℕ
holds x a e = if leb a x && ltb x e then 1 else 0

pub bytes-Adds : Adds bytes
bytes-Adds = record { joins = λ a b c h k. omega arith }

pub holds-Adds : (x : ℕ) → Adds (holds x)
holds-Adds x = record { joins = λ a b c h k. ground arith }

abbrev pub of_slot : (ℕ → ℕ → ℕ) → Option Share → ℕ
of_slot size none = 0
of_slot size (some s) = size s.next s.end

abbrev pub of_slots : (ℕ → ℕ → ℕ) → List (Option Share) → ℕ
of_slots size [] = 0
of_slots size (o ∷ rest) = of_slot size o + of_slots size rest

abbrev pub of_ranges : (ℕ → ℕ → ℕ) → List Range → ℕ
of_ranges size [] = 0
of_ranges size ((a, e) ∷ rest) = size a e + of_ranges size rest

-- What is still to be delivered.
abbrev pub pending : (ℕ → ℕ → ℕ) → Board → ℕ
pending size b = of_slots size b.shares + of_ranges size b.free

module _ (size : ℕ → ℕ → ℕ) where
  pub of_slots-set :
      (xs : List (Option Share)) (i : ℕ) (s : Share) (o : Option Share)
      → flatten (get_elem? xs i) ≡ some s
      → of_slots size (set xs i o) + of_slot size (some s) ≡ of_slots size xs + of_slot size o
  of_slots-set [] i s o e = cc
  of_slots-set (x ∷ xs) zero s o e = rw e (omega arith)
  of_slots-set (x ∷ xs) (suc i) s o e = omega (arith, of_slots-set xs i s o e)

  pub of_slots-nones :
      (xs : List (Option Share)) (n : ℕ) → of_slots size (xs ++ replicate n none) ≡ of_slots size xs
  of_slots-nones [] zero = refl
  of_slots-nones [] (suc n) = omega (arith, of_slots-nones [] n)
  of_slots-nones (x ∷ xs) n = omega (arith, of_slots-nones xs n)

  -- To write to a slot that holds nothing.
  pub of_slots-set_empty :
      (xs : List (Option Share)) (i : ℕ) (o : Option Share)
      → i < length xs
      → of_slot size (flatten (get_elem? xs i)) ≡ 0
      → of_slots size (set xs i o) ≡ of_slots size xs + of_slot size o
  of_slots-set_empty [] i o h e = elim h [ ]
  of_slots-set_empty (x ∷ xs) zero o h e = omega arith
  of_slots-set_empty (x ∷ xs) (suc i) o h e =
      omega (arith, of_slots-set_empty xs i o (omega arith) e)

  pub of_ranges-insert_free :
      (a e : ℕ) (free : List Range)
      → of_ranges size (insert_free (a, e) free) ≡ size a e + of_ranges size free
  unfolding insert_free
  of_ranges-insert_free a e [] = refl
  of_ranges-insert_free a e ((a', e') ∷ free) = ground (arith, of_ranges-insert_free a e free)

-- A slot past the end holds nothing, and resizing keeps the slots.
pub get-resize :
    (xs : List (Option Share)) (n i : ℕ)
    → flatten (get_elem? (xs ++ replicate n none) i) ≡ flatten (get_elem? xs i)
get-resize [] zero i = refl
get-resize [] (suc n) zero = refl
get-resize [] (suc n) (suc i) = get-resize [] n i
get-resize (x ∷ xs) n zero = refl
get-resize (x ∷ xs) n (suc i) = get-resize xs n i

pub get-set_ne :
    (xs : List (Option Share)) (i j : ℕ) (o : Option Share)
    → i ≢ j
    → flatten (get_elem? (set xs i o) j) ≡ flatten (get_elem? xs j)
get-set_ne [] i j o h = refl
get-set_ne (x ∷ xs) zero zero o h = absurd (h refl)
get-set_ne (x ∷ xs) zero (suc j) o h = refl
get-set_ne (x ∷ xs) (suc i) zero o h = refl
get-set_ne (x ∷ xs) (suc i) (suc j) o h = get-set_ne xs i j o (λ e. h (ap suc e))

pub length-resize :
    (xs : List (Option Share)) (n : ℕ) → n ≤ length (xs ++ replicate (n - length xs) none)
length-resize xs n = omega (
  arith,
  length-append xs (replicate (n - length xs) none),
  length-replicate {A = Option Share} (n - length xs) none,
)
