-- ===== src/Name/Sanitize/Keeps.antt =====
-- What the steps of `sanitize` keep of a text: its characters, and the limit on its length.
use fetchloom.Base.{
  ℕ, suc, ◌+◌, ◌-◌, ◌≤◌, ◌≡◌, refl, sym, ap, subst, ◌∙◌, inl, inr, Bool, true, false, not, ◌&&◌,
  ◌||◌, List, [], ◌∷◌, ◌++◌, map, Option, none, some, arith, ltb, leb, ◌==◌, any, all, All,
  if◌then◌else◌, Bool-cases,
}
use fetchloom.Base.Text.{
  Text, codes, utf8_width, byte_len, text_eq, is_whitespace, drop_while, drop_while_end,
  keep_before, glue, split, trim,
}
use fetchloom.Name.Pieces.{
  split_by, all-append, all-drop_while, all-drop_while_end, all-any, split_by-pieces,
  split_by-apart,
}
use fetchloom.Name.Refused.{is_bidi_control}
use fetchloom.Name.Stored.{
  longest, longer_end, from_last_dot, take_bytes, extension_of, shorten, is_refused_char,
  is_dot_or_space,
}
use fetchloom.Name.Sanitize.{last_or, is_separator, replaced, last_name, trimmed}

-- The characters that are left in a name.
unfoldable pub is_kept : ℕ → Bool
is_kept c =
    not (fetchloom.Base.Text.is_control c)
    && not (is_bidi_control c)
    && not (is_refused_char c)
    && not (is_separator c)

abbrev is_inner : ℕ → Bool
is_inner c = not (is_bidi_control c)

last_or-all :
    (q : ℕ → Bool) (s : Text) (ps : List Text)
    → all q s ≡ true
    → All (λ w. all q w ≡ true) ps
    → all q (last_or s ps) ≡ true
last_or-all q s [] h k = h
last_or-all q s (p ∷ ps) h k = last_or-all q p ps k.0 k.1

pub underscore-is_kept : is_kept b'_' ≡ true
unfolding is_kept fetchloom.Base.Text.is_control is_bidi_control
underscore-is_kept = refl

replaced-is_kept :
    (c : ℕ) → is_inner c ≡ true → not (is_separator c) ≡ true → is_kept (replaced c) ≡ true
unfolding is_kept
replaced-is_kept c h k = elim (Bool-cases (fetchloom.Base.Text.is_control c || is_refused_char c)) [
  | inl e ↦ rw e underscore-is_kept
  | inr e ↦ rw e (ground (arith, h, k, e))
]

map-is_kept :
    (s : Text)
    → all is_inner s ≡ true
    → all (λ c. not (is_separator c)) s ≡ true
    → all is_kept (map replaced s) ≡ true
map-is_kept [] h k = refl
map-is_kept (c ∷ s) h k = ground (arith, replaced-is_kept c, map-is_kept s, h, k)

pub last_name-is_kept :
    (raw : Text)
    → any is_bidi_control raw ≡ false
    → all is_kept (map replaced (last_name raw)) ≡ true
unfolding last_name
last_name-is_kept raw h =
    map-is_kept (last_or [] (split_by is_separator raw))
      (last_or-all is_inner [] _ refl
        (split_by-pieces is_inner is_separator raw (all-any is_bidi_control raw h)))
      (last_or-all (λ c. not (is_separator c)) [] _ refl (split_by-apart is_separator raw))

pub trimmed-all : (q : ℕ → Bool) (s : Text) → all q s ≡ true → all q (trimmed s) ≡ true
unfolding trimmed trim
trimmed-all q s h =
    all-drop_while_end q is_dot_or_space (drop_while_end is_whitespace (drop_while is_whitespace s))
      (all-drop_while_end q is_whitespace (drop_while is_whitespace s)
        (all-drop_while q is_whitespace s h))

take_bytes-all : (q : ℕ → Bool) (n : ℕ) (s : Text) → all q s ≡ true → all q (take_bytes n s) ≡ true
unfolding take_bytes
take_bytes-all q n [] h = refl
take_bytes-all q n (c ∷ s) h = elim (Bool-cases (leb (utf8_width c) n)) [
  | inl e ↦ rw e (ground (arith, take_bytes-all q (n - utf8_width c) s, h))
  | inr e ↦ rw e refl
]

from_last_dot-all : (q : ℕ → Bool) (s : Text) → all q s ≡ true → all q (from_last_dot s) ≡ true
unfolding from_last_dot
from_last_dot-all q [] h = refl
from_last_dot-all q (c ∷ s) h = from (from_last_dot s) (from_last_dot-all q s (ground (arith, h)))
  where
    from : (t : Text) → all q t ≡ true → all q (longer_end c s t) ≡ true
    from [] k = elim (Bool-cases (c == b'.')) [ inl e ↦ rw e h | inr e ↦ rw e refl ]
    from (d ∷ t) k = k

extension_of-all : (q : ℕ → Bool) (s : Text) → all q s ≡ true → all q (extension_of s) ≡ true
unfolding extension_of
extension_of-all q s h = elim (Bool-cases (leb (byte_len (from_last_dot s)) 20)) [
  | inl e ↦ rw e (from_last_dot-all q s h)
  | inr e ↦ rw e refl
]

pub shorten-all : (q : ℕ → Bool) (s : Text) → all q s ≡ true → all q (shorten s) ≡ true
unfolding shorten
shorten-all q s h = elim (Bool-cases (leb (byte_len s) longest)) [
  | inl e ↦ rw e h
  | inr e ↦ rw e (all-append q _ _ (take_bytes-all q _ s h) (extension_of-all q s h))
]

-- `shorten` keeps to its limit.
byte_len-append : (s t : Text) → byte_len (s ++ t) ≡ byte_len s + byte_len t
unfolding byte_len
byte_len-append [] t = omega arith
byte_len-append (c ∷ s) t = omega (arith, byte_len-append s t)

byte_len-take_bytes : (n : ℕ) (s : Text) → byte_len (take_bytes n s) ≤ n
unfolding take_bytes byte_len
byte_len-take_bytes n [] = omega arith
byte_len-take_bytes n (c ∷ s) = elim (Bool-cases (leb (utf8_width c) n)) [
  | inl e ↦ rw e (ground (arith, byte_len-take_bytes (n - utf8_width c) s, e))
  | inr e ↦ rw e (omega arith)
]

byte_len-extension_of : (s : Text) → byte_len (extension_of s) ≤ 20
unfolding extension_of byte_len
byte_len-extension_of s = elim (Bool-cases (leb (byte_len (from_last_dot s)) 20)) [
  | inl e ↦ rw e (ground (arith, e))
  | inr e ↦ rw e (omega arith)
]

pub byte_len-shorten : (s : Text) → byte_len (shorten s) ≤ longest
unfolding shorten
byte_len-shorten s = elim (Bool-cases (leb (byte_len s) longest)) [
  | inl e ↦ rw e (ground (arith, e))
  | inr e ↦ rw e (
      omega (
        arith,
        byte_len-append (take_bytes (longest - byte_len (extension_of s)) s) (extension_of s),
        byte_len-take_bytes (longest - byte_len (extension_of s)) s,
        byte_len-extension_of s,
      ))
]
