-- ===== src/Name/Refused/Resolves.antt =====
-- What it means that a path is not refused.
use fetchloom.Base.{
  ◌≡◌, refl, sym, ◌∙◌, inl, inr, Bool, true, false, ◌||◌, List, [], ◌∷◌, ◌++◌, Option, none, some,
  arith, ◌==◌, any, append_assoc, append-nil, if◌then◌else◌, Bool-cases,
}
use fetchloom.Base.Text.{Text, text_eq, split}
use fetchloom.Name.Pieces.{starts_with}
use fetchloom.Name.Dataset.{is_nil}
use fetchloom.Name.Refused.{is_control, names_drive, is_dots, escapes_parts, escapes}

-- A folder as the names on the way to it, and where a relative path leads from there when `.`
-- stays, `..` climbs, and an empty name goes back to the root.
unfoldable pub up : List Text → List Text
up [] = []
up (n ∷ []) = []
up (n ∷ m ∷ ns) = n ∷ up (m ∷ ns)

unfoldable pub resolve : List Text → List Text → List Text
unfolding up
resolve folder [] = folder
resolve folder (part ∷ parts) =
    if is_nil part
    then resolve [] parts
    else if text_eq part (b'.' ∷ [])
    then resolve folder parts
    else if text_eq part (b'.' ∷ b'.' ∷ [])
    then resolve (up folder) parts
    else resolve (folder ++ (part ∷ [])) parts

-- The tests of `escapes`, each passed.
pub record IsPassed (path : Text) : Type 0 where
  pub no_backslash : any (λ c. c == b'\\') path ≡ false
  pub no_control : any is_control path ≡ false
  pub no_drive : names_drive path ≡ false
  pub no_empty : any is_nil (split b'/' path) ≡ false
  pub no_dots : any is_dots (split b'/' path) ≡ false

module _ {A : Type 0} where
  guard→ :
      (b : Bool) (r : A) (o : Option A)
      → (if b then some r else o) ≡ none
      → (b ≡ false) × (o ≡ none)
  guard→ true r o h = cc
  guard→ false r o h = (refl, h)

escapes_parts→ :
    (parts : List Text)
    → escapes_parts parts ≡ none
    → (any is_nil parts ≡ false) × (any is_dots parts ≡ false)
unfolding escapes_parts
escapes_parts→ [] h = (refl, refl)
escapes_parts→ (p ∷ ps) h =
    let (a, h1) = guard→ (is_nil p) _ _ h in
    let (b, h2) = guard→ (is_dots p) _ _ h1 in
    let (c, d) = escapes_parts→ ps h2 in (ground (arith, a, c), ground (arith, b, d))

pub escapes→IsPassed : (path : Text) → escapes path ≡ none → IsPassed path
unfolding escapes
escapes→IsPassed path h =
    let (_, h0) = guard→ (is_nil path) _ _ h in
    let (_, h1) = guard→ (starts_with (λ c. c == b'/') path) _ _ h0 in
    let (a, h2) = guard→ (any (λ c. c == b'\\') path) _ _ h1 in
    let (b, h3) = guard→ (any is_control path) _ _ h2 in
    let (c, h4) = guard→ (names_drive path) _ _ h3 in
    let (d, e) = escapes_parts→ (split b'/' path) h4 in
    record { no_backslash = a; no_control = b; no_drive = c; no_empty = d; no_dots = e }

←escapes_parts :
    (parts : List Text)
    → any is_nil parts ≡ false
    → any is_dots parts ≡ false
    → escapes_parts parts ≡ none
unfolding escapes_parts
←escapes_parts [] h k = refl
←escapes_parts (p ∷ ps) h k = ground (arith, ←escapes_parts ps, h, k)

no {ℓ} : {A : Type ℓ} → true ≡ false → A
no e = cc

-- A path that is empty or starts at the root has an empty first name.
rooted :
    (path : Text)
    → any is_nil (split b'/' path) ≡ false
    → (is_nil path ≡ false) × (starts_with (λ c. c == b'/') path ≡ false)
unfolding split starts_with
rooted [] h = cc
rooted (c ∷ s) h = elim (Bool-cases (c == b'/')) [ inl e ↦ no (rw e at h) | inr e ↦ (refl, e) ]

pub IsPassed→escapes : (path : Text) → IsPassed path → escapes path ≡ none
unfolding escapes
IsPassed→escapes path s =
    let (a, b) = rooted path s.no_empty in
    rw (a, b, s.no_backslash, s.no_control, s.no_drive)
      (←escapes_parts (split b'/' path) s.no_empty s.no_dots)

none_of : (a b : Bool) → (a || b) ≡ false → (a ≡ false) × (b ≡ false)
none_of a b h = (ground (arith, h), ground (arith, h))

resolve-plain :
    (folder parts : List Text)
    → any is_nil parts ≡ false
    → any is_dots parts ≡ false
    → resolve folder parts ≡ folder ++ parts
unfolding resolve
resolve-plain folder [] h k = sym (append-nil folder)
resolve-plain folder (p ∷ ps) h k =
    let (a, h') = none_of (is_nil p) (any is_nil ps) h in
    let (b, k') = none_of (is_dots p) (any is_dots ps) k in
    let (c, d) = none_of (text_eq p (b'.' ∷ [])) (text_eq p (b'.' ∷ b'.' ∷ [])) b in
    rw (a, c, d) (resolve-plain (folder ++ (p ∷ [])) ps h' k' ∙ append_assoc folder (p ∷ []) ps)

-- A path that is not refused leads from any folder to a place below it, by its own names.
pub resolve-escapes :
    (folder : List Text) (path : Text)
    → escapes path ≡ none
    → resolve folder (split b'/' path) ≡ folder ++ split b'/' path
resolve-escapes folder path h =
    let s = escapes→IsPassed path h in resolve-plain folder (split b'/' path) s.no_empty s.no_dots
