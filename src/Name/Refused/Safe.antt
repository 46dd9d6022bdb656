-- ===== src/Name/Refused/Safe.antt =====
-- The paths that are not refused, told by the characters and the names that they may have.
use fetchloom.Base.{
  ℕ, suc, ◌≤◌, ◌<◌, ◌≡◌, ◌≢◌, refl, ap, ◌↔◌, ◌⊎◌, inl, inr, Bool, true, false, ◌&&◌, ◌||◌, List, [],
  ◌∷◌, Option, none, some, arith, ltb, leb, ◌==◌, any, All, if◌then◌else◌, Bool-cases,
}
use fetchloom.Base.Text.{Text, text_eq, text_eq→≡, split}
use fetchloom.Name.Dataset.{is_nil}
use fetchloom.Name.Refused.{is_bidi_control, is_control, names_drive, is_dots, escapes}
use fetchloom.Name.Refused.Resolves.{escapes→IsPassed, IsPassed→escapes}

-- A character that a path may hold: no backslash, none of the categories of controls, and none of
-- the characters that turn the direction of a text.
pub record MayHold (c : ℕ) : Type 0 where
  pub no_backslash : c ≢ 92
  pub printed : (32 ≤ c) × ((c < 127) ⊎ (159 < c))
  pub no_letter_mark : c ≢ 1564
  pub no_marks : (c < 8206) ⊎ (8207 < c)
  pub no_embeddings : (c < 8234) ⊎ (8238 < c)
  pub no_isolates : (c < 8294) ⊎ (8297 < c)

-- A name on the way: some text but neither `.` nor `..`.
abbrev pub IsName : Text → Type 0
IsName part = (part ≢ []) × (part ≢ 46 ∷ []) × (part ≢ 46 ∷ 46 ∷ [])

-- A letter of ASCII and a colon.
abbrev pub IsDrive : Text → Type 0
IsDrive (c ∷ d ∷ s) = ((65 ≤ c × c ≤ 90) ⊎ (97 ≤ c × c ≤ 122)) × (d ≡ 58)
IsDrive _ = ⊥

pub record IsSafe (path : Text) : Type 0 where
  pub held : All MayHold path
  pub no_drive : ¬ IsDrive path
  pub named : All IsName (split b'/' path)

tests→MayHold : (c : ℕ) → (c == 92) ≡ false → is_control c ≡ false → MayHold c
unfolding is_control is_bidi_control fetchloom.Base.Text.is_control
tests→MayHold c h k = record {
  no_backslash = λ e. ground (arith, h, e);
  printed = ground (arith, k);
  no_letter_mark = λ e. ground (arith, k, e);
  no_marks = ground (arith, k);
  no_embeddings = ground (arith, k);
  no_isolates = ground (arith, k);
}

MayHold→tests : (c : ℕ) → MayHold c → ((c == 92) ≡ false) × (is_control c ≡ false)
unfolding is_control is_bidi_control fetchloom.Base.Text.is_control
MayHold→tests c m = (
  ground (arith, m.no_backslash),
  ground (arith, m.printed, m.no_letter_mark, m.no_marks, m.no_embeddings, m.no_isolates),
)

any_false : (a b : Bool) → (a || b) ≡ false → (a ≡ false) × (b ≡ false)
any_false a b h = (ground (arith, h), ground (arith, h))

or_false : (a b : Bool) → a ≡ false → b ≡ false → (a || b) ≡ false
or_false a b h k = ground (arith, h, k)

tests→held : (s : Text) → any (λ c. c == 92) s ≡ false → any is_control s ≡ false → All MayHold s
tests→held [] h k = tt
tests→held (c ∷ s) h k =
    let (a, h') = any_false (c == 92) _ h in
    let (b, k') = any_false (is_control c) _ k in (tests→MayHold c a b, tests→held s h' k')

held→tests :
    (s : Text) → All MayHold s → (any (λ c. c == 92) s ≡ false) × (any is_control s ≡ false)
held→tests [] h = (refl, refl)
held→tests (c ∷ s) h =
    let m = MayHold→tests c h.0 in
    let t = held→tests s h.1 in (or_false _ _ m.0 t.0, or_false _ _ m.1 t.1)

tests→not-IsDrive : (s : Text) → names_drive s ≡ false → ¬ IsDrive s
unfolding names_drive
tests→not-IsDrive [] h d = d
tests→not-IsDrive (c ∷ []) h d = d
tests→not-IsDrive (c ∷ e ∷ s) h d = ground (arith, h, d.0, d.1)

not-IsDrive→tests : (s : Text) → ¬ IsDrive s → names_drive s ≡ false
unfolding names_drive
not-IsDrive→tests [] h = refl
not-IsDrive→tests (c ∷ []) h = refl
not-IsDrive→tests (c ∷ e ∷ s) h = elim (Bool-cases (names_drive (c ∷ e ∷ s))) [
  | inl d ↦ absurd (h (ground (arith, d), ground (arith, d)))
  | inr d ↦ d
]

not_both : (b : Bool) → b ≡ true → b ≡ false → ⊥
not_both b h k = cc

tests→IsName : (part : Text) → is_nil part ≡ false → is_dots part ≡ false → IsName part
unfolding text_eq
tests→IsName part h k = (
  λ e. not_both (is_nil part) (ap is_nil e) h,
  λ e. not_both (is_dots part) (ap is_dots e) k,
  λ e. not_both (is_dots part) (ap is_dots e) k,
)

not_nil : (part : Text) → part ≢ [] → is_nil part ≡ false
not_nil [] n = absurd (n refl)
not_nil (c ∷ s) n = refl

unequal : (s t : Text) → s ≢ t → text_eq s t ≡ false
unequal s t n = elim (Bool-cases (text_eq s t)) [ inl e ↦ absurd (n (text_eq→≡ s t e)) | inr e ↦ e ]

IsName→tests : (part : Text) → IsName part → (is_nil part ≡ false) × (is_dots part ≡ false)
IsName→tests part n = (not_nil part n.0, or_false _ _ (unequal part _ n.1) (unequal part _ n.2))

tests→named : (ps : List Text) → any is_nil ps ≡ false → any is_dots ps ≡ false → All IsName ps
tests→named [] h k = tt
tests→named (p ∷ ps) h k =
    let (a, h') = any_false (is_nil p) _ h in
    let (b, k') = any_false (is_dots p) _ k in (tests→IsName p a b, tests→named ps h' k')

named→tests : (ps : List Text) → All IsName ps → (any is_nil ps ≡ false) × (any is_dots ps ≡ false)
named→tests [] h = (refl, refl)
named→tests (p ∷ ps) h =
    let n = IsName→tests p h.0 in
    let t = named→tests ps h.1 in (or_false _ _ n.0 t.0, or_false _ _ n.1 t.1)

-- A path is not refused exactly when it is safe: each of its characters is one that it may hold, it
-- does not start with a drive, and each name between its slashes is some text but neither `.` nor
-- `..`.
pub escapes-IsSafe : (path : Text) → (escapes path ≡ none) ↔ IsSafe path
escapes-IsSafe path = (
  λ e.
      let p = escapes→IsPassed path e in
      record {
        held = tests→held path p.no_backslash p.no_control;
        no_drive = tests→not-IsDrive path p.no_drive;
        named = tests→named (split b'/' path) p.no_empty p.no_dots;
      },
  λ s.
      let t = held→tests path s.held in
      let n = named→tests (split b'/' path) s.named in
      IsPassed→escapes path (record {
        no_backslash = t.0;
        no_control = t.1;
        no_drive = not-IsDrive→tests path s.no_drive;
        no_empty = n.0;
        no_dots = n.1;
      }),
)
