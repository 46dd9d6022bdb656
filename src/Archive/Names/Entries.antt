-- ===== src/Archive/Names/Entries.antt =====
-- What one entry leaves behind: the names that were seen stay, and a file stands where its path
-- leads.
use fetchloom.Base.{
  ℕ, ◌≡◌, refl, sym, ap, ap₂, subst, ◌∙◌, inl, inr, Bool, true, false, ◌&&◌, List, [], ◌∷◌, ◌++◌,
  Option, none, some, arith, ◌==◌, Bool-cases, some_inj, none-some,
}
use fetchloom.Base.Text.{Text, text_eq, text_eq→≡, text_eq_refl}
use fetchloom.Name.Folded.{Unicode, fold}
use fetchloom.Archive.Names.{
  Seen, Names, Outcome, accepted, refused, lookup, check_budget, enter, meet, occupied, insert_at,
  insert, insert_all,
}

abbrev pub Map : Type 0
Map = List ((ℕ × Text) × Seen)

abbrev pub Extends : Map → Map → Type 0
Extends a b = (k : ℕ × Text) (s : Seen) → lookup k a ≡ some s → lookup k b ≡ some s

pub Extends-trans : (a b c : Map) → Extends a b → Extends b c → Extends a c
Extends-trans a b c h i k s e = i k s (h k s e)

-- The names `keys`, read from `at`, lead to a file.
abbrev pub IsFileAt : Map → ℕ → List Text → Type 0
IsFileAt m at [] = ⊥
IsFileAt m at (k ∷ []) = (s : Seen) × (lookup (at, k) m ≡ some s) × (s.is_folder ≡ false)
IsFileAt m at (k ∷ l ∷ ks) =
    (s : Seen) × (lookup (at, k) m ≡ some s) × (s.is_folder ≡ true) × IsFileAt m s.id (l ∷ ks)

pub IsFileAt-Extends :
    (a b : Map) (at : ℕ) (ks : List Text) → Extends a b → IsFileAt a at ks → IsFileAt b at ks
IsFileAt-Extends a b at [] h i = i
IsFileAt-Extends a b at (k ∷ []) h i = (i.0, h (at, k) i.0 i.1, i.2)
IsFileAt-Extends a b at (k ∷ l ∷ ks) h i =
    (i.0, h (at, k) i.0 i.1, i.2, IsFileAt-Extends a b i.0.id (l ∷ ks) h i.3)

lookup-entered :
    (at : ℕ) (k : Text) (s : Seen) (m : Map) → lookup (at, k) (((at, k), s) ∷ m) ≡ some s
unfolding lookup
lookup-entered at k s m = ground (arith, text_eq_refl k)

entered-Extends :
    (at : ℕ) (k : Text) (s : Seen) (m : Map)
    → lookup (at, k) m ≡ none
    → Extends m (((at, k), s) ∷ m)
unfolding lookup
entered-Extends at k s m h (at', k') t e = elim (Bool-cases (at' == at && text_eq k' k)) [
  | inl same ↦ absurd (none-some (sym h ∙ (found same ∙ e)))
  | inr other ↦ rw other e
]
  where
    found : (at' == at && text_eq k' k) ≡ true → lookup (at, k) m ≡ lookup (at', k') m
    found same =
        ap₂ (λ a b. lookup (a, b) m) (ground (arith, same))
          (sym (text_eq→≡ k' k (ground (arith, same))))

enter-Extends :
    (names : Names) (at : ℕ) (key name : Text) (raw : Option Text) (is_folder : Bool)
    → lookup (at, key) names.seen ≡ none
    → Extends names.seen (enter names at key name raw is_folder).seen
unfolding enter
enter-Extends names at key name raw is_folder h = entered-Extends at key _ names.seen h

check_budget-accepted :
    {A : Type 0} (names : Names) (a b : A) → check_budget names a ≡ accepted b → a ≡ b
unfolding check_budget
check_budget-accepted names a b h = ground (arith, h)

abbrev IsSeen : Map → ℕ → Text → ℕ → Bool → Type 0
IsSeen m at key id is_folder =
    (s : Seen) × (lookup (at, key) m ≡ some s) × (s.id ≡ id) × (s.is_folder ≡ is_folder)

meet-accepted :
    (old : Seen) (path : Text) (raw : Option Text) (is_folder : Bool) (id : ℕ)
    → meet old path raw is_folder ≡ accepted id
    → (old.id ≡ id) × (old.is_folder ≡ true) × (is_folder ≡ true)
unfolding meet
meet-accepted old path raw is_folder id h = ground (arith, h)

occupied-accepted :
    (old : Seen) (key before name : Text) (raw : Option Text) (is_folder : Bool) (id : ℕ)
    → occupied old key before name raw is_folder ≡ accepted id
    → (old.id ≡ id) × (old.is_folder ≡ true) × (is_folder ≡ true)
unfolding occupied
occupied-accepted old key before name raw is_folder id h =
    ground (arith, h, meet-accepted old (before ++ name) raw is_folder id)

insert_at-Extends :
    (o : Option Seen) (names : Names) (at : ℕ) (key before name : Text) (raw : Option Text)
    (is_folder : Bool)
    → lookup (at, key) names.seen ≡ o
    → Extends names.seen (insert_at o names at key before name raw is_folder).0.seen
unfolding insert_at
insert_at-Extends none names at key before name raw is_folder h =
    enter-Extends names at key name raw is_folder h
insert_at-Extends (some old) names at key before name raw is_folder h = λ k s e. e

insert_at-accepted :
    (o : Option Seen) (names : Names) (at : ℕ) (key before name : Text) (raw : Option Text)
    (is_folder : Bool) (id : ℕ)
    → lookup (at, key) names.seen ≡ o
    → (insert_at o names at key before name raw is_folder).1 ≡ accepted id
    → IsSeen (insert_at o names at key before name raw is_folder).0.seen at key id is_folder
unfolding insert_at enter
insert_at-accepted none names at key before name raw is_folder id h e = (
  _,
  lookup-entered at key _ names.seen,
  check_budget-accepted (enter names at key name raw is_folder) _ id e,
  refl,
)
insert_at-accepted (some old) names at key before name raw is_folder id h e =
    let r = occupied-accepted old key before name raw is_folder id e in (old, h, r.0, r.1 ∙ sym r.2)

insert_at-new :
    (o : Option Seen) (names : Names) (at : ℕ) (key before name : Text) (raw : Option Text) (id : ℕ)
    → (insert_at o names at key before name raw false).1 ≡ accepted id
    → o ≡ none
unfolding insert_at
insert_at-new none names at key before name raw id e = refl
insert_at-new (some old) names at key before name raw id e =
    absurd (true_false (occupied-accepted old key before name raw false id e).2)
  where
    true_false : false ≡ true → ⊥
    true_false x = cc

module _ (u : Unicode) where
  abbrev pub keys_of : List Text → List Text
  keys_of [] = []
  keys_of (name ∷ rest) = fold u name ∷ keys_of rest

  pub insert-Extends :
      (names : Names) (at : ℕ) (before name : Text) (raw : Option Text) (is_folder : Bool)
      → Extends names.seen (insert u names at before name raw is_folder).0.seen
  unfolding insert
  insert-Extends names at before name raw is_folder =
      insert_at-Extends _ names at (fold u name) before name raw is_folder refl

  insert-accepted :
      (names : Names) (at : ℕ) (before name : Text) (raw : Option Text) (is_folder : Bool) (id : ℕ)
      → (insert u names at before name raw is_folder).1 ≡ accepted id
      → IsSeen (insert u names at before name raw is_folder).0.seen at (fold u name) id is_folder
  unfolding insert
  insert-accepted names at before name raw is_folder id =
      insert_at-accepted _ names at (fold u name) before name raw is_folder id refl

  insert-new :
      (names : Names) (at : ℕ) (before name : Text) (raw : Option Text) (id : ℕ)
      → (insert u names at before name raw false).1 ≡ accepted id
      → lookup (at, fold u name) names.seen ≡ none
  unfolding insert
  insert-new names at before name raw id = insert_at-new _ names at (fold u name) before name raw id

  abbrev pub next_insert :
      Text → List Text → Option Text → Bool → Names × Outcome ℕ → Names × Outcome ℕ
  next_insert before parts raw is_folder r = elim r.1 [
    | refused e ↦ (r.0, refused e)
    | accepted id ↦ insert_all u r.0 id before parts raw is_folder
  ]

  next_insert-Extends :
      (before : Text) (parts : List Text) (raw : Option Text) (is_folder : Bool)
      (r : Names × Outcome ℕ)
      → ((id : ℕ) → Extends r.0.seen (insert_all u r.0 id before parts raw is_folder).0.seen)
      → Extends r.0.seen (next_insert before parts raw is_folder r).0.seen
  next_insert-Extends before parts raw is_folder (names, refused e) f = λ k s x. x
  next_insert-Extends before parts raw is_folder (names, accepted id) f = f id

  pub insert_all-Extends :
      (names : Names) (at : ℕ) (before : Text) (parts : List Text) (raw : Option Text)
      (is_folder : Bool)
      → Extends names.seen (insert_all u names at before parts raw is_folder).0.seen
  unfolding insert_all
  insert_all-Extends names at before [] raw is_folder = λ k s e. e
  insert_all-Extends names at before (name ∷ []) raw is_folder =
      insert-Extends names at before name raw is_folder
  insert_all-Extends names at before (name ∷ next ∷ rest) raw is_folder =
      let r = insert u names at before name none true in
      Extends-trans names.seen r.0.seen _ (insert-Extends names at before name none true) (
        next_insert-Extends (before ++ (name ++ (b'/' ∷ []))) (next ∷ rest) raw is_folder r
          (λ id. insert_all-Extends r.0 id _ (next ∷ rest) raw is_folder))

  -- A file that is entered: it stands where its names lead, which led nowhere before.
  abbrev pub IsEntered : Map → Map → ℕ → List Text → Type 0
  IsEntered before after at keys = IsFileAt after at keys × (IsFileAt before at keys → ⊥)

  next_insert-IsEntered :
      (before : Text) (parts : List Text) (raw : Option Text) (r : Names × Outcome ℕ) (id : ℕ)
      → (next_insert before parts raw false r).1 ≡ accepted id
      → ((id' : ℕ)
          → (insert_all u r.0 id' before parts raw false).1 ≡ accepted id
          → IsEntered r.0.seen
              (insert_all u r.0 id' before parts raw false).0.seen
              id'
              (keys_of parts))
      → (id' : ℕ) × (r.1 ≡ accepted id')
        × IsEntered r.0.seen (next_insert before parts raw false r).0.seen id' (keys_of parts)
  next_insert-IsEntered before parts raw (names, refused e) id h f = absurd (none_such h)
    where
      none_such : (◌≡◌ {A = Outcome ℕ} (refused e) (accepted id)) → ⊥
      none_such x = cc
  next_insert-IsEntered before parts raw (names, accepted id') id h f = (id', refl, f id' h)

  IsEntered-cons :
      (m m' m'' : Map) (at id : ℕ) (key next : Text) (keys : List Text)
      → Extends m m'
      → Extends m' m''
      → IsSeen m' at key id true
      → IsEntered m' m'' id (next ∷ keys)
      → IsEntered m m'' at (key ∷ next ∷ keys)
  IsEntered-cons m m' m'' at id key next keys h h' seen i = (
    (
      seen.0,
      h' (at, key) seen.0 seen.1,
      seen.3,
      subst (λ n. IsFileAt m'' n (next ∷ keys)) (sym seen.2) i.0,
    ),
    λ was. i.1 (
        subst (λ n. IsFileAt m' n (next ∷ keys)) (same was.0 (h (at, key) was.0 was.1))
          (IsFileAt-Extends m m' was.0.id (next ∷ keys) h was.3)),
  )
    where
      same : (t : Seen) → lookup (at, key) m' ≡ some t → t.id ≡ id
      same t e = ap (λ (s : Seen). s.id) (some_inj (sym e ∙ seen.1)) ∙ seen.2

  pub insert_all-IsEntered :
      (names : Names) (at : ℕ) (before name : Text) (rest : List Text) (raw : Option Text) (id : ℕ)
      → (insert_all u names at before (name ∷ rest) raw false).1 ≡ accepted id
      → IsEntered names.seen
          (insert_all u names at before (name ∷ rest) raw false).0.seen
          at
          (keys_of (name ∷ rest))
  unfolding insert_all
  insert_all-IsEntered names at before name [] raw id h =
      let s = insert-accepted names at before name raw false id h in
      ((s.0, s.1, s.3), λ was. none-some (sym (insert-new names at before name raw id h) ∙ was.1))
  insert_all-IsEntered names at before name (next ∷ rest) raw id h =
      let r = insert u names at before name none true in
      let path = before ++ (name ++ (b'/' ∷ [])) in
      let i =
        next_insert-IsEntered path (next ∷ rest) raw r id h
          (λ id' h'. insert_all-IsEntered r.0 id' path next rest raw id h') in
      IsEntered-cons names.seen r.0.seen _ at i.0 (fold u name) (fold u next) (keys_of rest)
        (insert-Extends names at before name none true)
        (next_insert-Extends path (next ∷ rest) raw false r
          (λ id'. insert_all-Extends r.0 id' path (next ∷ rest) raw false))
        (insert-accepted names at before name none true i.0 i.1) i.2
