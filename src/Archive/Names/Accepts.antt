-- ===== src/Archive/Names/Accepts.antt =====
-- The files that are taken from an archive have safe paths, and the names that are kept of it stay
-- within their budget.
use fetchloom.Base.{
  ℕ, ◌+◌, ◌*◌, ◌≤◌, ◌<◌, ◌≡◌, refl, sym, Bool, true, false, ◌||◌, List, [], ◌∷◌, ◌++◌, Option, none,
  some, arith, ltb, ◌==◌, if◌then◌else◌, if_both, none-some, All, any, length,
}
use fetchloom.Base.Text.{Text, byte_len, split}
use fetchloom.Name.Refused.{is_control, escapes}
use fetchloom.Name.Stored.{unstorable}
use fetchloom.Name.Pieces.{ends_with}
use fetchloom.Name.Folded.{Unicode, fold}
use fetchloom.Archive.Names.{
  Named, file, folder, Seen, Names, Refusal, too_long, Outcome, accepted, refused, check_budget,
  longest_path, first_refusal, u64_max, per_name, enter, insert_at, insert, strip_dots, strip_slash,
  insert_all, saturating, named, add_nfc, add_path, add, add_all, keep, refusal,
}
use fetchloom.Archive.Names.Added.{add-IsAdded, refused_accepted}
use fetchloom.Archive.Names.Entries.{next_insert}

abbrev pub IsTaken : Bool → Text → Type 0
IsTaken windows path =
    (escapes path ≡ none) × (unstorable windows path ≡ none) × (byte_len path ≤ longest_path)

first_refusal-none :
    (o : Option fetchloom.Name.Refused.Reason) (o' : Option fetchloom.Name.Stored.Unstorable)
    → first_refusal o o' ≡ none
    → (o ≡ none) × (o' ≡ none)
first_refusal-none (some e) o' h = absurd (none-some (sym h))
first_refusal-none none (some e) h = absurd (none-some (sym h))
first_refusal-none none none h = (refl, refl)

if_none :
    (o : Option Refusal) (a : Refusal) (b : Bool)
    → (if b then some a else o) ≡ none
    → (b ≡ false) × (o ≡ none)
if_none o a true h = absurd (none-some (sym h))
if_none o a false h = (refl, h)

refusal-none : (windows : Bool) (path : Text) → refusal windows path ≡ none → IsTaken windows path
unfolding refusal
refusal-none windows path h =
    let long = if_none _ _ (ltb longest_path (byte_len path)) h in
    let safe = first_refusal-none _ _ (if_none _ _ (any is_control path) long.1).1 in
    (safe.0, safe.1, ground (arith, long.0))

module _ (u : Unicode) (windows : Bool) where
  keep-IsTaken :
      (o : Outcome Named) (paths : List Text)
      → ((path : Text) → o ≡ accepted (file path) → refusal windows path ≡ none)
      → All (IsTaken windows) paths
      → All (IsTaken windows) (keep o paths)
  keep-IsTaken (refused e) paths f i = i
  keep-IsTaken (accepted folder) paths f i = i
  keep-IsTaken (accepted (file path)) paths f i = (refusal-none windows path (f path refl), i)

  -- Every file that is taken from an archive has a path of at most 4096 bytes that stays below the
  -- folder it is unpacked to and that the machine can store.
  pub add_all-IsTaken :
      (names : Names) (entries : List (Text × Bool))
      → All (IsTaken windows) (add_all u windows names entries).1
  unfolding add_all
  add_all-IsTaken names [] = tt
  add_all-IsTaken names ((raw, is_folder) ∷ entries) =
      let r = add u windows names raw is_folder in
      keep-IsTaken r.1 _ (add-IsAdded u windows names raw is_folder).taken
        (add_all-IsTaken r.0 entries)

-- The names that were kept count at least 64 each, and what they count is within the budget.
abbrev pub IsWithin : ℕ → Names → Type 0
IsWithin budget names =
    (names.budget ≡ budget) × (per_name * length names.seen ≤ names.kept) × (names.kept ≤ budget)

abbrev after_budget : Names → Names × Outcome Named → Outcome Text → Names × Outcome Named
after_budget names r o = elim o [ refused e ↦ (names, refused e) | accepted _ ↦ r ]

module _ (budget : ℕ) (fits : budget < u64_max) where
  insert_at-IsWithin :
      (o : Option Seen) (names : Names) (at : ℕ) (key before name : Text) (raw : Option Text)
      (is_folder : Bool) (id : ℕ)
      → IsWithin budget names
      → (insert_at o names at key before name raw is_folder).1 ≡ accepted id
      → IsWithin budget (insert_at o names at key before name raw is_folder).0
  unfolding insert_at enter check_budget
  insert_at-IsWithin none names at key before name raw is_folder id h e =
      ground (arith, e, h.0, h.1, h.2, fits)
  insert_at-IsWithin (some old) names at key before name raw is_folder id h e = h

  module _ (u : Unicode) where
    insert-IsWithin :
        (names : Names) (at : ℕ) (before name : Text) (raw : Option Text) (is_folder : Bool)
        (id : ℕ)
        → IsWithin budget names
        → (insert u names at before name raw is_folder).1 ≡ accepted id
        → IsWithin budget (insert u names at before name raw is_folder).0
    unfolding insert
    insert-IsWithin names at before name raw is_folder id =
        insert_at-IsWithin _ names at (fold u name) before name raw is_folder id

    next-IsWithin :
        (before : Text) (parts : List Text) (raw : Option Text) (is_folder : Bool)
        (r : Names × Outcome ℕ) (id : ℕ)
        → ((id' : ℕ)
            → r.1 ≡ accepted id'
            → (insert_all u r.0 id' before parts raw is_folder).1 ≡ accepted id
            → IsWithin budget (insert_all u r.0 id' before parts raw is_folder).0)
        → (next_insert u before parts raw is_folder r).1 ≡ accepted id
        → IsWithin budget (next_insert u before parts raw is_folder r).0
    next-IsWithin before parts raw is_folder (names, refused e) id f h = absurd (refused_id h)
      where
        refused_id : ◌≡◌ {A = Outcome ℕ} (refused e) (accepted id) → ⊥
        refused_id x = cc
    next-IsWithin before parts raw is_folder (names, accepted id') id f h = f id' refl h

    insert_all-IsWithin :
        (names : Names) (at : ℕ) (before : Text) (parts : List Text) (raw : Option Text)
        (is_folder : Bool) (id : ℕ)
        → IsWithin budget names
        → (insert_all u names at before parts raw is_folder).1 ≡ accepted id
        → IsWithin budget (insert_all u names at before parts raw is_folder).0
    unfolding insert_all
    insert_all-IsWithin names at before [] raw is_folder id h e = h
    insert_all-IsWithin names at before (name ∷ []) raw is_folder id h e =
        insert-IsWithin names at before name raw is_folder id h e
    insert_all-IsWithin names at before (name ∷ next ∷ rest) raw is_folder id h e =
        let r = insert u names at before name none true in
        next-IsWithin (before ++ (name ++ (b'/' ∷ []))) (next ∷ rest) raw is_folder r id
          (λ id' e'.
            insert_all-IsWithin r.0 id' _ (next ∷ rest) raw is_folder id
              (insert-IsWithin names at before name none true id' h e'))
          e

    named-IsWithin :
        (nfc : Text) (is_folder : Bool) (r : Names × Outcome ℕ) (n : Named)
        → ((id : ℕ) → r.1 ≡ accepted id → IsWithin budget r.0)
        → (named nfc is_folder r).1 ≡ accepted n
        → IsWithin budget (named nfc is_folder r).0
    named-IsWithin nfc is_folder (names, refused e) n f h = absurd (refused_accepted h)
    named-IsWithin nfc is_folder (names, accepted id) n f h = f id refl

    after_budget-IsWithin :
        (names : Names) (o : Outcome Text) (r : Names × Outcome Named) (n : Named)
        → ((t : Text) → o ≡ accepted t → r.1 ≡ accepted n → IsWithin budget r.0)
        → (after_budget names r o).1 ≡ accepted n
        → IsWithin budget (after_budget names r o).0
    after_budget-IsWithin names (refused e) r n f h = absurd (refused_accepted h)
    after_budget-IsWithin names (accepted t) r n f h = f t refl h

    counted-IsWithin :
        (names : Names) (nfc t : Text)
        → IsWithin budget names
        → check_budget (record names { kept = saturating (names.kept + byte_len nfc) }) nfc
          ≡ accepted t
        → IsWithin budget (record names { kept = saturating (names.kept + byte_len nfc) })
    unfolding check_budget
    counted-IsWithin names nfc t h e = ground (arith, e, h.0, h.1, h.2, fits)

    module _ (windows : Bool) where
      add_nfc-IsWithin :
          (o : Option Refusal) (names : Names) (raw nfc : Text) (is_folder : Bool) (n : Named)
          → IsWithin budget names
          → (add_nfc u windows o names raw nfc is_folder).1 ≡ accepted n
          → IsWithin budget (add_nfc u windows o names raw nfc is_folder).0
      unfolding add_nfc
      add_nfc-IsWithin (some e) names raw nfc is_folder n h x = absurd (refused_accepted x)
      add_nfc-IsWithin none names raw nfc is_folder n h x =
          after_budget-IsWithin counted (check_budget counted nfc) _ n
            (λ t e. named-IsWithin nfc is_folder _ n (λ id.
              insert_all-IsWithin counted 0 [] (split b'/' nfc) _ is_folder id
                (counted-IsWithin names nfc t h e)))
            x
        where
          counted : Names
          counted = record names { kept = saturating (names.kept + byte_len nfc) }

      add_path-IsWithin :
          (names : Names) (raw path : Text) (is_folder : Bool) (n : Named)
          → IsWithin budget names
          → (add_path u windows names raw path is_folder).1 ≡ accepted n
          → IsWithin budget (add_path u windows names raw path is_folder).0
      unfolding add_path
      add_path-IsWithin names raw path is_folder n h =
          if_both {A = Names × Outcome Named} (λ r. r.1 ≡ accepted n → IsWithin budget r.0) _
            (names, accepted folder) _ (λ x. h)
            (add_nfc-IsWithin _ names raw (u.nfc path) is_folder n h)

      -- While the names that were kept are within a budget below 2^64 - 1, an entry that is taken
      -- leaves them within it: they are at most a 64th of the budget.
      pub add-IsWithin :
          (names : Names) (raw : Text) (is_folder : Bool) (n : Named)
          → IsWithin budget names
          → (add u windows names raw is_folder).1 ≡ accepted n
          → IsWithin budget (add u windows names raw is_folder).0
      unfolding add
      add-IsWithin names raw is_folder n h =
          if_both {A = Names × Outcome Named} (λ r. r.1 ≡ accepted n → IsWithin budget r.0)
            (ltb longest_path (byte_len raw)) (names, refused too_long) _ (λ x. h)
            (add_path-IsWithin names raw (strip_slash (strip_dots raw))
              (is_folder || ends_with (λ c. c == b'/') (strip_dots raw)) n h)
