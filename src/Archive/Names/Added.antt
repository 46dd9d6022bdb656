-- ===== src/Archive/Names/Added.antt =====
-- What one call of `add` does: no name is lost, and a file that it takes is entered.
use fetchloom.Base.{
  ℕ, ◌+◌, ◌≡◌, refl, sym, subst, inl, inr, Bool, true, false, ◌||◌, List, [], ◌∷◌, Option, none,
  some, ltb, ◌==◌, if◌then◌else◌, Bool-cases, if_both,
}
use fetchloom.Base.Text.{Text, text_eq, glue, split, byte_len}
use fetchloom.Name.Pieces.{ends_with}
use fetchloom.Name.Folded.{Unicode}
use fetchloom.Archive.Names.{
  longest_path, strip_slash, strip_dots, Named, file, folder, Names, Refusal, too_long, Outcome,
  accepted, refused, check_budget, insert_all, saturating, named, add_nfc, add_path, add, refusal,
}
use fetchloom.Archive.Names.Entries.{
  Map, Extends, keys_of, insert_all-Extends, IsEntered, insert_all-IsEntered,
}

pub refused_accepted :
    {e : Refusal} {n : Named} → ◌≡◌ {A = Outcome Named} (refused e) (accepted n) → ⊥
refused_accepted h = cc

folder_file : {path : Text} → ◌≡◌ {A = Outcome Named} (accepted folder) (accepted (file path)) → ⊥
folder_file h = cc

file_inj : {p q : Text} → ◌≡◌ {A = Outcome Named} (accepted (file p)) (accepted (file q)) → p ≡ q
file_inj h = cc

-- A split text has a first piece.
glue_first : (c : ℕ) (ps : List Text) → (p : Text) × (rest : List Text) × (glue c ps ≡ p ∷ rest)
glue_first c [] = (c ∷ [], [], refl)
glue_first c (p ∷ ps) = (c ∷ p, ps, refl)

split_first : (c : ℕ) (s : Text) → (p : Text) × (rest : List Text) × (split c s ≡ p ∷ rest)
unfolding split
split_first c [] = ([], [], refl)
split_first c (d ∷ s) = elim (Bool-cases (d == c)) [
  | inl e ↦ ([], split c s, rw e refl)
  | inr e ↦ let g = glue_first d (split c s) in (g.0, g.1, rw e g.2)
]

module _ (u : Unicode) where
  -- The names of a path, as they are compared.
  abbrev pub keys : Text → List Text
  keys path = keys_of u (split b'/' path)

module _ (u : Unicode) (windows : Bool) where
  -- What `add` may do: no name is lost, and a file that it takes is entered and was not refused.
  pub record IsAdded (m : Map) (r : Names × Outcome Named) : Type 0 where
    pub extends : Extends m r.0.seen
    pub entered :
        (path : Text) → r.1 ≡ accepted (file path) → IsEntered u m r.0.seen 0 (keys u path)
    pub taken : (path : Text) → r.1 ≡ accepted (file path) → refusal windows path ≡ none

  refused-IsAdded : (names : Names) (e : Refusal) → IsAdded names.seen (names, refused e)
  refused-IsAdded names e = record {
    extends = λ k s x. x;
    entered = λ path h. absurd (refused_accepted h);
    taken = λ path h. absurd (refused_accepted h);
  }

  folder-IsAdded : (names : Names) → IsAdded names.seen (names, accepted folder)
  folder-IsAdded names = record {
    extends = λ k s x. x;
    entered = λ path h. absurd (folder_file h);
    taken = λ path h. absurd (folder_file h);
  }

  named-IsAdded :
      (m : Map) (nfc : Text) (is_folder : Bool) (r : Names × Outcome ℕ)
      → Extends m r.0.seen
      → refusal windows nfc ≡ none
      → (is_folder ≡ false → (id : ℕ) → r.1 ≡ accepted id → IsEntered u m r.0.seen 0 (keys u nfc))
      → IsAdded m (named nfc is_folder r)
  named-IsAdded m nfc is_folder (names, refused e) h t f = record {
    extends = h;
    entered = λ path x. absurd (refused_accepted x);
    taken = λ path x. absurd (refused_accepted x);
  }
  named-IsAdded m nfc true (names, accepted id) h t f = record {
    extends = h;
    entered = λ path x. absurd (folder_file x);
    taken = λ path x. absurd (folder_file x);
  }
  named-IsAdded m nfc false (names, accepted id) h t f = record {
    extends = h;
    entered =
        λ path x. subst (λ p. IsEntered u m names.seen 0 (keys u p)) (file_inj x) (f refl id refl);
    taken = λ path x. subst (λ p. refusal windows p ≡ none) (file_inj x) t;
  }

  insert_all-IsAdded :
      (names : Names) (nfc : Text) (raw : Option Text) (is_folder : Bool)
      → refusal windows nfc ≡ none
      → IsAdded names.seen
          (named nfc is_folder (insert_all u names 0 [] (split b'/' nfc) raw is_folder))
  insert_all-IsAdded names nfc raw is_folder t =
      named-IsAdded names.seen nfc is_folder _
        (insert_all-Extends u names 0 [] (split b'/' nfc) raw is_folder) t
        (λ is_file id h.
          subst
            (λ d.
              IsEntered u names.seen (insert_all u names 0 [] (split b'/' nfc) raw d).0.seen 0
                (keys u nfc))
            (sym is_file)
            (entered id (
              subst (λ d. (insert_all u names 0 [] (split b'/' nfc) raw d).1 ≡ accepted id) is_file
                h)))
    where
      entered :
          (id : ℕ)
          → (insert_all u names 0 [] (split b'/' nfc) raw false).1 ≡ accepted id
          → IsEntered u names.seen
              (insert_all u names 0 [] (split b'/' nfc) raw false).0.seen
              0
              (keys u nfc)
      entered id =
          let first = split_first b'/' nfc in
          subst
            (λ parts.
              (insert_all u names 0 [] parts raw false).1 ≡ accepted id
              → IsEntered u names.seen (insert_all u names 0 [] parts raw false).0.seen 0
                  (keys_of u parts))
            (sym first.2) (insert_all-IsEntered u names 0 [] first.0 first.1 raw id)

  add_nfc-IsAdded :
      (o : Option Refusal) (names : Names) (raw nfc : Text) (is_folder : Bool)
      → refusal windows nfc ≡ o
      → IsAdded names.seen (add_nfc u windows o names raw nfc is_folder)
  unfolding add_nfc
  add_nfc-IsAdded (some e) names raw nfc is_folder h = refused-IsAdded names e
  add_nfc-IsAdded none names raw nfc is_folder h =
      elim (check_budget counted nfc)
        as (λ o. IsAdded names.seen (elim o [
          | refused e ↦ (counted, refused e)
          | accepted _ ↦
              named nfc is_folder (insert_all u counted 0 [] (split b'/' nfc) spelled is_folder)
        ])) [
          | refused e ↦ refused-IsAdded counted e
          | accepted _ ↦ insert_all-IsAdded counted nfc spelled is_folder h
        ]
    where
      counted : Names
      counted = record names { kept = saturating (names.kept + byte_len nfc) }

      spelled : Option Text
      spelled = if text_eq raw nfc then none else some raw

  add_path-IsAdded :
      (names : Names) (raw path : Text) (is_folder : Bool)
      → IsAdded names.seen (add_path u windows names raw path is_folder)
  unfolding add_path
  add_path-IsAdded names raw path is_folder =
      if_both (IsAdded names.seen) _ _ _ (folder-IsAdded names)
        (add_nfc-IsAdded _ names raw (u.nfc path) is_folder refl)

  pub add-IsAdded :
      (names : Names) (raw : Text) (is_folder : Bool)
      → IsAdded names.seen (add u windows names raw is_folder)
  unfolding add
  add-IsAdded names raw is_folder =
      if_both (IsAdded names.seen) (ltb longest_path (byte_len raw)) _ _
        (refused-IsAdded names too_long)
        (add_path-IsAdded names raw (strip_slash (strip_dots raw))
          (is_folder || ends_with (λ c. c == b'/') (strip_dots raw)))
