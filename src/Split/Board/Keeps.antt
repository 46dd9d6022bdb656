-- ===== src/Split/Board/Keeps.antt =====
-- Every operation of the board keeps it valid.
use fetchloom.Base.{
  ℕ, suc, ◌-◌, ◌≤◌, ◌<◌, ◌≡◌, refl, ap, min, inl, inr, false, ◌&&◌, List, [], ◌∷◌, ◌++◌, Option,
  none, some, arith, ltb, ltb→lt, ◌==◌, length, set, replicate, All, All-append, Bool-cases,
  Option-cases,
}
use fetchloom.Split.Board.{
  Range, Share, Board, new, share, resize, take_range, take_split, split_off, assign_from, assign,
  after_bytes, deliver, behind, extend_open, insert_free, release_to, release, give_back, trim,
}
use fetchloom.Split.Board.Valid.{
  ShareIsValid, SlotIsValid, RangeIsValid, From, Ascending, IsValid, All-set, All-nones,
  share-IsValid, SplitsOff, split_off-SplitsOff,
}

fresh_IsValid :
    (a e : ℕ)
    → a < e
    → ShareIsValid (record { next = a; end = e; is_open = false; started = false })
fresh_IsValid a e h = record { forward = omega arith; closed_when_done = λ _. refl }

take_range-IsValid : (b : Board) (id a e : ℕ) → IsValid b → a < e → IsValid (take_range b id (a, e))
unfolding take_range resize
take_range-IsValid b id a e v h = record {
  shares_valid =
      All-set (b.shares ++ replicate (suc id - length b.shares) none) id _
        (All-append SlotIsValid b.shares _ v.shares_valid (All-nones _)) (fresh_IsValid a e h);
  free_valid = v.free_valid;
  free_ordered = v.free_ordered;
}

pub SplitsOff-IsValid :
    (b : Board) (piece a e : ℕ) (b' : Board)
    → IsValid b
    → SplitsOff b piece (a, e) b'
    → (a < e) × IsValid b'
SplitsOff-IsValid b piece a e b' v s =
    let ok = share-IsValid b s.victim s.victim_share v s.at_victim in
    (
      omega (
        arith,
        ap (λ (r : Range). r.0) s.range_is,
        ap (λ (r : Range). r.1) s.range_is,
        s.is_half,
        s.positive,
        ok.forward,
      ),
      rw s.board_is (record {
        shares_valid = All-set b.shares s.victim _ v.shares_valid (record {
          forward = omega (arith, s.is_half);
          closed_when_done = λ h. absurd (omega (arith, s.is_half, s.positive, ok.forward));
        });
        free_valid = v.free_valid;
        free_ordered = v.free_ordered;
      }),
    )

take_split-IsValid :
    (b : Board) (id piece : ℕ) (o : Option (Range × Board))
    → split_off b piece ≡ o
    → IsValid b
    → IsValid (take_split b id o).1
unfolding take_split
take_split-IsValid b id piece none h v = v
take_split-IsValid b id piece (some ((a, e), b')) h v =
    let (forward, v') =
      SplitsOff-IsValid b piece a e b' v (split_off-SplitsOff b piece (a, e) b' h) in
    take_range-IsValid b' id a e v' forward

assign_from-IsValid :
    (b : Board) (free : List Range) (id piece : ℕ)
    → IsValid b
    → All RangeIsValid free
    → Ascending free
    → IsValid (assign_from b free id piece).1
unfolding assign_from
assign_from-IsValid b [] id piece v f o = take_split-IsValid b id piece (split_off b piece) refl v
assign_from-IsValid b ((a, e) ∷ free) id piece v f o =
    take_range-IsValid (record b { free = free }) id a e
      (record { shares_valid = v.shares_valid; free_valid = f.1; free_ordered = o.1 }) f.0

pub assign-IsValid : (b : Board) (id piece : ℕ) → IsValid b → IsValid (assign b id piece).1
unfolding assign
assign-IsValid b id piece v = assign_from-IsValid b b.free id piece v v.free_valid v.free_ordered

-- To change one share to a valid one.
set-IsValid :
    (b : Board) (id d : ℕ) (o : Option Share)
    → IsValid b
    → SlotIsValid o
    → IsValid (record b { shares = set b.shares id o; delivered = d })
set-IsValid b id d o v h = record {
  shares_valid = All-set b.shares id o v.shares_valid h;
  free_valid = v.free_valid;
  free_ordered = v.free_ordered;
}

after_bytes-IsValid :
    (s : Share) (n : ℕ) → ShareIsValid s → ShareIsValid (after_bytes s (min n (s.end - s.next)))
after_bytes-IsValid s n v = record {
  forward = omega (arith, v.forward);
  closed_when_done = λ h. ground arith;
}

pub deliver-IsValid : (b : Board) (id n : ℕ) → IsValid b → IsValid (deliver b id n).1
unfolding deliver
deliver-IsValid b id n v = elim (Option-cases (share b id)) [
  | inl h ↦ rw h v
  | inr (s, h) ↦ rw h (set-IsValid b id _ _ v (after_bytes-IsValid s n (share-IsValid b id s v h)))
]

All-insert_free :
    (n a e : ℕ) (free : List Range)
    → All (From n) free
    → n ≤ a
    → All (From n) (insert_free (a, e) free)
unfolding insert_free
All-insert_free n a e [] f h = (h, tt)
All-insert_free n a e ((a', e') ∷ free) f h = ground (arith, All-insert_free n a e free)

valid-insert_free :
    (a e : ℕ) (free : List Range)
    → All RangeIsValid free
    → a < e
    → All RangeIsValid (insert_free (a, e) free)
unfolding insert_free
valid-insert_free a e [] f h = (h, tt)
valid-insert_free a e ((a', e') ∷ free) f h = ground (arith, valid-insert_free a e free)

From-mono : (m n : ℕ) (free : List Range) → m ≤ n → All (From n) free → All (From m) free
From-mono m n [] h f = tt
From-mono m n ((a, e) ∷ free) h f = (omega arith, From-mono m n free h f.1)

Ascending-insert_free :
    (a e : ℕ) (free : List Range) → Ascending free → Ascending (insert_free (a, e) free)
unfolding insert_free
Ascending-insert_free a e [] o = (tt, tt)
Ascending-insert_free a e ((a', e') ∷ free) o =
    ground (arith, Ascending-insert_free a e free, All-insert_free a' a e free, From-mono a a' free)

abbrev FoundIsValid : Option (List (Option Share)) → Type 0
FoundIsValid none = Unit
FoundIsValid (some xs) = All SlotIsValid xs

behind-valid :
    (x : Option Share) (o : Option (List (Option Share)))
    → SlotIsValid x
    → FoundIsValid o
    → FoundIsValid (behind x o)
behind-valid x none v h = tt
behind-valid x (some xs) v h = (v, h)

extend_open-valid :
    (xs : List (Option Share)) (a e : ℕ)
    → All SlotIsValid xs
    → a < e
    → FoundIsValid (extend_open xs (a, e))
unfolding extend_open
extend_open-valid [] a e v h = tt
extend_open-valid (none ∷ xs) a e v h =
    behind-valid none (extend_open xs (a, e)) tt (extend_open-valid xs a e v.1 h)
extend_open-valid (some s ∷ xs) a e v h = elim (Bool-cases (s.is_open && s.end == a)) [
  | inl t ↦ rw t (
    record {
      forward = ground (arith, v.0.forward);
      closed_when_done = λ q. absurd (ground (arith, v.0.forward));
    },
    v.1,
  )
  | inr t ↦
      rw t (behind-valid (some s) (extend_open xs (a, e)) v.0 (extend_open-valid xs a e v.1 h))
]

release_to-IsValid :
    (b : Board) (a e : ℕ) (o : Option (List (Option Share)))
    → IsValid b
    → a < e
    → FoundIsValid o
    → IsValid (release_to b (a, e) o)
unfolding release_to
release_to-IsValid b a e none v h f = record {
  shares_valid = v.shares_valid;
  free_valid = valid-insert_free a e b.free v.free_valid h;
  free_ordered = Ascending-insert_free a e b.free v.free_ordered;
}
release_to-IsValid b a e (some xs) v h f = record {
  shares_valid = f;
  free_valid = v.free_valid;
  free_ordered = v.free_ordered;
}

release-IsValid : (b : Board) (a e : ℕ) → IsValid b → a < e → IsValid (release b (a, e))
unfolding release
release-IsValid b a e v h =
    release_to-IsValid b a e (extend_open b.shares (a, e)) v h
      (extend_open-valid b.shares a e v.shares_valid h)

pub give_back-IsValid : (b : Board) (id : ℕ) → IsValid b → IsValid (give_back b id)
unfolding give_back
give_back-IsValid b id v = elim (Option-cases (share b id)) [
  | inl h ↦ rw h v
  | inr (s, h) ↦ rw h (elim (Bool-cases (ltb s.next s.end)) [
    | inl t ↦ rw t (
        release-IsValid _ s.next s.end (set-IsValid b id b.delivered none v tt)
          (ltb→lt s.next s.end t))
    | inr t ↦ rw t (set-IsValid b id b.delivered none v tt)
  ])
]

pub trim-IsValid : (b : Board) (id end : ℕ) → IsValid b → IsValid (trim b id end)
unfolding trim
trim-IsValid b id end v = elim (Option-cases (share b id)) [
  | inl h ↦ rw h v
  | inr (s, h) ↦ rw h (elim (Bool-cases (ltb s.next end && ltb end s.end)) [
    | inl t ↦ rw t (
        release-IsValid _ end s.end
          (set-IsValid b id b.delivered _ v (record {
            forward = ground (arith, t);
            closed_when_done = λ q. absurd (ground (arith, t));
          }))
          (ground (arith, t)))
    | inr t ↦ rw t v
  ])
]

pub new-IsValid : (gaps : List Range) → All RangeIsValid gaps → Ascending gaps → IsValid (new gaps)
unfolding new
new-IsValid [] g o = record { shares_valid = (tt, tt); free_valid = tt; free_ordered = tt }
new-IsValid ((a, e) ∷ gaps) g o = record {
  shares_valid =
      (record { forward = omega arith; closed_when_done = λ h. absurd (omega arith) }, tt);
  free_valid = g.1;
  free_ordered = o.1;
}
