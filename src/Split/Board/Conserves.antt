-- ===== src/Split/Board/Conserves.antt =====
-- No operation of the board loses a byte or doubles one: whatever the measure, what is pending
-- changes by what was delivered alone.
use fetchloom.Base.{
  ℕ, suc, ◌+◌, ◌-◌, ◌≤◌, ◌<◌, ◌≡◌, ◌≢◌, refl, ap, min, inl, inr, ◌∙◌, false, ◌&&◌, List, [], ◌∷◌,
  ◌++◌, Option, none, some, arith, ltb, ◌==◌, length, get_elem?, set, replicate, All, Bool-cases,
  Option-cases,
}
use fetchloom.Split.Board.{
  Range, Share, Board, flatten, share, left, resize, take_range, take_split, split_off, assign_from,
  assign, after_bytes, deliver, behind, extend_open, release_to, release, give_back, trim,
}
use fetchloom.Split.Board.Valid.{
  SlotIsValid, IsValid, All-set, share-IsValid, SplitsOff, split_off-SplitsOff,
}
use fetchloom.Split.Board.Measure.{
  Adds, of_slot, of_slots, pending, of_slots-set, of_slots-nones, of_slots-set_empty,
  of_ranges-insert_free, get-resize, get-set_ne, length-resize,
}

pub share_get :
    (b : Board) (id : ℕ) (s : Share)
    → share b id ≡ some s
    → flatten (get_elem? b.shares id) ≡ some s
unfolding share
share_get b id s h = h

-- The stream that asks is not the victim, which has something left.
pub share-SplitsOff :
    (b : Board) (piece id : ℕ) (range : Range) (b' : Board)
    → left b id ≡ 0
    → SplitsOff b piece range b'
    → share b' id ≡ share b id
unfolding share left
share-SplitsOff b piece id range b' h s =
    let other : s.victim ≢ id =
      λ e. absurd (omega (arith, s.positive, s.is_half, rw s.at_victim at (rw (← e) at h))) in
    rw s.board_is (get-set_ne b.shares s.victim id _ other)

module _ (size : ℕ → ℕ → ℕ) where
  -- Shares that grew by `m` over `xs`, when some share took the range.
  abbrev Grown : Option (List (Option Share)) → List (Option Share) → ℕ → Type 0
  Grown none xs m = Unit
  Grown (some ys) xs m = of_slots size ys ≡ of_slots size xs + m

module _ (size : ℕ → ℕ → ℕ) (adds : Adds size) where
  pub size_self : (a : ℕ) → size a a ≡ 0
  size_self a = omega (arith, adds.joins a a a (omega arith) (omega arith))

  -- A stream with nothing left holds nothing.
  of_slot-left : (b : Board) (id : ℕ) → IsValid b → left b id ≡ 0 → of_slot size (share b id) ≡ 0
  unfolding left
  of_slot-left b id v h = elim (Option-cases (share b id)) [
    | inl e ↦ rw e refl
    | inr (s, e) ↦
        let ok = share-IsValid b id s v e in
        let same : s.end ≡ s.next = omega (arith, ok.forward, rw e at h) in
        rw e (ap (size s.next) same ∙ size_self s.next)
  ]

  pending-take_range :
      (b : Board) (id a e : ℕ)
      → of_slot size (share b id) ≡ 0
      → pending size (take_range b id (a, e)) ≡ pending size b + size a e
  unfolding take_range resize share
  pending-take_range b id a e h =
      let n = suc id - length b.shares in
      omega (
        arith,
        of_slots-set_empty size (b.shares ++ replicate n none) id
            (some (record { next = a; end = e; is_open = false; started = false }))
            (length-resize b.shares (suc id)) (rw (get-resize b.shares n id) h),
        of_slots-nones size b.shares n,
      )

  pending-SplitsOff :
      (b : Board) (piece a e : ℕ) (b' : Board)
      → IsValid b
      → SplitsOff b piece (a, e) b'
      → pending size b' + size a e ≡ pending size b
  unfolding share
  pending-SplitsOff b piece a e b' v s =
      let ok = share-IsValid b s.victim s.victim_share v s.at_victim in
      let start : a ≡ s.victim_share.end - s.half = ap (λ (r : Range). r.0) s.range_is in
      let stop : e ≡ s.victim_share.end = ap (λ (r : Range). r.1) s.range_is in
      rw (s.board_is, start, stop)
        (omega (
          arith,
          of_slots-set size b.shares s.victim s.victim_share
              (some (record s.victim_share { end = s.victim_share.end - s.half })) s.at_victim,
          adds.joins s.victim_share.next (s.victim_share.end - s.half) s.victim_share.end
              (omega (arith, s.is_half, ok.forward)) (omega arith),
        ))

  pending-take_split :
      (b : Board) (id piece : ℕ) (o : Option (Range × Board))
      → split_off b piece ≡ o
      → IsValid b
      → left b id ≡ 0
      → pending size (take_split b id o).1 ≡ pending size b
  unfolding take_split
  pending-take_split b id piece none h v l = refl
  pending-take_split b id piece (some ((a, e), b')) h v l =
      let s = split_off-SplitsOff b piece (a, e) b' h in
      pending-take_range b' id a e
        (rw (share-SplitsOff b piece id (a, e) b' l s) (of_slot-left b id v l))
      ∙ pending-SplitsOff b piece a e b' v s

  pending-assign_from :
      (b : Board) (free : List Range) (id piece : ℕ)
      → b.free ≡ free
      → IsValid b
      → left b id ≡ 0
      → pending size (assign_from b free id piece).1 ≡ pending size b
  unfolding assign_from
  pending-assign_from b [] id piece f v l =
      pending-take_split b id piece (split_off b piece) refl v l
  pending-assign_from b ((a, e) ∷ free) id piece f v l =
      rw f (
        omega (arith, pending-take_range (record b { free = free }) id a e (of_slot-left b id v l)))

  pub pending-assign :
      (b : Board) (id piece : ℕ)
      → IsValid b
      → left b id ≡ 0
      → pending size (assign b id piece).1 ≡ pending size b
  unfolding assign
  pending-assign b id piece v l = pending-assign_from b b.free id piece refl v l

  pub pending-deliver :
      (b : Board) (id n : ℕ)
      → IsValid b
      → pending size (deliver b id n).1
          + size (deliver b id n).0.0 ((deliver b id n).0.0 + (deliver b id n).0.1)
        ≡ pending size b
  unfolding deliver
  pending-deliver b id n v = elim (Option-cases (share b id)) [
    | inl h ↦ rw h (omega (arith, size_self 0))
    | inr (s, h) ↦
        let ok = share-IsValid b id s v h in
        let taken = min n (s.end - s.next) in
        rw h (
          omega (
            arith,
            of_slots-set size b.shares id s (some (after_bytes s taken)) (share_get b id s h),
            adds.joins s.next (s.next + taken) s.end (omega arith) (omega (arith, ok.forward)),
          ))
  ]

  behind-pending :
      (x : Option Share) (o : Option (List (Option Share))) (xs : List (Option Share)) (m : ℕ)
      → Grown size o xs m
      → Grown size (behind x o) (x ∷ xs) m
  behind-pending x none xs m g = tt
  behind-pending x (some ys) xs m g = omega (arith, g)

  extend_open-pending :
      (xs : List (Option Share)) (a e : ℕ)
      → All SlotIsValid xs
      → a ≤ e
      → Grown size (extend_open xs (a, e)) xs (size a e)
  unfolding extend_open
  extend_open-pending [] a e v h = tt
  extend_open-pending (none ∷ xs) a e v h =
      behind-pending none (extend_open xs (a, e)) xs (size a e) (extend_open-pending xs a e v.1 h)
  extend_open-pending (some s ∷ xs) a e v h = elim (Bool-cases (s.is_open && s.end == a)) [
    | inl t ↦
        let same : s.end ≡ a = ground (arith, t) in
        let joined = adds.joins s.next s.end e v.0.forward (omega arith) in
        rw t (omega (arith, joined, ap (λ n. size n e) same))
    | inr t ↦ rw t (
        behind-pending (some s) (extend_open xs (a, e)) xs (size a e)
          (extend_open-pending xs a e v.1 h))
  ]

  release_to-pending :
      (b : Board) (a e : ℕ) (o : Option (List (Option Share)))
      → Grown size o b.shares (size a e)
      → pending size (release_to b (a, e) o) ≡ pending size b + size a e
  unfolding release_to
  release_to-pending b a e none g = omega (arith, of_ranges-insert_free size a e b.free)
  release_to-pending b a e (some xs) g = omega arith

  release-pending :
      (b : Board) (a e : ℕ)
      → All SlotIsValid b.shares
      → a ≤ e
      → pending size (release b (a, e)) ≡ pending size b + size a e
  unfolding release
  release-pending b a e v h =
      release_to-pending b a e (extend_open b.shares (a, e)) (extend_open-pending b.shares a e v h)

  pub pending-give_back :
      (b : Board) (id : ℕ) → IsValid b → pending size (give_back b id) ≡ pending size b
  unfolding give_back
  pending-give_back b id v = elim (Option-cases (share b id)) [
    | inl h ↦ rw h refl
    | inr (s, h) ↦
        let ok = share-IsValid b id s v h in
        let taken = of_slots-set size b.shares id s none (share_get b id s h) in
        rw h (elim (Bool-cases (ltb s.next s.end)) [
          | inl t ↦ rw t (
              omega (
                arith,
                taken,
                release-pending (record b { shares = set b.shares id none }) s.next s.end
                    (All-set b.shares id none v.shares_valid tt) ok.forward,
              ))
          | inr t ↦
              let same : s.end ≡ s.next = ground (arith, ok.forward, t) in
              rw t (omega (arith, taken, ap (size s.next) same, size_self s.next))
        ])
  ]

  pub pending-trim :
      (b : Board) (id end : ℕ) → IsValid b → pending size (trim b id end) ≡ pending size b
  unfolding trim
  pending-trim b id end v = elim (Option-cases (share b id)) [
    | inl h ↦ rw h refl
    | inr (s, h) ↦ rw h (elim (Bool-cases (ltb s.next end && ltb end s.end)) [
      | inl t ↦
          let after : s.next < end = ground (arith, t) in
          let before : end < s.end = ground (arith, t) in
          let cut = record s { end = end } in
          rw t (
            omega (
              arith,
              of_slots-set size b.shares id s (some cut) (share_get b id s h),
              adds.joins s.next end s.end (omega arith) (omega arith),
              release-pending (record b { shares = set b.shares id (some cut) }) end s.end
                  (All-set b.shares id (some cut) v.shares_valid (record {
                    forward = omega arith;
                    closed_when_done = λ q. absurd (omega arith);
                  }))
                  (omega arith),
            ))
      | inr t ↦ rw t refl
    ])
  ]
