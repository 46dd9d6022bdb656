-- ===== src/Split/Board/History.antt =====
-- Runs of the board: the streams call its operations in any order, each under the lock.
use fetchloom.Base.{
  ℕ, ◌+◌, ◌≡◌, refl, sym, ap, true, false, List, [], ◌∷◌, ◌++◌, Option, none, some, arith, All,
}
use fetchloom.Split.Board.{
  Range, Share, Board, new, left, assign, deliver, all_idle, finished, give_back, trim,
}
use fetchloom.Split.Board.Valid.{RangeIsValid, Ascending, IsValid}
use fetchloom.Split.Board.Keeps.{
  assign-IsValid, deliver-IsValid, give_back-IsValid, trim-IsValid, new-IsValid,
}
use fetchloom.Split.Board.Measure.{Adds, holds, holds-Adds, of_slots, of_ranges, pending}
use fetchloom.Split.Board.Conserves.{
  size_self, pending-assign, pending-deliver, pending-give_back, pending-trim,
}

-- One call under the lock, with what it sends to the writer. A stream asks for a range only once
-- it has nothing left, as the loop of `drain` sees to.
pub data Step (b : Board) : List Range → Board → Type 0 where
  asks : (id piece : ℕ) → left b id ≡ 0 → Step b [] (assign b id piece).1
  brings : (id n : ℕ) → Step b ((deliver b id n).0 ∷ []) (deliver b id n).1
  stops : (id : ℕ) → Step b [] (give_back b id)
  trims : (id end : ℕ) → Step b [] (trim b id end)

-- The pieces sent so far, the last one first: where each goes and how long it is.
pub data Run (start : Board) : List Range → Board → Type 0 where
  begun : Run start [] start
  then_step :
      {log sent : List Range} {b b' : Board}
      → Run start log b
      → Step b sent b'
      → Run start (sent ++ log) b'

abbrev pub of_log : (ℕ → ℕ → ℕ) → List Range → ℕ
of_log size [] = 0
of_log size ((at, n) ∷ log) = size at (at + n) + of_log size log

Step-IsValid : {b b' : Board} {sent : List Range} → Step b sent b' → IsValid b → IsValid b'
Step-IsValid {b} (asks id piece h) v = assign-IsValid b id piece v
Step-IsValid {b} (brings id n) v = deliver-IsValid b id n v
Step-IsValid {b} (stops id) v = give_back-IsValid b id v
Step-IsValid {b} (trims id end) v = trim-IsValid b id end v

-- The gaps of a file that is downloaded in part: each holds a byte, and they are in order.
pub record AreGaps (gaps : List Range) : Type 0 where
  pub hold : All RangeIsValid gaps
  pub ordered : Ascending gaps

-- However the streams call it, the board stays valid.
pub Run-IsValid :
    {gaps log : List Range} {b : Board} → AreGaps gaps → Run (new gaps) log b → IsValid b
Run-IsValid g begun = new-IsValid _ g.hold g.ordered
Run-IsValid g (then_step r s) = Step-IsValid s (Run-IsValid g r)

module _ (size : ℕ → ℕ → ℕ) (adds : Adds size) where
  of_log-append : (xs ys : List Range) → of_log size (xs ++ ys) ≡ of_log size xs + of_log size ys
  of_log-append [] ys = omega arith
  of_log-append ((at, n) ∷ xs) ys = omega (arith, of_log-append xs ys)

  Step-pending :
      {b b' : Board} {sent : List Range}
      → Step b sent b'
      → IsValid b
      → pending size b' + of_log size sent ≡ pending size b
  Step-pending {b} (asks id piece h) v = omega (arith, pending-assign size adds b id piece v h)
  Step-pending {b} (brings id n) v = omega (arith, pending-deliver size adds b id n v)
  Step-pending {b} (stops id) v = omega (arith, pending-give_back size adds b id v)
  Step-pending {b} (trims id end) v = omega (arith, pending-trim size adds b id end v)

  pending-new : (gaps : List Range) → pending size (new gaps) ≡ of_ranges size gaps
  unfolding new
  pending-new [] = refl
  pending-new ((a, e) ∷ gaps) = omega arith

  Run-pending :
      {gaps log : List Range} {b : Board}
      → AreGaps gaps
      → Run (new gaps) log b
      → pending size b + of_log size log ≡ of_ranges size gaps
  Run-pending {gaps} g begun = omega (arith, pending-new gaps)
  Run-pending g (then_step {log = log} {sent = sent} r s) =
      omega (arith, Run-pending g r, Step-pending s (Run-IsValid g r), of_log-append sent log)

  all_idle-empty : (xs : List (Option Share)) → all_idle xs ≡ true → of_slots size xs ≡ 0
  unfolding all_idle
  all_idle-empty [] h = refl
  all_idle-empty (none ∷ xs) h = omega (arith, all_idle-empty xs h)
  all_idle-empty (some s ∷ xs) h =
      let same : s.next ≡ s.end = ground (arith, h) in
      omega (
        arith,
        all_idle-empty xs (ground (arith, h)),
        ap (size s.next) (sym same),
        size_self size adds s.next,
      )

  pending-finished : (b : Board) → finished b ≡ true → pending size b ≡ 0
  unfolding finished
  pending-finished b h = finished_from b.free h
    where
      finished_from :
          (free : List Range)
          → elim free [ [] ↦ all_idle b.shares | _ ↦ false ] ≡ true
          → of_slots size b.shares + of_ranges size free ≡ 0
      finished_from [] h = omega (arith, all_idle-empty b.shares h)
      finished_from (r ∷ rest) h = cc

-- At any time each byte of the gaps has been sent, or it is pending, exactly once: for any byte,
-- the times it was sent and the ranges that still hold it make up the gaps that hold it.
pub Run-each_byte :
    (x : ℕ) {gaps log : List Range} {b : Board}
    → AreGaps gaps
    → Run (new gaps) log b
    → pending (holds x) b + of_log (holds x) log ≡ of_ranges (holds x) gaps
Run-each_byte x g r = Run-pending (holds x) (holds-Adds x) g r

-- When the board is finished, every byte was sent exactly as often as the gaps hold it, and no
-- other byte was sent.
pub Run-finished :
    (x : ℕ) {gaps log : List Range} {b : Board}
    → AreGaps gaps
    → Run (new gaps) log b
    → finished b ≡ true
    → of_log (holds x) log ≡ of_ranges (holds x) gaps
Run-finished x {b = b} g r h =
    omega (arith, Run-each_byte x g r, pending-finished (holds x) (holds-Adds x) b h)
