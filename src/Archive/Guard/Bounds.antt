-- ===== src/Archive/Guard/Bounds.antt =====
-- What the guard of an archive lets through, however the archive is read.
use fetchloom.Base.{
  ℕ, zero, suc, ◌+◌, ◌*◌, ◌≤◌, ◌≡◌, refl, ap, subst, Bool, true, false, not, List, [], ◌∷◌, max,
  ltb, arith, if◌then◌else◌, if_both,
}
use fetchloom.Base.Text.{Text}
use fetchloom.Name.Folded.{Unicode}
use fetchloom.Archive.Names.{Names, u64_max}
use fetchloom.Archive.Guard.{
  Limits, Guard, Checked, fine, failed, ratio_floor, new, entry, name, skip, check_limits, bytes,
  interrupted, broken, Round, Copied, take_bytes, copy, not_written, stopped, unreadable,
}

-- A run of the operations of a guard, with how many bytes went to files in it. The meter may move
-- on at any time, as the reader under the guard reads the archive.
pub data Unpacking (u : Unicode) (windows : Bool) (start : Guard) : ℕ → Guard → Type 0 where
  begun : Unpacking u windows start 0 start
  metered :
      {out : ℕ} {g : Guard}
      → Unpacking u windows start out g
      → (n : ℕ) → Unpacking u windows start out (record g { compressed = g.compressed + n })
  entries :
      {out : ℕ} {g : Guard}
      → Unpacking u windows start out g
      → (asked : Bool) → Unpacking u windows start out (entry g asked).0
  names :
      {out : ℕ} {g : Guard}
      → Unpacking u windows start out g
      → (raw : Text) (is_folder : Bool)
      → Unpacking u windows start out (name u windows g raw is_folder).0
  skips :
      {out : ℕ} {g : Guard}
      → Unpacking u windows start out g
      → (n : ℕ) → Unpacking u windows start out (skip g n).0
  copies :
      {out : ℕ} {g : Guard}
      → Unpacking u windows start out g
      → (rounds : List Round)
      → Unpacking u windows start (out + (copy g rounds).out) (copy g rounds).guard

mul_mono : (a b r : ℕ) → a ≤ b → a * r ≤ b * r
mul_mono a b r h = grind (arith, h)

module _ (limits : Limits) (fits : limits.bytes ≤ u64_max) where
  record IsBounded (out : ℕ) (g : Guard) : Type 0 where
    same : g.limits ≡ limits
    counted : out ≤ g.written
    below : out ≤ limits.bytes
    ratio : out ≤ max ratio_floor (g.compressed * limits.ratio)

  metered-IsBounded :
      (out n : ℕ) (g : Guard)
      → IsBounded out g
      → IsBounded out (record g { compressed = g.compressed + n })
  metered-IsBounded out n g h = record {
    same = h.same;
    counted = h.counted;
    below = h.below;
    ratio = omega (arith, h.ratio, mul_mono g.compressed (g.compressed + n) limits.ratio);
  }

  entry-IsBounded :
      (out : ℕ) (g : Guard) (asked : Bool) → IsBounded out g → IsBounded out (entry g asked).0
  unfolding entry
  entry-IsBounded out g true h = h
  entry-IsBounded out g false h =
      if_both {A = Guard × Checked} (λ r. IsBounded out r.0) (ltb g.limits.members (suc g.entries))
        _ _ (grown h) (grown h)
    where
      grown : IsBounded out g → IsBounded out (record g { entries = suc g.entries })
      grown h = record { same = h.same; counted = h.counted; below = h.below; ratio = h.ratio }

  -- What passed the limits may be written.
  check-IsBounded :
      (out n : ℕ) (g : Guard)
      → IsBounded out g
      → check_limits (record g { written = g.written + n }) ≡ fine
      → IsBounded (out + n) (record g { written = g.written + n })
  unfolding check_limits
  check-IsBounded out n g h e = record {
    same = h.same;
    counted = omega (arith, h.counted);
    below = ground (arith, e, limit_is, h.counted);
    ratio = ground (arith, e, limit_is, ratio_is, fits, h.counted);
  }
    where
      limit_is : g.limits.bytes ≡ limits.bytes
      limit_is = ap (λ (l : Limits). l.bytes) h.same

      ratio_is : g.compressed * g.limits.ratio ≡ g.compressed * limits.ratio
      ratio_is = ap (λ (l : Limits). g.compressed * l.ratio) h.same

  skip-IsBounded : (out n : ℕ) (g : Guard) → IsBounded out g → IsBounded out (skip g n).0
  unfolding skip
  skip-IsBounded out n g h = record {
    same = h.same;
    counted = h.counted;
    below = h.below;
    ratio = h.ratio;
  }

  name-IsBounded :
      (u : Unicode) (windows : Bool) (out : ℕ) (g : Guard) (raw : Text) (is_folder : Bool)
      → IsBounded out g
      → IsBounded out (name u windows g raw is_folder).0
  unfolding name
  name-IsBounded u windows out g raw is_folder h = record {
    same = h.same;
    counted = h.counted;
    below = h.below;
    ratio = h.ratio;
  }

  -- Bytes that were read but not written.
  unwritten-IsBounded :
      (out n : ℕ) (g : Guard)
      → IsBounded out g
      → IsBounded (out + 0) (record g { written = g.written + n })
  unwritten-IsBounded out n g h = record {
    same = h.same;
    counted = omega (arith, h.counted);
    below = omega (arith, h.below);
    ratio = omega (arith, h.ratio);
  }

  abbrev IsCopied : ℕ → Copied → Type 0
  IsCopied out r = IsBounded (out + r.out) r.guard

  take_bytes-IsCopied :
      (out n : ℕ) (g : Guard) (can_write asked : Bool) (rest : Guard → Copied)
      → IsBounded out g
      → (IsBounded (out + n) (record g { written = g.written + n })
          → IsCopied (out + n) (rest (record g { written = g.written + n })))
      → IsCopied out (take_bytes g n can_write asked rest)
  unfolding take_bytes
  take_bytes-IsCopied out n g can_write asked rest h f = step (check_limits after) refl
    where
      after : Guard
      after = record g { written = g.written + n }

      step :
          (o : Checked)
          → check_limits after ≡ o
          → IsCopied out (elim o [
            | failed e ↦ record { guard = after; out = 0; ended = failed e }
            | fine ↦
                if not can_write
                then record { guard = after; out = n; ended = failed not_written }
                else if asked
                then record { guard = after; out = n; ended = failed stopped }
                else record (rest after) { out = n + (rest after).out }
          ])
      step (failed x) e = unwritten-IsBounded out n g h
      step fine e =
          let i = check-IsBounded out n g h e in
          if_both (IsCopied out) (not can_write) _ _ i (
            if_both (IsCopied out) asked _ _ i
              (subst (λ m. IsBounded m (rest after).guard) (omega arith) (f i)))

  copy-IsCopied :
      (out : ℕ) (g : Guard) (rounds : List Round) → IsBounded out g → IsCopied out (copy g rounds)
  unfolding copy
  copy-IsCopied out g [] h = subst (λ m. IsBounded m g) (omega arith) h
  copy-IsCopied out g (round ∷ rounds) h =
      elim round.read
        as (λ x. IsCopied out (elim x [
          | bytes zero ↦ record { guard = after; out = 0; ended = fine }
          | bytes (suc n) ↦
              take_bytes after (suc n) round.can_write round.asked (λ g'. copy g' rounds)
          | interrupted ↦ copy after rounds
          | broken ↦ record { guard = after; out = 0; ended = failed unreadable }
        ])) [
          | bytes zero ↦ subst (λ m. IsBounded m after) (omega arith) i
          | bytes (suc n) ↦
              take_bytes-IsCopied out (suc n) after round.can_write round.asked
                (λ g'. copy g' rounds) i
                (copy-IsCopied (out + suc n) (record after { written = after.written + suc n })
                  rounds)
          | interrupted ↦ copy-IsCopied out after rounds i
          | broken ↦ subst (λ m. IsBounded m after) (omega arith) i
        ]
    where
      after : Guard
      after = record g { compressed = g.compressed + round.metered }

      i : IsBounded out after
      i = metered-IsBounded out round.metered g h

  Unpacking-IsBounded :
      (u : Unicode) (windows : Bool) (kept : Names) {out : ℕ} {g : Guard}
      → Unpacking u windows (new limits kept) out g
      → IsBounded out g
  Unpacking-IsBounded u windows kept begun = record {
    same = refl;
    counted = omega arith;
    below = omega arith;
    ratio = omega arith;
  }
  Unpacking-IsBounded u windows kept (metered {out} {g} run n) =
      metered-IsBounded out n g (Unpacking-IsBounded u windows kept run)
  Unpacking-IsBounded u windows kept (entries {out} {g} run asked) =
      entry-IsBounded out g asked (Unpacking-IsBounded u windows kept run)
  Unpacking-IsBounded u windows kept (names {out} {g} run raw is_folder) =
      name-IsBounded u windows out g raw is_folder (Unpacking-IsBounded u windows kept run)
  Unpacking-IsBounded u windows kept (skips {out} {g} run n) =
      skip-IsBounded out n g (Unpacking-IsBounded u windows kept run)
  Unpacking-IsBounded u windows kept (copies {out} {g} run rounds) =
      copy-IsCopied out g rounds (Unpacking-IsBounded u windows kept run)

-- However an archive is read, while its limit of bytes fits 64 bits: what is written of it is at
-- most that limit, and at most 4 MiB or its compressed bytes so far times the limit of the ratio.
pub Unpacking-bounded :
    (limits : Limits) (u : Unicode) (windows : Bool) (kept : Names) (out : ℕ) (g : Guard)
    → limits.bytes ≤ u64_max
    → Unpacking u windows (new limits kept) out g
    → (out ≤ limits.bytes) × (out ≤ max ratio_floor (g.compressed * limits.ratio))
Unpacking-bounded limits u windows kept out g fits run =
    let h = Unpacking-IsBounded limits fits u windows kept run in (h.below, h.ratio)
