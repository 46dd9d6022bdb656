-- ===== src/Archive/Guard.antt =====
-- src/archive/guard.rs: the guard of one archive, which counts its entries and every byte that is
-- written of it. What the reader under it gives, with what its meter shows then, whether the disk
-- takes a write and whether the person stops are arguments.
pub mod Bounds
use fetchloom.Base.{
  ℕ, zero, suc, ◌+◌, ◌*◌, Bool, true, false, not, ◌&&◌, ◌||◌, List, [], ◌∷◌, Option, none, some,
  min, ltb, leb, if◌then◌else◌,
}
use fetchloom.Base.Text.{Text}
use fetchloom.Name.Folded.{Unicode}
use fetchloom.Archive.Names.{Names, Named, Outcome, add, saturating}

abbrev pub ratio_floor : ℕ
ratio_floor = 4 * 1024 * 1024

pub record Limits : Type 0 where
  pub members : ℕ
  pub bytes : ℕ
  pub ratio : ℕ

-- `compressed` is what the meter shows.
pub record Guard : Type 0 where
  pub limits : Limits
  pub compressed : ℕ
  pub names : Names
  pub entries : ℕ
  pub written : ℕ
  pub skipped : ℕ

pub data Failure : Type 0 where
  stopped : Failure
  too_many_entries : Failure
  past_limit : Failure
  past_ratio : Failure
  unreadable : Failure
  not_written : Failure

-- `Result<(), Error>`.
pub data Checked : Type 0 where
  fine : Checked
  failed : Failure → Checked

-- `Guard::new`, under a meter that shows nothing yet.
abbrev pub new : Limits → Names → Guard
new limits names = record {
  limits = limits;
  compressed = 0;
  names = names;
  entries = 0;
  written = 0;
  skipped = 0;
}

-- `entry`, which a request to stop comes before.
unfoldable pub entry : Guard → Bool → Guard × Checked
entry g asked =
    let counted = record g { entries = suc g.entries } in
    if asked
    then (g, failed stopped)
    else if ltb g.limits.members (suc g.entries)
    then (counted, failed too_many_entries)
    else (counted, fine)

-- `name`.
unfoldable pub name : Unicode → Bool → Guard → Text → Bool → Guard × Outcome Named
unfolding add
name u windows g raw is_folder =
    let r = add u windows g.names raw is_folder in (record g { names = r.0 }, r.1)

unfoldable pub check_ratio : Guard → Checked
check_ratio g =
    let expanded = saturating (g.written + g.skipped) in
    if leb ratio_floor expanded && ltb (g.compressed * g.limits.ratio) expanded
    then failed past_ratio
    else fine

unfoldable pub check_limits : Guard → Checked
unfolding check_ratio
check_limits g = if ltb g.limits.bytes g.written then failed past_limit else check_ratio g

-- `skip`.
unfoldable pub skip : Guard → ℕ → Guard × Checked
unfolding check_ratio
skip g bytes =
    let after = record g { skipped = saturating (g.skipped + bytes) } in (after, check_ratio after)

-- A call of `read`: the bytes it gave, or that it was interrupted or failed.
pub data Read : Type 0 where
  bytes : ℕ → Read
  interrupted : Read
  broken : Read

-- What one round of `copy` meets: how much the meter has moved on, the read, whether the bytes
-- could be written, and whether the person stops after that.
pub record Round : Type 0 where
  pub metered : ℕ
  pub read : Read
  pub can_write : Bool
  pub asked : Bool

-- The guard, how many bytes went to the file at most, and how the copy ended: a write that failed
-- counts whole.
pub record Copied : Type 0 where
  pub guard : Guard
  pub out : ℕ
  pub ended : Checked

-- A round that read some bytes, with `rest` for the rounds after it.
unfoldable pub take_bytes : Guard → ℕ → Bool → Bool → (Guard → Copied) → Copied
unfolding check_limits
take_bytes g n can_write asked rest =
    let after = record g { written = g.written + n } in
    elim (check_limits after) [
      | failed e ↦ record { guard = after; out = 0; ended = failed e }
      | fine ↦
          if not can_write
          then record { guard = after; out = n; ended = failed not_written }
          else if asked
          then record { guard = after; out = n; ended = failed stopped }
          else let r = rest after in record r { out = n + r.out }
    ]

-- The loop of `copy`, over the reads before the one that gives no bytes.
unfoldable pub copy : Guard → List Round → Copied
unfolding take_bytes
copy g [] = record { guard = g; out = 0; ended = fine }
copy g (round ∷ rounds) =
    let metered = record g { compressed = g.compressed + round.metered } in
    elim round.read [
      | bytes zero ↦ record { guard = metered; out = 0; ended = fine }
      | bytes (suc n) ↦
          take_bytes metered (suc n) round.can_write round.asked (λ after. copy after rounds)
      | interrupted ↦ copy metered rounds
      | broken ↦ record { guard = metered; out = 0; ended = failed unreadable }
    ]
