-- ===== src/Hashing/Hasher.antt =====
-- src/digest.rs: `Hasher`, and `hash_range` of src/cache/partial.rs. The states and operations of
-- the two hash libraries, and the reads of the file, are parameters. What a read gives does not
-- change while the pipe runs: only bytes that were written before are read.
use fetchloom.Base.{ℕ, zero, suc, ◌+◌, ◌-◌, ◌*◌, min, List, Option, none, some, ltb, if◌then◌else◌}

pub record HashLibrary : Type 1 where
  pub Sha : Type 0
  pub Md : Type 0
  pub sha_update : Sha → List ℕ → Sha
  pub sha_finalize : Sha → ℕ
  pub md_update : Md → List ℕ → Md
  pub md_finalize : Md → ℕ

-- What the two ends of a pipe fail with: a prefix that is not the expected one, or a read of the
-- file.
pub data IoError : Type 0 where
  not_the_prefix : IoError
  unread : IoError

pub data IoResult {ℓ} (T : Type ℓ) : Type ℓ where
  err : IoError → IoResult T
  ok : T → IoResult T

infixl 5 ◌>>=◌
abbrev pub ◌>>=◌ {κ ℓ} : {T : Type κ} {S : Type ℓ} → IoResult T → (T → IoResult S) → IoResult S
err failure >>= then_do = err failure
ok t >>= then_do = then_do t

-- A step that answers nothing.
infixl 5 ◌>>◌
abbrev pub ◌>>◌ {κ} : {S : Type κ} → IoResult (Unit {0}) → IoResult S → IoResult S
step >> then_do = step >>= λ _. then_do

-- `BUFFER`.
abbrev pub buffer : ℕ
buffer = 1024 * 1024

module _ (lib : HashLibrary) where
  pub record Hasher : Type 0 where
    pub sha256 : lib.Sha
    pub md5 : Option lib.Md

  abbrev pub update_md5 : Option lib.Md → List ℕ → Option lib.Md
  update_md5 none bytes = none
  update_md5 (some m) bytes = some (lib.md_update m bytes)

  unfoldable pub update : Hasher → List ℕ → Hasher
  update h bytes = record { sha256 = lib.sha_update h.sha256 bytes; md5 = update_md5 h.md5 bytes }

  abbrev pub finish_md5 : Option lib.Md → Option ℕ
  finish_md5 none = none
  finish_md5 (some m) = some (lib.md_finalize m)

  unfoldable pub finish : Hasher → ℕ × Option ℕ
  finish h = (lib.sha_finalize h.sha256, finish_md5 h.md5)

  unfoldable pub sha256_so_far : Hasher → ℕ
  sha256_so_far h = lib.sha_finalize h.sha256

  abbrev pub File : Type 0
  File = ℕ → ℕ → Option (List ℕ)

  -- The loop of `hash_range`, on fuel: each round moves on by one byte at least.
  unfoldable pub hash_from : ℕ → File → Hasher → ℕ → ℕ → IoResult Hasher
  unfolding update
  hash_from zero file h at end = ok h
  hash_from (suc fuel) file h at end =
      let size = min (end - at) buffer in
      let rest : IoResult Hasher = elim (file at size) [
        | none ↦ err unread
        | some bytes ↦ hash_from fuel file (update h bytes) (at + size) end
      ] in
      if ltb at end then rest else ok h

  unfoldable pub hash_range : File → Hasher → ℕ → ℕ → IoResult Hasher
  unfolding hash_from
  hash_range file h start end = hash_from (end - start) file h start end
