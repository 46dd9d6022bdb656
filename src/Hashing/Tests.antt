-- ===== src/Hashing/Tests.antt =====
-- The theorem on pipes at a library whose hashes are sums of bytes.
use fetchloom.Base.{ℕ, ◌+◌, ◌≡◌, refl, List, [], ◌∷◌, none, some, replicate}
use fetchloom.Hashing.Hasher.{HashLibrary, Hasher, ok, err, not_the_prefix, File}
use fetchloom.Hashing.Pipe.{Call, updates, ranges, asks_sha256, done, sha256, new}
use fetchloom.Hashing.Pipe.Refines.{pipe_run, inline_run, calls_of, pipe_run-inline_run}

abbrev sum_from : ℕ → List ℕ → ℕ
sum_from n [] = n
sum_from n (b ∷ bytes) = sum_from (n + b) bytes

abbrev sums : HashLibrary
sums = record {
  Sha = ℕ;
  Md = ℕ;
  sha_update = sum_from;
  sha_finalize = λ n. n;
  md_update = sum_from;
  md_finalize = λ n. n;
}

abbrev ones : File sums
ones at size = some (replicate size 1)

abbrev start : Hasher sums
start = record { sha256 = 0; md5 = none }

abbrev calls : List ((ℕ × ℕ) × Call)
calls =
    ((0, 0), updates (5 ∷ 6 ∷ []))
    ∷ ((1, 0), asks_sha256 2)
    ∷ ((0, 3), ranges 2 6)
    ∷ ((0, 0), updates (1 ∷ []))
    ∷ []

hashed_inline :
    inline_run sums ones (calls_of sums ones calls) 7 (start, 0)
    ≡ ok (done ∷ sha256 11 ∷ done ∷ done ∷ [], (16, none))
unfolding inline_run
hashed_inline = refl

pipe_run-inline_run_example :
    pipe_run sums ones calls 2 7 (new sums ones start 0)
    ≡ inline_run sums ones (calls_of sums ones calls) 7 (start, 0)
pipe_run-inline_run_example = pipe_run-inline_run sums ones calls 2 7 start 0

-- A range that does not follow what was hashed is an error of both.
skips : List ((ℕ × ℕ) × Call)
skips = ((0, 0), ranges 3 6) ∷ []

skipped_pipe : pipe_run sums ones skips 0 6 (new sums ones start 0) ≡ err not_the_prefix
unfolding pipe_run new skips
skipped_pipe = refl
