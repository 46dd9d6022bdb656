-- ===== src/Hashing/Pipe.antt =====
-- src/cache/partial/hashing.rs: `HashPipe`. The caller hands chunks over in batches on a bounded
-- queue, and a worker thread takes messages from it. How far the worker comes before each send is
-- an argument, the pace, so that every interleaving is some choice of paces. A worker that panics
-- is left out.
pub mod View
pub mod Sends
pub mod Refines
use fetchloom.Base.{
  ℕ, zero, suc, ◌+◌, ◌*◌, List, [], ◌∷◌, ◌++◌, Option, none, some, leb, ◌==◌, length, if◌then◌else◌,
}
use fetchloom.Hashing.Hasher.{
  HashLibrary, IoError, not_the_prefix, IoResult, ok, err, ◌>>=◌, ◌>>◌, Hasher, update, finish,
  sha256_so_far, File, hash_range,
}

abbrev pub queued : ℕ
queued = 16

abbrev pub batch : ℕ
batch = 1024 * 1024

pub data Message : Type 0 where
  chunks : List (List ℕ) → Message
  range : ℕ → ℕ → Message
  checkpoint : ℕ → Message

unfoldable pub same_prefix : ℕ → ℕ → IoResult (Unit {0})
same_prefix hashed received = if hashed == received then ok tt else err not_the_prefix

-- What the caller asks, and what it gets.
pub data Call : Type 0 where
  updates : List ℕ → Call
  ranges : ℕ → ℕ → Call
  asks_sha256 : ℕ → Call

pub data Answer : Type 0 where
  done : Answer
  sha256 : ℕ → Answer

module _ (lib : HashLibrary) (file : File lib) where
  -- The hasher, and how many bytes it received.
  abbrev pub Hashed : Type 0
  Hashed = Hasher lib × ℕ

  -- The branches without a worker: `update`, `range` and `sha256_so_far` on the caller's thread.
  unfoldable pub inline_range : Hashed → ℕ → ℕ → IoResult Hashed
  unfolding same_prefix hash_range
  inline_range (h, received) start end = do
    same_prefix received start
    h' ← hash_range lib file h start end
    ok (h', end)

  unfoldable pub inline_sha256 : Hashed → ℕ → IoResult ℕ
  unfolding same_prefix sha256_so_far
  inline_sha256 (h, received) wanted = do same_prefix received wanted; ok (sha256_so_far lib h)

  unfoldable pub inline_update : Hashed → List ℕ → Hashed
  unfolding update
  inline_update (h, received) bytes = (update lib h bytes, received + length bytes)

  unfoldable pub inline_call : Hashed → Call → IoResult (Hashed × Answer)
  unfolding inline_range inline_sha256 inline_update
  inline_call w (updates bytes) = ok (inline_update w bytes, done)
  inline_call w (ranges start end) = do w' ← inline_range w start end; ok (w', done)
  inline_call w (asks_sha256 wanted) = do sha ← inline_sha256 w wanted; ok (w, sha256 sha)

  -- One turn of the worker's loop.
  unfoldable pub hash_chunks : Hashed → List (List ℕ) → Hashed
  unfolding update
  hash_chunks w [] = w
  hash_chunks (h, received) (bytes ∷ rest) =
      hash_chunks (update lib h bytes, received + length bytes) rest

  unfoldable pub handle : Hashed → Message → IoResult Hashed
  unfolding hash_chunks same_prefix hash_range
  handle w (chunks cs) = ok (hash_chunks w cs)
  handle (h, received) (range start end) = do
    same_prefix received start
    h' ← hash_range lib file h start end
    ok (h', end)
  handle (h, received) (checkpoint written) = do same_prefix received written; ok (h, received)

  -- `worker` is what its thread has, or the error that it ended with. A worker that ended takes no
  -- message any more.
  pub record Pipe : Type 0 where
    pub worker : IoResult Hashed
    pub queue : List Message
    pub gathered : List (List ℕ)
    pub gathered_bytes : ℕ

  unfoldable pub new : Hasher lib → ℕ → Pipe
  new h received = record {
    worker = ok (h, received);
    queue = [];
    gathered = [];
    gathered_bytes = 0;
  }

  unfoldable pub take_message : Pipe → IoResult Hashed → List Message → Pipe
  unfolding handle
  take_message p (ok w) (m ∷ rest) = record p { worker = handle w m; queue = rest }
  take_message p _ _ = p

  unfoldable pub turns : ℕ → Pipe → Pipe
  unfolding take_message
  turns zero p = p
  turns (suc n) p = turns n (take_message p p.worker p.queue)

  -- `send`: it waits while the queue is full, and fails with the error of a worker that ended.
  unfoldable pub push : Pipe → Message → IoResult Hashed → Pipe × IoResult (Unit {0})
  push p m (ok w) = (record p { queue = p.queue ++ (m ∷ []) }, ok tt)
  push p m (err e) = (p, err e)

  unfoldable pub make_room : Pipe → Pipe
  unfolding turns
  make_room p = if leb queued (length p.queue) then turns 1 p else p

  unfoldable pub send : ℕ → Pipe → Message → Pipe × IoResult (Unit {0})
  unfolding turns make_room push
  send pace p m = let p' = make_room (turns pace p) in push p' m p'.worker

  unfoldable pub send_all : ℕ → Pipe → List (List ℕ) → Pipe × IoResult (Unit {0})
  unfolding send
  send_all pace p [] = (p, ok tt)
  send_all pace p (bytes ∷ rest) =
      send pace (record p { gathered = []; gathered_bytes = 0 }) (chunks (bytes ∷ rest))

  unfoldable pub send_gathered : ℕ → Pipe → Pipe × IoResult (Unit {0})
  unfolding send_all
  send_gathered pace p = send_all pace p p.gathered

  -- `?`: after a failure the caller stops.
  abbrev pub then_send : ℕ → Message → Pipe × IoResult (Unit {0}) → Pipe × IoResult (Unit {0})
  then_send pace m (p, ok _) = send pace p m
  then_send pace m (p, err e) = (p, err e)

  -- `recv` of the reply: the worker comes to the end of its queue, or ends with an error.
  abbrev pub reply_from : Pipe → IoResult Hashed → Pipe × IoResult Answer
  reply_from p (ok (h, received)) = (p, ok (sha256 (sha256_so_far lib h)))
  reply_from p (err e) = (p, err e)

  unfoldable pub receive : Pipe × IoResult (Unit {0}) → Pipe × IoResult Answer
  unfolding turns sha256_so_far
  receive (p, ok _) = let p' = turns (length p.queue) p in reply_from p' p'.worker
  receive (p, err e) = (p, err e)

  abbrev pub no_answer : Pipe × IoResult (Unit {0}) → Pipe × IoResult Answer
  no_answer (p, ok _) = (p, ok done)
  no_answer (p, err e) = (p, err e)

  unfoldable pub pipe_update : ℕ → Pipe → List ℕ → Pipe × IoResult (Unit {0})
  unfolding send_gathered
  pipe_update pace p bytes =
      let p' : Pipe = record p {
        gathered = p.gathered ++ (bytes ∷ []);
        gathered_bytes = p.gathered_bytes + length bytes;
      } in
      if leb batch p'.gathered_bytes then send_gathered pace p' else (p', ok tt)

  -- A call, with the pace of the worker before each of its two sends.
  unfoldable pub pipe_call : ℕ × ℕ → Pipe → Call → Pipe × IoResult Answer
  unfolding pipe_update send_gathered send receive
  pipe_call (a, b) p (updates bytes) = no_answer (pipe_update a p bytes)
  pipe_call (a, b) p (ranges start end) =
      no_answer (then_send b (range start end) (send_gathered a p))
  pipe_call (a, b) p (asks_sha256 wanted) =
      receive (then_send b (checkpoint wanted) (send_gathered a p))

  -- `finish`: the queue is closed, the worker takes what is left, and its result is checked.
  unfoldable pub finish_hashed : Hashed → ℕ → IoResult (ℕ × Option ℕ)
  unfolding same_prefix finish
  finish_hashed (h, reached) received = do same_prefix reached received; ok (finish lib h)

  unfoldable pub join_pipe : ℕ → Pipe × IoResult (Unit {0}) → IoResult (ℕ × Option ℕ)
  unfolding turns finish_hashed
  join_pipe received (p, ok _) = do w ← (turns (length p.queue) p).worker; finish_hashed w received
  join_pipe received (p, err e) = err e

  unfoldable pub pipe_finish : ℕ → Pipe → ℕ → IoResult (ℕ × Option ℕ)
  unfolding join_pipe send_gathered
  pipe_finish pace p received = join_pipe received (send_gathered pace p)
