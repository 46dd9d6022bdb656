-- ===== src/Hashing/Pipe/Refines.antt =====
-- A pipe with a worker gives the answers of one without, however the worker is scheduled.
use fetchloom.Base.{
  ℕ, ◌+◌, ◌≡◌, refl, sym, ap, subst, ◌∙◌, inl, inr, List, [], ◌∷◌, ◌++◌, Option, arith, leb, length,
  Bool-cases, map,
}
use fetchloom.Hashing.Hasher.{
  HashLibrary, IoResult, ok, err, ◌>>=◌, Hasher, update, sha256_so_far, File,
}
use fetchloom.Hashing.Pipe.{
  batch, range, checkpoint, Call, updates, ranges, asks_sha256, Answer, done, sha256, same_prefix,
  inline_range, inline_sha256, inline_update, inline_call, hash_chunks, Hashed, handle, Pipe, new,
  turns, reply_from, receive, no_answer, pipe_update, pipe_call, finish_hashed, join_pipe,
  pipe_finish,
}
use fetchloom.Hashing.Pipe.View.{
  bind_assoc, handle_all, view_of, view, view-turns, gathered-turns, IsDrained, turns-IsDrained,
}
use fetchloom.Hashing.Pipe.Sends.{bind_cong, bind_ok, Sent, send_gathered-Sent, then_send-Sent}

module _ (lib : HashLibrary) (file : File lib) where
  -- The answer of a pipe against the one that is wanted, `v`. An error may come early: the worker
  -- fails before the caller asks for what fails.
  unfoldable pub Agrees :
      IoResult (Hashed lib file × Answer) → Pipe lib file × IoResult Answer → Type 0
  Agrees v (p, ok a) = v ≡ (view lib file p >>= λ w. ok (w, a))
  Agrees v (p, err x) = v ≡ err x

  no_answer-Agrees :
      (v : IoResult (Hashed lib file)) (sent : Pipe lib file × IoResult (Unit {0}))
      → Sent lib file v sent
      → Agrees (v >>= λ w. ok (w, done)) (no_answer lib file sent)
  unfolding Agrees Sent
  no_answer-Agrees v (p, ok _) h = ap (λ v. v >>= λ w. ok (w, done)) (sym h.0)
  no_answer-Agrees v (p, err x) h = ap (λ v. v >>= λ w. ok (w, done)) h

  hash_chunks-snoc :
      (w : Hashed lib file) (cs : List (List ℕ)) (bytes : List ℕ)
      → hash_chunks lib file w (cs ++ (bytes ∷ []))
        ≡ inline_update lib file (hash_chunks lib file w cs) bytes
  unfolding hash_chunks inline_update
  hash_chunks-snoc w [] bytes = refl
  hash_chunks-snoc (h, received) (c ∷ cs) bytes =
      hash_chunks-snoc (update lib h c, received + length c) cs bytes

  gathered_view :
      (p : Pipe lib file) (bytes : List ℕ)
      → view_of lib file p.worker p.queue (p.gathered ++ (bytes ∷ []))
        ≡ (view lib file p >>= λ w. ok (inline_update lib file w bytes))
  unfolding view view_of
  gathered_view p bytes = from p.worker
    where
      from :
          (r : IoResult (Hashed lib file))
          → (r >>= λ w. handle_all lib file w p.queue >>= λ w'.
              ok (hash_chunks lib file w' (p.gathered ++ (bytes ∷ []))))
            ≡ ((r >>= λ w.
                  handle_all lib file w p.queue >>= λ w'. ok (hash_chunks lib file w' p.gathered))
                >>= λ w. ok (inline_update lib file w bytes))
      from (ok w) =
          bind_cong (handle_all lib file w p.queue) _ _
            (λ w'. ap ok (hash_chunks-snoc w' p.gathered bytes))
          ∙ sym (bind_assoc (handle_all lib file w p.queue) _ _)
      from (err x) = refl

  update-Agrees :
      (pace : ℕ) (p : Pipe lib file) (bytes : List ℕ)
      → Agrees
          (view lib file p >>= λ w. ok (inline_update lib file w bytes, done))
          (no_answer lib file (pipe_update lib file pace p bytes))
  unfolding pipe_update Agrees view
  update-Agrees pace p bytes =
      subst (λ v. Agrees v (no_answer lib file (pipe_update lib file pace p bytes)))
        (ap (λ v. v >>= λ w. ok (w, done)) (gathered_view p bytes)
          ∙ bind_assoc (view lib file p) _ _)
        (elim (Bool-cases (leb batch (p.gathered_bytes + length bytes))) [
          | inl e ↦ rw e (no_answer-Agrees _ _ (send_gathered-Sent lib file pace _))
          | inr e ↦ rw e refl
        ])

  handle-range :
      (w : Hashed lib file) (start end : ℕ)
      → (handle lib file w (range start end) >>= λ w'. ok (w', done))
        ≡ inline_call lib file w (ranges start end)
  unfolding handle inline_call inline_range
  handle-range (h, received) start end = refl

  abbrev with_sha : Hashed lib file → ℕ → IoResult (Hashed lib file × Answer)
  with_sha w sha = ok (w, sha256 sha)

  handle-checkpoint :
      (w : Hashed lib file) (wanted : ℕ)
      → (handle lib file w (checkpoint wanted) >>= λ w'. ok (w', sha256 (sha256_so_far lib w'.0)))
        ≡ inline_call lib file w (asks_sha256 wanted)
  unfolding handle inline_call inline_sha256
  handle-checkpoint (h, received) wanted = from (h, received) (same_prefix received wanted)
    where
      from :
          (w : Hashed lib file) (r : IoResult (Unit {0}))
          → ((r >>= λ _. ok w) >>= λ w'. with_sha w' (sha256_so_far lib w'.0))
            ≡ ((r >>= λ _. ok (sha256_so_far lib w.0)) >>= λ sha. with_sha w sha)
      from w (ok _) = refl
      from w (err x) = refl

  handle-updates :
      (w : Hashed lib file) (bytes : List ℕ)
      → ◌≡◌ {A = IoResult (Hashed lib file × Answer)}
          (ok (inline_update lib file w bytes, done))
          (inline_call lib file w (updates bytes))
  unfolding inline_call
  handle-updates w bytes = refl

  -- The reply of a drained worker.
  reply-Agrees :
      (p : Pipe lib file) (r : IoResult (Hashed lib file))
      → p.worker ≡ r
      → IsDrained lib file p
      → p.gathered ≡ []
      → Agrees
          (view lib file p >>= λ w'. ok (w', sha256 (sha256_so_far lib w'.0)))
          (reply_from lib file p r)
  unfolding Agrees IsDrained hash_chunks
  reply-Agrees p (ok w) e d g =
      let known : view lib file p ≡ ok w =
        d
        ∙ ap (λ gs. p.worker >>= λ w. ok (hash_chunks lib file w gs)) g
        ∙ ap (λ r. r >>= λ w. ok w) e in
      ap (λ v. v >>= λ w'. ok (w', sha256 (sha256_so_far lib w'.0))) known
      ∙ sym (ap (λ v. v >>= λ w'. ok (w', sha256 (sha256_so_far lib w.0))) known)
  reply-Agrees p (err x) e d g =
      ap (λ v. v >>= λ w'. ok (w', sha256 (sha256_so_far lib w'.0)))
        (d ∙ ap (λ r. r >>= λ w. ok (hash_chunks lib file w p.gathered)) e)

  receive-Agrees :
      (v : IoResult (Hashed lib file)) (sent : Pipe lib file × IoResult (Unit {0}))
      → Sent lib file v sent
      → Agrees (v >>= λ w'. ok (w', sha256 (sha256_so_far lib w'.0))) (receive lib file sent)
  unfolding receive Sent Agrees
  receive-Agrees v (p, ok _) h =
      let p' = turns lib file (length p.queue) p in
      subst
        (λ v.
          Agrees (v >>= λ w'. ok (w', sha256 (sha256_so_far lib w'.0)))
            (reply_from lib file p' p'.worker))
        (view-turns lib file (length p.queue) p ∙ h.0)
        (reply-Agrees p' p'.worker refl
          (turns-IsDrained lib file (length p.queue) p (inl (omega arith)))
          (gathered-turns lib file (length p.queue) p ∙ h.1))
  receive-Agrees v (p, err x) h = ap (λ v. v >>= λ w'. ok (w', sha256 (sha256_so_far lib w'.0))) h

  -- Each call, whatever the pace of the worker.
  pub call-Agrees :
      (paces : ℕ × ℕ) (p : Pipe lib file) (c : Call)
      → Agrees (view lib file p >>= λ w. inline_call lib file w c) (pipe_call lib file paces p c)
  unfolding pipe_call
  call-Agrees (a, b) p (updates bytes) =
      subst (λ v. Agrees v (pipe_call lib file (a, b) p (updates bytes)))
        (bind_cong (view lib file p) _ _ (λ w. handle-updates w bytes)) (update-Agrees a p bytes)
  call-Agrees (a, b) p (ranges start end) =
      subst (λ v. Agrees v (pipe_call lib file (a, b) p (ranges start end)))
        (bind_assoc (view lib file p) _ _
          ∙ bind_cong (view lib file p) _ _ (λ w. handle-range w start end))
        (no_answer-Agrees _ _
          (then_send-Sent lib file b (range start end) _ _ (send_gathered-Sent lib file a p)))
  call-Agrees (a, b) p (asks_sha256 wanted) =
      subst (λ v. Agrees v (pipe_call lib file (a, b) p (asks_sha256 wanted)))
        (bind_assoc (view lib file p) _ _
          ∙ bind_cong (view lib file p) _ _ (λ w. handle-checkpoint w wanted))
        (receive-Agrees _ _
          (then_send-Sent lib file b (checkpoint wanted) _ _ (send_gathered-Sent lib file a p)))

  join-Sent :
      (v : IoResult (Hashed lib file)) (received : ℕ) (sent : Pipe lib file × IoResult (Unit {0}))
      → Sent lib file v sent
      → join_pipe lib file received sent ≡ (v >>= λ w. finish_hashed lib file w received)
  unfolding join_pipe Sent IsDrained hash_chunks
  join-Sent v received (p, ok _) h =
      let p' = turns lib file (length p.queue) p in
      let d = turns-IsDrained lib file (length p.queue) p (inl (omega arith)) in
      let g = gathered-turns lib file (length p.queue) p ∙ h.1 in
      ap (λ r. r >>= λ w. finish_hashed lib file w received)
        (sym (bind_ok p'.worker)
          ∙ sym (ap (λ gs. p'.worker >>= λ w. ok (hash_chunks lib file w gs)) g)
          ∙ sym d
          ∙ view-turns lib file (length p.queue) p
          ∙ h.0)
  join-Sent v received (p, err x) h = ap (λ r. r >>= λ w. finish_hashed lib file w received) (sym h)

  -- All the calls of a download, and `finish` with the number of bytes that it recorded: with a
  -- worker, at some paces, and without one. A caller stops at the first error.
  abbrev pub Outcome : Type 0
  Outcome = IoResult (List Answer × (ℕ × Option ℕ))

  abbrev pub put_answer : Answer → Outcome → Outcome
  put_answer a r = r >>= λ o. ok (a ∷ o.0, o.1)

  abbrev pub onward : Pipe lib file × IoResult Answer → (Pipe lib file → Outcome) → Outcome
  onward (p, ok a) next = put_answer a (next p)
  onward (p, err x) next = err x

  unfoldable pub pipe_run : List ((ℕ × ℕ) × Call) → ℕ → ℕ → Pipe lib file → Outcome
  unfolding pipe_call pipe_finish
  pipe_run [] pace received p = pipe_finish lib file pace p received >>= λ d. ok ([], d)
  pipe_run ((paces, c) ∷ calls) pace received p =
      onward (pipe_call lib file paces p c) (pipe_run calls pace received)

  unfoldable pub inline_run : List Call → ℕ → Hashed lib file → Outcome
  unfolding inline_call finish_hashed
  inline_run [] received w = finish_hashed lib file w received >>= λ d. ok ([], d)
  inline_run (c ∷ calls) received w = do
    answered ← inline_call lib file w c
    put_answer answered.1 (inline_run calls received answered.0)

  abbrev pub calls_of : List ((ℕ × ℕ) × Call) → List Call
  calls_of = map (λ c. c.1)

  onward-Agrees :
      (v : IoResult (Hashed lib file × Answer)) (answered : Pipe lib file × IoResult Answer)
      (next : Pipe lib file → Outcome) (k : Hashed lib file → Outcome)
      → Agrees v answered
      → ((p : Pipe lib file) → next p ≡ (view lib file p >>= k))
      → onward answered next ≡ (v >>= λ wa. put_answer wa.1 (k wa.0))
  unfolding Agrees
  onward-Agrees v (p, ok a) next k h same =
      ap (put_answer a) (same p)
      ∙ bind_assoc (view lib file p) _ _
      ∙ sym (bind_assoc (view lib file p) _ _)
      ∙ ap (λ v. v >>= λ wa. put_answer wa.1 (k wa.0)) (sym h)
  onward-Agrees v (p, err x) next k h same = ap (λ v. v >>= λ wa. put_answer wa.1 (k wa.0)) (sym h)

  pipe_run-view :
      (calls : List ((ℕ × ℕ) × Call)) (pace received : ℕ) (p : Pipe lib file)
      → pipe_run calls pace received p ≡ (view lib file p >>= inline_run (calls_of calls) received)
  unfolding pipe_run inline_run
  pipe_run-view [] pace received p =
      ap (λ r. r >>= λ d. ok ([], d)) (join-Sent _ received _ (send_gathered-Sent lib file pace p))
      ∙ bind_assoc (view lib file p) _ _
  pipe_run-view ((paces, c) ∷ calls) pace received p =
      onward-Agrees _ (pipe_call lib file paces p c) (pipe_run calls pace received)
        (inline_run (calls_of calls) received) (call-Agrees paces p c)
        (pipe_run-view calls pace received)
      ∙ bind_assoc (view lib file p) _ _

  -- However the worker is scheduled, a download that is hashed by a worker gets the answers, the
  -- digests or the error that it would get if it were hashed on its own thread.
  pub pipe_run-inline_run :
      (calls : List ((ℕ × ℕ) × Call)) (pace received : ℕ) (h : Hasher lib) (before : ℕ)
      → pipe_run calls pace received (new lib file h before)
        ≡ inline_run (calls_of calls) received (h, before)
  unfolding new view view_of handle_all hash_chunks
  pipe_run-inline_run calls pace received h before =
      pipe_run-view calls pace received (new lib file h before)
