-- ===== src/Hashing/Pipe/Sends.antt =====
-- What the sends of a pipe leave, however the worker is scheduled.
use fetchloom.Base.{
  ℕ, ◌≡◌, refl, sym, ap, subst, ◌∙◌, inl, inr, List, [], ◌∷◌, ◌++◌, leb, length, Bool-cases,
}
use fetchloom.Hashing.Hasher.{HashLibrary, IoResult, ok, err, ◌>>=◌, File}
use fetchloom.Hashing.Pipe.{
  queued, Message, chunks, hash_chunks, Hashed, handle, Pipe, turns, push, make_room, send,
  send_all, send_gathered, then_send,
}
use fetchloom.Hashing.Pipe.View.{bind_assoc, handle_all, view_of, view, view-turns, gathered-turns}

pub bind_cong {ℓ κ} :
    {A : Type ℓ} {B : Type κ} (r : IoResult A) (f g : A → IoResult B)
    → ((a : A) → f a ≡ g a)
    → (r >>= f) ≡ (r >>= g)
bind_cong (ok a) f g h = h a
bind_cong (err e) f g h = refl

pub bind_ok {ℓ} : {A : Type ℓ} (r : IoResult A) → (r >>= λ a. ok a) ≡ r
bind_ok (ok a) = refl
bind_ok (err e) = refl

module _ (lib : HashLibrary) (file : File lib) where
  handle_all-snoc :
      (w : Hashed lib file) (q : List Message) (m : Message)
      → handle_all lib file w (q ++ (m ∷ []))
        ≡ (handle_all lib file w q >>= λ w'. handle lib file w' m)
  unfolding handle_all
  handle_all-snoc w [] m = bind_ok (handle lib file w m)
  handle_all-snoc w (m' ∷ q) m =
      bind_cong (handle lib file w m') _ _ (λ w'. handle_all-snoc w' q m)
      ∙ sym (bind_assoc (handle lib file w m') _ _)

  view_of-snoc :
      (r : IoResult (Hashed lib file)) (q : List Message) (m : Message)
      → view_of lib file r (q ++ (m ∷ [])) []
        ≡ (view_of lib file r q [] >>= λ w. handle lib file w m)
  unfolding view_of hash_chunks
  view_of-snoc (ok w) q m =
      bind_ok _
      ∙ handle_all-snoc w q m
      ∙ ap (λ v. v >>= λ w. handle lib file w m) (sym (bind_ok (handle_all lib file w q)))
  view_of-snoc (err x) q m = refl

  view_of-chunks :
      (r : IoResult (Hashed lib file)) (q : List Message) (cs : List (List ℕ))
      → (view_of lib file r q [] >>= λ w. handle lib file w (chunks cs)) ≡ view_of lib file r q cs
  unfolding view_of hash_chunks handle
  view_of-chunks (ok w) q cs = bind_assoc (handle_all lib file w q) _ _
  view_of-chunks (err x) q cs = refl

  -- What a send leaves, when `v` is what the pipe should come to.
  unfoldable pub Sent : IoResult (Hashed lib file) → Pipe lib file × IoResult (Unit {0}) → Type 0
  Sent v (p, ok _) = (view lib file p ≡ v) × (p.gathered ≡ [])
  Sent v (p, err x) = v ≡ err x

  push-Sent :
      (p : Pipe lib file) (m : Message) (r : IoResult (Hashed lib file))
      → p.worker ≡ r
      → p.gathered ≡ []
      → Sent (view lib file p >>= λ w. handle lib file w m) (push lib file p m r)
  unfolding Sent push view
  push-Sent p m (ok w) e g = (
    ap (view_of lib file p.worker (p.queue ++ (m ∷ []))) g
        ∙ view_of-snoc p.worker p.queue m
        ∙ ap (λ gs. view_of lib file p.worker p.queue gs >>= λ w. handle lib file w m) (sym g),
    g,
  )
  push-Sent p m (err x) e g =
      ap (λ r. view_of lib file r p.queue p.gathered >>= λ w. handle lib file w m) e ∙ ended
    where
      ended : (view_of lib file (err x) p.queue p.gathered >>= λ w. handle lib file w m) ≡ err x
      ended = refl

  make_room_lem :
      (p : Pipe lib file)
      → (view lib file (make_room lib file p) ≡ view lib file p)
        × ((make_room lib file p).gathered ≡ p.gathered)
  unfolding make_room
  make_room_lem p = elim (Bool-cases (leb queued (length p.queue))) [
    | inl e ↦ rw e (view-turns lib file 1 p, gathered-turns lib file 1 p)
    | inr e ↦ rw e (refl, refl)
  ]

  send-Sent :
      (pace : ℕ) (p : Pipe lib file) (m : Message)
      → p.gathered ≡ []
      → Sent (view lib file p >>= λ w. handle lib file w m) (send lib file pace p m)
  unfolding send
  send-Sent pace p m g =
      let p' = make_room lib file (turns lib file pace p) in
      let (seen, kept) = make_room_lem (turns lib file pace p) in
      subst (λ v. Sent (v >>= λ w. handle lib file w m) (push lib file p' m p'.worker))
        (seen ∙ view-turns lib file pace p)
        (push-Sent p' m p'.worker refl (kept ∙ gathered-turns lib file pace p ∙ g))

  send_all-Sent :
      (pace : ℕ) (p : Pipe lib file) (cs : List (List ℕ))
      → p.gathered ≡ cs
      → Sent (view lib file p) (send_all lib file pace p cs)
  unfolding send_all Sent view
  send_all-Sent pace p [] g = (refl, g)
  send_all-Sent pace p (bytes ∷ rest) g =
      subst (λ v. Sent v (send_all lib file pace p (bytes ∷ rest)))
        (view_of-chunks p.worker p.queue (bytes ∷ rest)
          ∙ ap (view_of lib file p.worker p.queue) (sym g))
        (send-Sent pace (record p { gathered = []; gathered_bytes = 0 }) (chunks (bytes ∷ rest))
          refl)

  pub send_gathered-Sent :
      (pace : ℕ) (p : Pipe lib file) → Sent (view lib file p) (send_gathered lib file pace p)
  unfolding send_gathered
  send_gathered-Sent pace p = send_all-Sent pace p p.gathered refl

  pub then_send-Sent :
      (pace : ℕ) (m : Message) (v : IoResult (Hashed lib file))
      (sent : Pipe lib file × IoResult (Unit {0}))
      → Sent v sent
      → Sent (v >>= λ w. handle lib file w m) (then_send lib file pace m sent)
  unfolding Sent
  then_send-Sent pace m v (p, ok _) h =
      subst (λ v. Sent (v >>= λ w. handle lib file w m) (send lib file pace p m)) h.0
        (send-Sent pace p m h.1)
  then_send-Sent pace m v (p, err x) h = ap (λ v. v >>= λ w. handle lib file w m) h
