-- ===== src/Hashing/Pipe/View.antt =====
-- What a pipe will have hashed once its worker took all that was handed over: how the pipe looks
-- without its interleavings.
use fetchloom.Base.{
  ℕ, zero, suc, ◌≤◌, ◌≡◌, refl, sym, ap, ◌∙◌, ◌⊎◌, inl, inr, List, [], ◌∷◌, arith, length,
}
use fetchloom.Hashing.Hasher.{HashLibrary, IoError, IoResult, ok, err, ◌>>=◌, File}
use fetchloom.Hashing.Pipe.{Message, hash_chunks, Hashed, handle, Pipe, take_message, turns}

pub bind_assoc {ℓ κ μ} :
    {A : Type ℓ} {B : Type κ} {C : Type μ} (r : IoResult A) (f : A → IoResult B)
    (g : B → IoResult C)
    → ((r >>= f) >>= g) ≡ (r >>= λ a. f a >>= g)
bind_assoc (ok a) f g = refl
bind_assoc (err e) f g = refl

module _ (lib : HashLibrary) (file : File lib) where
  unfoldable pub handle_all : Hashed lib file → List Message → IoResult (Hashed lib file)
  handle_all w [] = ok w
  handle_all w (m ∷ rest) = do w' ← handle lib file w m; handle_all w' rest

  unfoldable pub view_of :
      IoResult (Hashed lib file) → List Message → List (List ℕ) → IoResult (Hashed lib file)
  view_of worker queue gathered = do
    w ← worker
    w' ← handle_all w queue
    ok (hash_chunks lib file w' gathered)

  unfoldable pub view : Pipe lib file → IoResult (Hashed lib file)
  unfolding view_of
  view p = view_of p.worker p.queue p.gathered

  -- The worker's turns change nothing of it.
  view-take :
      (p : Pipe lib file) (r : IoResult (Hashed lib file)) (q : List Message)
      → p.worker ≡ r
      → p.queue ≡ q
      → view (take_message lib file p r q) ≡ view p
  unfolding view view_of take_message handle_all
  view-take p (ok w) [] e f = refl
  view-take p (ok w) (m ∷ rest) e f =
      rw (e, f) (sym (bind_assoc (handle lib file w m) (λ w'. handle_all w' rest) _))
  view-take p (err x) q e f = refl

  pub view-turns : (n : ℕ) (p : Pipe lib file) → view (turns lib file n p) ≡ view p
  unfolding turns
  view-turns zero p = refl
  view-turns (suc n) p =
      view-turns n (take_message lib file p p.worker p.queue)
      ∙ view-take p p.worker p.queue refl refl

  gathered-take :
      (p : Pipe lib file) (r : IoResult (Hashed lib file)) (q : List Message)
      → (take_message lib file p r q).gathered ≡ p.gathered
  unfolding take_message
  gathered-take p (ok w) [] = refl
  gathered-take p (ok w) (m ∷ rest) = refl
  gathered-take p (err x) q = refl

  pub gathered-turns : (n : ℕ) (p : Pipe lib file) → (turns lib file n p).gathered ≡ p.gathered
  unfolding turns
  gathered-turns zero p = refl
  gathered-turns (suc n) p =
      gathered-turns n (take_message lib file p p.worker p.queue) ∙ gathered-take p p.worker p.queue

  -- A worker that took all there was, or ended.
  unfoldable pub IsDrained : Pipe lib file → Type 0
  IsDrained p = view p ≡ (p.worker >>= λ w. ok (hash_chunks lib file w p.gathered))

  view_of-idle :
      (r : IoResult (Hashed lib file)) (g : List (List ℕ))
      → view_of r [] g ≡ (r >>= λ w. ok (hash_chunks lib file w g))
  unfolding view_of handle_all
  view_of-idle (ok w) g = refl
  view_of-idle (err x) g = refl

  view_of-ended :
      (r : IoResult (Hashed lib file)) (q : List Message) (g : List (List ℕ)) (x : IoError)
      → r ≡ err x
      → view_of r q g ≡ (r >>= λ w. ok (hash_chunks lib file w g))
  unfolding view_of
  view_of-ended (ok w) q g x e = cc
  view_of-ended (err y) q g x e = refl

  -- A queue of at most `n` messages, or a worker that ended.
  abbrev Fits : ℕ → Pipe lib file → Type 0
  Fits n p = (length p.queue ≤ n) ⊎ ((x : IoError) × (p.worker ≡ err x))

  Fits-IsDrained : (p : Pipe lib file) → Fits 0 p → IsDrained p
  unfolding IsDrained view
  Fits-IsDrained p (inl h) = emptied p.queue refl h
    where
      emptied :
          (q : List Message)
          → p.queue ≡ q
          → length p.queue ≤ 0
          → view_of p.worker p.queue p.gathered
            ≡ (p.worker >>= λ w. ok (hash_chunks lib file w p.gathered))
      emptied [] e h = ap (λ q. view_of p.worker q p.gathered) e ∙ view_of-idle p.worker p.gathered
      emptied (m ∷ q) e h = absurd (omega (arith, ap length e, h))
  Fits-IsDrained p (inr (x, e)) = view_of-ended p.worker p.queue p.gathered x e

  Fits-take :
      (n : ℕ) (p : Pipe lib file) (r : IoResult (Hashed lib file)) (q : List Message)
      → p.worker ≡ r
      → p.queue ≡ q
      → Fits (suc n) p
      → Fits n (take_message lib file p r q)
  unfolding take_message
  Fits-take n p (ok w) [] e f h = inl (omega (arith, ap length f))
  Fits-take n p (ok w) (m ∷ rest) e f (inl h) = inl (omega (arith, ap length f, h))
  Fits-take n p (ok w) (m ∷ rest) e f (inr (x, h)) = cc
  Fits-take n p (err x) q e f h = inr (x, e)

  pub turns-IsDrained : (n : ℕ) (p : Pipe lib file) → Fits n p → IsDrained (turns lib file n p)
  unfolding turns
  turns-IsDrained zero p h = Fits-IsDrained p h
  turns-IsDrained (suc n) p h =
      turns-IsDrained n (take_message lib file p p.worker p.queue)
        (Fits-take n p p.worker p.queue refl refl h)
