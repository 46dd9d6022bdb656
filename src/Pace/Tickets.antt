-- ===== src/Pace/Tickets.antt =====
-- The requests to one host over time: those under way, and the notices of a wait.
use fetchloom.Base.{
  ℕ, suc, ◌+◌, ◌≤◌, ◌≡◌, refl, ap, inl, inr, ◌⊎◌, ◌∙◌, false, List, [], ◌∷◌, Option, none, some,
  arith, Bool-cases,
}
use fetchloom.Pace.State.{
  quiet, Limit, Known, Pace, Hold, ticket, hold, fresh_pace, retain, blocking_from, tells,
  admit_or_hold, admit, learn, learn_all, drop_ticket, heard,
}

-- What can happen to the pace of a host while `n` requests are under way. A ticket is used up by
-- the answer to its request, or dropped.
pub data Flight : ℕ → Pace → Type 0 where
  nothing_sent : Flight 0 fresh_pace
  let_in :
      {n : ℕ} {p : Pace} (now : ℕ)
      → Flight n p
      → (admit p now).1 ≡ ticket
      → Flight (suc n) (admit p now).0
  held :
      {n : ℕ} {p : Pace} (now : ℕ) (h : Hold)
      → Flight n p
      → (admit p now).1 ≡ hold h
      → Flight n (admit p now).0
  answered :
      {n : ℕ} {p : Pace} (limits : List Limit) (at : ℕ)
      → Flight (suc n) p
      → Flight n (heard p limits at)
  lost : {n : ℕ} {p : Pace} → Flight (suc n) p → Flight n (drop_ticket p)

pub pending-admit :
    (p : Pace) (now : ℕ)
    → (((admit p now).1 ≡ ticket) × ((admit p now).0.pending ≡ suc p.pending))
      ⊎ ((h : Hold) × ((admit p now).1 ≡ hold h) × ((admit p now).0.pending ≡ p.pending))
unfolding admit
pending-admit p now = from (blocking_from now p.pending (retain now p.limits) none)
  where
    kept : Pace
    kept = record p { limits = retain now p.limits }

    from :
        (r : Option Known)
        → (((admit_or_hold kept r).1 ≡ ticket) × ((admit_or_hold kept r).0.pending ≡ suc p.pending))
          ⊎ ((h : Hold) × ((admit_or_hold kept r).1 ≡ hold h)
              × ((admit_or_hold kept r).0.pending ≡ p.pending))
    from none = inl (refl, omega arith)
    from (some k) = inr (_, refl, ground arith)

pending-learn_all : (p : Pace) (ls : List Limit) (at : ℕ) → (learn_all p ls at).pending ≡ p.pending
unfolding learn_all
pending-learn_all p [] at = refl
pending-learn_all p (l ∷ ls) at = pending-learn_all (learn p l at) ls at

-- The count of a pace is the number of requests under way, whatever was answered, lost or held.
pub Flight-pending : {n : ℕ} {p : Pace} → Flight n p → p.pending ≡ n
unfolding heard drop_ticket
Flight-pending nothing_sent = refl
Flight-pending (let_in {p = p} now f e) = elim (pending-admit p now) [
  | inl t ↦ t.1 ∙ ap suc (Flight-pending f)
  | inr (h, q, _) ↦ cc (e, q)
]
Flight-pending (held {p = p} now h f e) = elim (pending-admit p now) [
  | inl t ↦ cc (e, t.0)
  | inr (_, _, q) ↦ q ∙ Flight-pending f
]
Flight-pending (answered {p = p} limits at f) =
    pending-learn_all (drop_ticket p) limits at ∙ omega (arith, Flight-pending f)
Flight-pending (lost f) = omega (arith, Flight-pending f)

-- What may happen after a pace, with no count of the requests.
pub data Later (p : Pace) : Pace → Type 0 where
  no_time : Later p p
  asked : {q : Pace} (now : ℕ) → Later p q → Later p (admit q now).0
  heard_of : {q : Pace} (limits : List Limit) (at : ℕ) → Later p q → Later p (heard q limits at)
  dropped : {q : Pace} → Later p q → Later p (drop_ticket q)

-- The last notice was about a reset no earlier than `a`.
abbrev Told : ℕ → Option ℕ → Type 0
Told a none = ⊥
Told a (some b) = a ≤ b

admit-Told : (a : ℕ) (p : Pace) (now : ℕ) → Told a p.announced → Told a (admit p now).0.announced
unfolding admit
admit-Told a p now t = from (blocking_from now p.pending (retain now p.limits) none)
  where
    kept : Pace
    kept = record p { limits = retain now p.limits }

    from : (r : Option Known) → Told a (admit_or_hold kept r).0.announced
    from none = t
    from (some k) = ground arith

learn_all-announced :
    (p : Pace) (ls : List Limit) (at : ℕ) → (learn_all p ls at).announced ≡ p.announced
unfolding learn_all
learn_all-announced p [] at = refl
learn_all-announced p (l ∷ ls) at = learn_all-announced (learn p l at) ls at

Later-Told : {p q : Pace} (a : ℕ) → Later p q → Told a p.announced → Told a q.announced
unfolding heard drop_ticket
Later-Told a no_time t = t
Later-Told a (asked {q = q} now l) t = admit-Told a q now (Later-Told a l t)
Later-Told a (heard_of {q = q} limits at l) t =
    rw (learn_all-announced (drop_ticket q) limits at) (Later-Told a l t)
Later-Told a (dropped l) t = Later-Told a l t

not_tells : (o : Option ℕ) (r : ℕ) → tells o r ≡ false → (a : ℕ) × Told a o × (r ≤ a + quiet)
not_tells none r e = cc e
not_tells (some a) r e = (a, omega arith, ground arith)

-- A wait is told of, or a notice no more than `quiet` before it was given.
hold-Told :
    (p : Pace) (now : ℕ) (h : Hold)
    → (admit p now).1 ≡ hold h
    → (a : ℕ) × Told a (admit p now).0.announced × (h.until ≤ a + quiet)
unfolding admit
hold-Told p now h = from (blocking_from now p.pending (retain now p.limits) none)
  where
    kept : Pace
    kept = record p { limits = retain now p.limits }

    from :
        (r : Option Known)
        → (admit_or_hold kept r).1 ≡ hold h
        → (a : ℕ) × Told a (admit_or_hold kept r).0.announced × (h.until ≤ a + quiet)
    from none e = cc e
    from (some k) e =
        let same : h.until ≡ k.reset = ground (arith, e) in
        elim (Bool-cases (tells p.announced k.reset)) [
          | inl t ↦ (k.reset, rw t (omega arith), omega (arith, same))
          | inr t ↦
              let (a, told, near) = not_tells p.announced k.reset t in
              (a, rw t told, omega (arith, same, near))
        ]

hold-silent :
    (p : Pace) (now a : ℕ) (h : Hold)
    → Told a p.announced
    → h.until ≤ a + quiet
    → (admit p now).1 ≡ hold h
    → h.announce ≡ false
unfolding admit
hold-silent p now a h t u = from (blocking_from now p.pending (retain now p.limits) none)
  where
    kept : Pace
    kept = record p { limits = retain now p.limits }

    from : (r : Option Known) → (admit_or_hold kept r).1 ≡ hold h → h.announce ≡ false
    from none e = cc e
    from (some k) e = ground arith

-- The person is told of one reset once: after a request was held until some instant, no request
-- that is held until then or earlier tells of its wait, whatever happened in between.
pub hold-told_once :
    (p q : Pace) (now later : ℕ) (h h' : Hold)
    → (admit p now).1 ≡ hold h
    → Later (admit p now).0 q
    → (admit q later).1 ≡ hold h'
    → h'.until ≤ h.until
    → h'.announce ≡ false
hold-told_once p q now later h h' e l e' u =
    let (a, t, near) = hold-Told p now h e in
    hold-silent q later a h' (Later-Told a l t) (omega arith) e'
