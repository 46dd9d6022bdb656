-- ===== src/Glob/Name/Decides.antt =====
-- The loop of `matches_name` ends, and its answer is right: going back to the last star only
-- loses no way to fit the tokens.
use fetchloom.Base.{
  ℕ, zero, suc, ◌+◌, ◌*◌, ◌≤◌, ◌<◌, ◌≡◌, refl, ◌↔◌, inl, inr, Bool, true, false, List, [], ◌∷◌,
  Option, none, some, arith, length, if◌then◌else◌, Bool-cases,
}
use fetchloom.Base.Text.{Text}
use fetchloom.Glob.Pattern.{Token, many, fits}
use fetchloom.Glob.Name.{
  Fits, finished, take_one, pass_star, feed_star, all_many, Star, backtrack, name_loop,
  matches_name,
}

all_many→Fits : (ts : List Token) → all_many ts ≡ true → Fits ts []
unfolding all_many
all_many→Fits [] h = finished
all_many→Fits (many ∷ ts) h = pass_star (all_many→Fits ts h)
all_many→Fits (_ ∷ ts) h = cc

Fits→all_many : {ts : List Token} → Fits ts [] → all_many ts ≡ true
unfolding all_many
Fits→all_many finished = refl
Fits→all_many (pass_star d) = Fits→all_many d

many_never_fits : (c : ℕ) → ¬ (fits many c ≡ true)
unfolding fits
many_never_fits c h = cc

abbrev pub plain : Token → Bool
plain many = false
plain _ = true

-- A plain token takes exactly one character.
pub plain_inv :
    (t : Token) (ts : List Token) {s : Text}
    → plain t ≡ true
    → Fits (t ∷ ts) s
    → (c : ℕ) × (cs : Text) × (s ≡ c ∷ cs) × (fits t c ≡ true) × Fits ts cs
plain_inv t ts p (take_one {c = c} {cs = cs} h d) = (c, cs, refl, h, d)
plain_inv t ts p (pass_star d) = cc
plain_inv t ts p (feed_star d) = cc

module _ {ts : List Token} where
  star_must_feed :
      {c : ℕ} {cs : Text} → Fits (many ∷ ts) (c ∷ cs) → ¬ Fits ts (c ∷ cs) → Fits (many ∷ ts) cs
  star_must_feed (take_one h d) n = absurd (many_never_fits _ h)
  star_must_feed (pass_star d) n = absurd (n d)
  star_must_feed (feed_star d) n = d

  star_at_end : Fits (many ∷ ts) [] → Fits ts []
  star_at_end (pass_star d) = d

  star_twice : {cs : Text} → Fits (many ∷ many ∷ ts) cs → Fits (many ∷ ts) cs
  star_twice (take_one h d) = absurd (many_never_fits _ h)
  star_twice (pass_star d) = d
  star_twice (feed_star d) = feed_star (star_twice d)

  first_fits :
      {t : Token} {c : ℕ} {cs : Text}
      → plain t ≡ true
      → Fits (t ∷ ts) (c ∷ cs)
      → (fits t c ≡ true) × Fits ts cs
  first_fits p (take_one h d) = (h, d)
  first_fits p (pass_star d) = cc
  first_fits p (feed_star d) = cc

  plain_needs_one : {t : Token} → plain t ≡ true → ¬ Fits (t ∷ ts) []
  plain_needs_one p (pass_star d) = cc

  -- A star before a plain token reaches past the first character once the token is met.
  shift_star :
      {t : Token} {c : ℕ} (cs : Text)
      → plain t ≡ true
      → Fits (many ∷ t ∷ ts) (c ∷ cs)
      → Fits (many ∷ ts) cs
  shift_star cs p (take_one h d) = absurd (many_never_fits _ h)
  shift_star cs p (pass_star d) = pass_star (first_fits p d).1
  shift_star [] p (feed_star (pass_star d)) = absurd (plain_needs_one p d)
  shift_star (c ∷ cs) p (feed_star d) = feed_star (shift_star cs p d)

-- The run ended with an answer to the question `G`.
abbrev pub Settles : Type 0 → Option Bool → Type 0
Settles G r = (b : Bool) × (r ≡ some b) × ((b ≡ true) ↔ G)

-- `G` is the question asked at the start, and `K` is above the number of tokens.
module _ (G : Type 0) (K : ℕ) where
  -- What a saved star stands for. `m` bounds the characters that it may still be asked to take.
  abbrev Kept : ℕ → List Token → Text → Star → Type 0
  Kept m ts cs none = G → Fits ts cs
  Kept m ts cs (some (after, from)) =
      (G ↔ Fits (many ∷ after) from)
      × (Fits after from → Fits ts cs)
      × (length cs ≤ length from)
      × (length from ≤ m)
      × (length after < K)

  record Round (fuel m : ℕ) (ts : List Token) (cs : Text) (star : Star) : Type 0 where
    sound : Fits ts cs → G
    reach : G → Fits (many ∷ ts) cs
    kept : Kept m ts cs star
    few_chars : length cs ≤ m
    few_tokens : length ts < K
    enough : m * K + length ts < fuel

  -- At a star the question becomes whether `many ∷ ts` fits what is left.
  Round-star :
      {fuel m : ℕ} {ts : List Token} {cs : Text}
      → G ↔ Fits (many ∷ ts) cs
      → length cs ≤ m
      → length ts < K
      → m * K + length ts < fuel
      → Round fuel m ts cs (some (ts, cs))
  Round-star e a b h = record {
    sound = λ d. e.1 (pass_star d);
    reach = e.0;
    kept = (e, λ d. d, omega arith, a, b);
    few_chars = a;
    few_tokens = b;
    enough = h;
  }

  Kept-next :
      (m : ℕ) (t : Token) (c : ℕ) (ts : List Token) (cs : Text) (star : Star)
      → plain t ≡ true
      → Kept m (t ∷ ts) (c ∷ cs) star
      → Kept m ts cs star
  Kept-next m t c ts cs none p k = λ g. (first_fits p (k g)).1
  Kept-next m t c ts cs (some (after, from)) p (e, down, a, b, h) =
      (e, λ d. (first_fits p (down d)).1, omega arith, b, h)

  Round-next :
      {fuel m c : ℕ} {t : Token} {ts : List Token} {cs : Text} {star : Star}
      → plain t ≡ true
      → fits t c ≡ true
      → Round (suc fuel) m (t ∷ ts) (c ∷ cs) star
      → Round fuel m ts cs star
  Round-next {m} {c} {t} {ts} {cs} {star} p h r = record {
    sound = λ d. r.sound (take_one h d);
    reach = λ g. shift_star cs p (r.reach g);
    kept = Kept-next m t c ts cs star p r.kept;
    few_chars = omega arith;
    few_tokens = omega arith;
    enough = omega arith;
  }

  -- After a mismatch the star takes one character more, which lowers `m`.
  backtrack-Settles :
      {fuel c : ℕ} {ts : List Token} {cs : Text} (m : ℕ) (star : Star)
      (again : List Token → Text → Star → Option Bool)
      → ((m' : ℕ) (ts' : List Token) (cs' : Text) (star' : Star)
          → Round fuel m' ts' cs' star'
          → Settles G (again ts' cs' star'))
      → Round (suc fuel) m ts (c ∷ cs) star
      → ¬ Fits ts (c ∷ cs)
      → Settles G (backtrack star again)
  unfolding backtrack
  backtrack-Settles m none again ih r n = (false, refl, (λ h. cc, λ g. absurd (n (r.kept g))))
  backtrack-Settles m (some (after, [])) again ih r n = absurd (omega arith)
  backtrack-Settles zero (some (after, x ∷ from)) again ih r n = absurd (omega arith)
  backtrack-Settles (suc m) (some (after, x ∷ from)) again ih r n =
      let (e, down, _, _, _) = r.kept in
      ih m after from (some (after, from)) (
        Round-star (λ g. star_must_feed (e.0 g) (λ d. n (down d)), λ d. e.1 (feed_star d))
          (omega arith) (omega arith) (omega arith))

  abbrev Run : ℕ → Type 0
  Run fuel =
      (m : ℕ) (ts : List Token) (cs : Text) (star : Star)
      → Round fuel m ts cs star
      → Settles G (name_loop fuel ts cs star)

  -- A token that is no star.
  plain-Settles :
      (fuel m c : ℕ) (t : Token) (ts : List Token) (cs : Text) (star : Star)
      → plain t ≡ true
      → Run fuel
      → Round (suc fuel) m (t ∷ ts) (c ∷ cs) star
      → Settles G (if fits t c then name_loop fuel ts cs star else backtrack star (name_loop fuel))
  plain-Settles fuel m c t ts cs star p run r = elim (Bool-cases (fits t c)) [
    | inl h ↦ rw h (run m ts cs star (Round-next p h r))
    | inr h ↦ rw h (backtrack-Settles m star (name_loop fuel) run r λ d. cc (first_fits p d).0)
  ]

  name_loop-Settles : (fuel : ℕ) → Run fuel
  unfolding name_loop
  name_loop-Settles zero m ts cs star r = absurd (omega arith)
  name_loop-Settles (suc fuel) m ts [] star r = (
    all_many ts,
    refl,
    (λ h. r.sound (all_many→Fits ts h), λ g. Fits→all_many (star_at_end (r.reach g))),
  )
  name_loop-Settles (suc fuel) m [] (c ∷ cs) star r =
      backtrack-Settles m star (name_loop fuel) (name_loop-Settles fuel) r λ d. elim d [ ]
  name_loop-Settles (suc fuel) m (many ∷ ts) (c ∷ cs) star r =
      name_loop-Settles fuel m ts (c ∷ cs) (some (ts, c ∷ cs))
        (Round-star (λ g. star_twice (r.reach g), r.sound) r.few_chars (omega arith) (omega arith))
  name_loop-Settles (suc fuel) m (t ∷ ts) (c ∷ cs) star r =
      plain-Settles fuel m c t ts cs star refl (name_loop-Settles fuel) r

-- `matches_name` always ends, and answers true exactly when the tokens fit the whole name.
pub matches_name-Settles : (ts : List Token) (cs : Text) → Settles (Fits ts cs) (matches_name ts cs)
unfolding matches_name
matches_name-Settles ts cs =
    name_loop-Settles (Fits ts cs) (suc (length ts)) _ (length cs) ts cs none (record {
      sound = λ d. d;
      reach = pass_star;
      kept = λ d. d;
      few_chars = omega arith;
      few_tokens = omega arith;
      enough = omega arith;
    })
