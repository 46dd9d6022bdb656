-- ===== src/Split/Board.antt =====
-- src/net/download/split.rs: `Share` and `Board`, which stream fetches which bytes and what
-- nobody fetches yet. Offsets and lengths are 64-bit in the code; none of them is above the size
-- of the file, so no operation wraps, and no subtraction goes below zero while `Board.IsValid`
-- holds.
pub mod Valid
pub mod Keeps
pub mod Measure
pub mod Conserves
pub mod Asks
pub mod Others
pub mod History
use fetchloom.Base.{
  ℕ, zero, suc, ◌+◌, ◌-◌, ◌/◌, min, Bool, true, false, ◌&&◌, ◌||◌, List, [], ◌∷◌, ◌++◌, Option,
  none, some, ltb, leb, ◌==◌, length, get_elem?, set, replicate, if◌then◌else◌,
}

abbrev pub Range : Type 0
Range = ℕ × ℕ

pub record Share : Type 0 where
  pub next : ℕ
  pub end : ℕ
  pub is_open : Bool
  pub started : Bool

pub record Board : Type 0 where
  pub shares : List (Option Share)
  pub free : List Range
  pub delivered : ℕ
  pub pieced : Bool
  pub stopped : Bool

abbrev with_shares : List (Option Share) → List Range → Board
with_shares shares free = record {
  shares = shares;
  free = free;
  delivered = 0;
  pieced = false;
  stopped = false;
}

-- `Board::new`.
unfoldable pub new : List Range → Board
new [] = with_shares (none ∷ []) []
new ((a, e) ∷ gaps) =
    with_shares (some (record { next = a; end = e; is_open = true; started = false }) ∷ []) gaps

abbrev pub flatten : Option (Option Share) → Option Share
flatten none = none
flatten (some s) = s

unfoldable pub share : Board → ℕ → Option Share
share b id = flatten (get_elem? b.shares id)

abbrev pub share_left : Option Share → ℕ
share_left none = 0
share_left (some s) = s.end - s.next

unfoldable pub left : Board → ℕ → ℕ
unfolding share
left b id = share_left (share b id)

-- `max_by_key` over the shares with their places: of equal ones it takes the last.
abbrev newer : ℕ → ℕ → Option (ℕ × ℕ) → Option (ℕ × ℕ)
newer index l none = some (index, l)
newer index l (some (i, best)) = if leb best l then some (index, l) else some (i, best)

unfoldable pub largest_from : ℕ → List (Option Share) → Option (ℕ × ℕ) → Option (ℕ × ℕ)
largest_from index [] best = best
largest_from index (none ∷ rest) best = largest_from (suc index) rest best
largest_from index (some s ∷ rest) best =
    largest_from (suc index) rest (newer index (s.end - s.next) best)

-- `resize` to at least `n` places.
unfoldable pub resize : List (Option Share) → ℕ → List (Option Share)
resize shares n = shares ++ replicate (n - length shares) none

-- The end of `assign`: stream `id` has the range from now on.
unfoldable pub take_range : Board → ℕ → Range → Board
unfolding resize
take_range b id (a, e) = record b {
  shares =
      set (resize b.shares (suc id)) id
        (some (record { next = a; end = e; is_open = false; started = false }));
  pieced = true;
}

-- The victim's share loses its upper half, which is the range.
unfoldable pub halve : Board → ℕ → ℕ → Option Share → Option (Range × Board)
halve b victim half none = none
halve b victim half (some s) = some (
  (s.end - half, s.end),
  record b { shares = set b.shares victim (some (record s { end = s.end - half })) },
)

unfoldable pub split_at : Board → ℕ → Option (ℕ × ℕ) → Option (Range × Board)
unfolding halve share
split_at b piece none = none
split_at b piece (some (victim, most)) =
    if most / 2 == 0 || ltb (most / 2) piece
    then none
    else halve b victim (most / 2) (share b victim)

-- The upper half of the largest share left, when that half is at least `piece`.
unfoldable pub split_off : Board → ℕ → Option (Range × Board)
unfolding split_at largest_from
split_off b piece = split_at b piece (largest_from 0 b.shares none)

unfoldable pub take_split : Board → ℕ → Option (Range × Board) → Option Range × Board
unfolding take_range
take_split b id none = (none, b)
take_split b id (some (range, b')) = (some range, take_range b' id range)

-- The branches of `assign`, by the free ranges.
unfoldable pub assign_from : Board → List Range → ℕ → ℕ → Option Range × Board
unfolding take_split split_off
assign_from b [] id piece = take_split b id (split_off b piece)
assign_from b (range ∷ free) id piece = (some range, take_range (record b { free = free }) id range)

unfoldable pub assign : Board → ℕ → ℕ → Option Range × Board
unfolding assign_from
assign b id piece = assign_from b b.free id piece

-- A share after `taken` bytes.
abbrev pub after_bytes : Share → ℕ → Share
after_bytes s taken = record {
  next = s.next + taken;
  end = s.end;
  is_open = if s.next + taken == s.end then false else s.is_open;
  started = true;
}

unfoldable pub deliver_to : Board → ℕ → ℕ → Option Share → Range × Board
deliver_to b id n none = ((0, 0), b)
deliver_to b id n (some s) =
    let taken = min n (s.end - s.next) in
    (
      (s.next, taken),
      record b {
        shares = set b.shares id (some (after_bytes s taken));
        delivered = b.delivered + taken;
      },
    )

-- Where the bytes go, how many of them belong to the share, and the board after.
unfoldable pub deliver : Board → ℕ → ℕ → Range × Board
unfolding deliver_to share
deliver b id n = deliver_to b id n (share b id)

abbrev pub behind : Option Share → Option (List (Option Share)) → Option (List (Option Share))
behind o none = none
behind o (some rest) = some (o ∷ rest)

-- The first share whose answer runs on into the range that starts at `a` takes it.
unfoldable pub extend_open : List (Option Share) → Range → Option (List (Option Share))
extend_open [] (a, e) = none
extend_open (none ∷ rest) (a, e) = behind none (extend_open rest (a, e))
extend_open (some s ∷ rest) (a, e) =
    if s.is_open && s.end == a
    then some (some (record s { end = e }) ∷ rest)
    else behind (some s) (extend_open rest (a, e))

-- `insert` at the `partition_point` of the ranges that start earlier.
unfoldable pub insert_free : Range → List Range → List Range
insert_free r [] = r ∷ []
insert_free (a, e) ((a', e') ∷ free) =
    if ltb a' a then (a', e') ∷ insert_free (a, e) free else (a, e) ∷ (a', e') ∷ free

unfoldable pub release_to : Board → Range → Option (List (Option Share)) → Board
unfolding insert_free
release_to b range (some shares) = record b { shares = shares }
release_to b range none = record b { free = insert_free range b.free }

unfoldable pub release : Board → Range → Board
unfolding release_to extend_open
release b range = release_to b range (extend_open b.shares range)

unfoldable pub give_back_from : Board → ℕ → Option Share → Board
unfolding release
give_back_from b id none = b
give_back_from b id (some s) =
    let b' : Board = record b { shares = set b.shares id none } in
    if ltb s.next s.end then release b' (s.next, s.end) else b'

-- `get_mut(id).and_then(Option::take)`, and what was not fetched goes back.
unfoldable pub give_back : Board → ℕ → Board
unfolding share give_back_from
give_back b id = give_back_from b id (share b id)

unfoldable pub trim_to : Board → ℕ → ℕ → Option Share → Board
unfolding release
trim_to b id end none = b
trim_to b id end (some s) =
    if ltb s.next end && ltb end s.end
    then release (record b { shares = set b.shares id (some (record s { end = end })) })
        (end, s.end)
    else b

unfoldable pub trim : Board → ℕ → ℕ → Board
unfolding share trim_to
trim b id end = trim_to b id end (share b id)

abbrev idle : Option Share → Bool
idle none = true
idle (some s) = s.next == s.end

unfoldable pub all_idle : List (Option Share) → Bool
all_idle [] = true
all_idle (o ∷ rest) = idle o && all_idle rest

unfoldable pub finished : Board → Bool
unfolding all_idle
finished b = elim b.free [ [] ↦ all_idle b.shares | _ ↦ false ]
