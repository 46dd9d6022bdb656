-- ===== src/Pace/Headers.antt =====
-- src/net/pace.rs: the reading of rate limits from the headers of an answer, `limits`, and
-- `retry_after` of src/net/failure.rs. The headers are what `get_all` gives for a name in
-- lower case: its values in their order, of which one that is no visible ASCII is none. Instants
-- are numbers of nanoseconds since 1970, and the reading of an HTTP date, which the httpdate
-- library does, is a parameter.
pub mod Asked
pub mod Listed
use fetchloom.Base.{
  ℕ, ◌+◌, ◌-◌, ◌*◌, ◌/◌, min, max, Bool, true, false, not, ◌&&◌, ◌||◌, List, [], ◌∷◌, ◌++◌, map,
  Option, none, some, ltb, leb, ◌==◌, any, all, if◌then◌else◌,
}
use fetchloom.Base.Text.{
  Text, codes, text_eq, split, split_once, trim, drop_while, is_whitespace, is_digit, value_from,
}
use fetchloom.Name.Folded.{to_ascii_lowercase}
use fetchloom.Pace.State.{Limit, second}

abbrev pub epoch_from : ℕ
epoch_from = 1_000_000_000

abbrev pub farthest : ℕ
farthest = 24 * 3600 * second

abbrev pub Headers : Type 0
Headers = Text → List (Option Text)

abbrev pub first_value : List (Option Text) → Option Text
first_value [] = none
first_value (value ∷ values) = value

unfoldable pub get : Text → Headers → Option Text
get name headers = first_value (headers name)

abbrev pub u64_max : ℕ
u64_max = 0xffff_ffff_ffff_ffff

-- `parse::<u64>` of digits, and of a text that may have a plus sign.
abbrev pub digits_u64 : Text → Option ℕ
digits_u64 [] = none
digits_u64 (c ∷ s) =
    if all is_digit (c ∷ s) && leb (value_from 0 (c ∷ s)) u64_max
    then some (value_from 0 (c ∷ s))
    else none

unfoldable pub parse_u64 : Text → Option ℕ
unfolding value_from
parse_u64 [] = none
parse_u64 (c ∷ s) = if c == b'+' then digits_u64 s else digits_u64 (c ∷ s)

unfoldable pub leading_digits : Text → Text
leading_digits [] = []
leading_digits (c ∷ s) = let rest = leading_digits s in if is_digit c then c ∷ rest else []

unfoldable pub leading_number : Text → Option ℕ
unfolding value_from drop_while is_whitespace leading_digits
leading_number text = digits_u64 (leading_digits (drop_while is_whitespace text))

abbrev pub bind : {A B : Type 0} → Option A → (A → Option B) → Option B
bind none f = none
bind (some a) f = f a

abbrev pub or_next : {A : Type 0} → Option A → Option A → Option A
or_next none o = o
or_next (some a) o = some a

-- The closure `number` of `plain`, of a name with and without `x-`.
unfoldable pub number : Headers → Text → Text → Option ℕ
unfolding get leading_number
number headers name draft =
    or_next (bind (get name headers) leading_number) (bind (get draft headers) leading_number)

abbrev pub plain_limit : ℕ → Option ℕ → ℕ → ℕ → Limit
plain_limit clock quota remaining reset = record {
  name = [];
  quota = quota;
  window = none;
  remaining = remaining;
  reset = if leb epoch_from reset then (reset - clock / second) * second else reset * second;
  stamp = if leb epoch_from reset then some reset else none;
}

unfoldable pub plain : Headers → ℕ → Option Limit
unfolding number
plain headers clock =
    bind (number headers (codes "x-ratelimit-remaining") (codes "ratelimit-remaining"))
      (λ remaining.
        bind (number headers (codes "x-ratelimit-reset") (codes "ratelimit-reset")) (λ reset. some (
          plain_limit clock (number headers (codes "x-ratelimit-limit") (codes "ratelimit-limit"))
            remaining reset)))

abbrev pub Params : Type 0
Params = List (Text × ℕ)

-- A text between quotes: `strip_prefix` and `strip_suffix`.
unfoldable pub before_quote : Text → Option Text
before_quote [] = none
before_quote (c ∷ []) = if c == b'"' then some [] else none
before_quote (c ∷ d ∷ s) = bind (before_quote (d ∷ s)) (λ t. some (c ∷ t))

unfoldable pub in_quotes : Text → Option Text
unfolding before_quote
in_quotes [] = none
in_quotes (c ∷ s) = if c == b'"' then before_quote s else none

abbrev pub key_value : Text × Text → Option (Text × ℕ)
key_value (key, value) =
    bind (parse_u64 (trim value)) (λ n. some (map to_ascii_lowercase (trim key), n))

abbrev pub add_param : Option (Text × ℕ) → Text × Params → Text × Params
add_param none m = m
add_param (some p) (name, params) = (name, params ++ (p ∷ []))

-- One part of a member, behind those before it.
abbrev pub add_part : Text → Option Text → Text × Params → Text × Params
add_part part (some quoted) (name, params) = (quoted, params)
add_part part none m = add_param (bind (split_once b'=' part) key_value) m

unfoldable pub add_parts : List Text → Text × Params → Text × Params
unfolding parse_u64 trim split_once in_quotes
add_parts [] m = m
add_parts (part ∷ parts) m = add_parts parts (add_part (trim part) (in_quotes (trim part)) m)

unfoldable pub member : Text → Text × Params
unfolding split add_parts
member text = add_parts (split b';' text) ([], [])

unfoldable pub param : Text → Params → Option ℕ
unfolding text_eq
param key [] = none
param key ((name, value) ∷ params) = if text_eq name key then some value else param key params

abbrev pub members_of : Option Text → List (Text × Params)
members_of none = []
members_of (some value) = map member (split b',' value)

unfoldable pub all_members : List (Option Text) → List (Text × Params)
unfolding split member
all_members [] = []
all_members (value ∷ values) = members_of value ++ all_members values

unfoldable pub members : Headers → Text → List (Text × Params)
unfolding all_members
members headers name = all_members (headers name)

unfoldable pub policy_of : Text → List (Text × Params) → Option Params
unfolding text_eq
policy_of name [] = none
policy_of name ((policy, params) ∷ rest) =
    if text_eq policy name then some params else policy_of name rest

abbrev pub in_seconds : Option ℕ → Option ℕ
in_seconds none = none
in_seconds (some n) = some (n * second)

unfoldable pub structured_limit : List (Text × Params) → Text × Params → Option Limit
unfolding param policy_of
structured_limit policies (name, params) = bind (param (codes "r") params) (λ remaining.
    bind (param (codes "t") params) (λ reset. some (record {
      name = name;
      quota = bind (policy_of name policies) (param (codes "q"));
      window = in_seconds (bind (policy_of name policies) (param (codes "w")));
      remaining = remaining;
      reset = reset * second;
      stamp = none;
    })))

abbrev pub cons_some : Option Limit → List Limit → List Limit
cons_some none limits = limits
cons_some (some limit) limits = limit ∷ limits

unfoldable pub structured_from : List (Text × Params) → List (Text × Params) → List Limit
unfolding structured_limit
structured_from policies [] = []
structured_from policies (m ∷ ms) =
    cons_some (structured_limit policies m) (structured_from policies ms)

unfoldable pub structured : Headers → List Limit
unfolding members structured_from
structured headers =
    structured_from (members headers (codes "ratelimit-policy"))
      (members headers (codes "ratelimit"))

abbrev pub or_zero : Option ℕ → ℕ
or_zero none = 0
or_zero (some n) = n

abbrev pub is_used : Limit → Bool
is_used limit = limit.remaining == 0

-- What a 429 changes: the limits that it names, or all of them when it names none.
abbrev pub use_up : Bool → Option ℕ → Limit → Limit
use_up named asked limit =
    if not named || is_used limit
    then record limit { remaining = 0; reset = max limit.reset (or_zero asked) }
    else limit

abbrev pub asked_limit : ℕ → Limit
asked_limit asked = record {
  name = [];
  quota = none;
  window = none;
  remaining = 0;
  reset = asked;
  stamp = none;
}

unfoldable pub refused_limits : Option ℕ → List Limit → List Limit
refused_limits none [] = []
refused_limits (some asked) [] = asked_limit asked ∷ []
refused_limits asked (limit ∷ limits) =
    map (use_up (any is_used (limit ∷ limits)) asked) (limit ∷ limits)

abbrev pub cap : Limit → Limit
cap limit = record limit { reset = min limit.reset farthest }

abbrev pub clock_or : ℕ → Option ℕ → ℕ
clock_or now none = now
clock_or now (some date) = date

module _ (http_date : Text → Option ℕ) where
  abbrev pub date_after : ℕ → Text → Option ℕ
  date_after now value = bind (http_date value) (λ at. some (at - now))

  -- `retry_after`, at the instant `now`.
  unfoldable pub retry_after : Headers → ℕ → Option ℕ
  unfolding get trim parse_u64
  retry_after headers now =
      bind (get (codes "retry-after") headers)
        (λ value. or_next (in_seconds (parse_u64 (trim value))) (date_after now (trim value)))

  -- `limits`, whose `retry_after` reads the clock again, at `later`.
  unfoldable pub limits : ℕ → Headers → ℕ → ℕ → List Limit
  unfolding get plain structured retry_after refused_limits
  limits status headers now later =
      let stated =
        cons_some (plain headers (clock_or now (bind (get (codes "date") headers) http_date)))
          (structured headers) in
      map cap (if status == 429 then refused_limits (retry_after headers later) stated else stated)
