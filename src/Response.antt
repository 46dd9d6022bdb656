-- ===== src/Response.antt =====
-- src/net/headers.rs: the response headers that downloads read. The headers are those of
-- Pace.Headers. Percent decoding is a library's, and so is the reading of UTF-8: both are
-- parameters.
pub mod Quoted
pub mod Tests
use fetchloom.Base.{
  ℕ, zero, suc, ◌+◌, ◌-◌, Bool, true, false, not, ◌&&◌, ◌||◌, List, [], ◌∷◌, ◌++◌, map, Option,
  none, some, ltb, leb, ◌==◌, any, all, length, if◌then◌else◌,
}
use fetchloom.Base.Text.{Text, codes, text_eq, split, split_once, trim, drop_while, is_whitespace}
use fetchloom.Name.Folded.{to_ascii_lowercase}
use fetchloom.Plan.Paths.{strip_prefix, rsplit_once}
use fetchloom.Pace.Headers.{Headers, get, bind, or_next, parse_u64}

abbrev pub same_ignoring_case : Text → Text → Bool
same_ignoring_case s t = text_eq (map to_ascii_lowercase s) (map to_ascii_lowercase t)

pub record Validators : Type 0 where
  pub etag : Option Text
  pub last_modified : Option Text

abbrev pub starts : Text → Text → Bool
starts p s = elim (strip_prefix p s) [ none ↦ false | some _ ↦ true ]

-- `if_range`: a strong tag, else a date when there is no tag.
abbrev pub strong : Text → Option Text
strong tag = if starts (codes "W/") tag then none else some tag

abbrev pub tag_or : Option Text → Option Text → Option Text
tag_or none date = date
tag_or (some tag) date = strong tag

unfoldable pub if_range : Validators → Option Text
unfolding strip_prefix
if_range v = tag_or v.etag v.last_modified

-- `changed`, and its closure `differs`.
abbrev pub differs : Option Text → Option Text → Bool
differs none recorded = false
differs (some stated) none = true
differs (some stated) (some recorded) = not (text_eq recorded stated)

unfoldable pub changed : Validators → Validators → Bool
unfolding text_eq
changed recorded stated =
    differs stated.etag recorded.etag || differs stated.last_modified recorded.last_modified

unfoldable pub validators : Headers → Validators
unfolding get
validators headers = record {
  etag = get (codes "etag") headers;
  last_modified = get (codes "last-modified") headers;
}

abbrev pub first_part : List Text → Option Text
first_part [] = none
first_part (part ∷ parts) = some part

-- `is_xml` and `is_html`.
abbrev pub is_xml_type : Text → Bool
is_xml_type value =
    text_eq (map to_ascii_lowercase (trim value)) (codes "application/xml")
    || text_eq (map to_ascii_lowercase (trim value)) (codes "text/xml")

abbrev pub holds : (Text → Bool) → Option Text → Bool
holds p none = false
holds p (some s) = p s

unfoldable pub is_xml : Headers → Bool
unfolding get split trim text_eq
is_xml headers =
    holds is_xml_type
      (bind (get (codes "content-type") headers) (λ value. first_part (split b';' value)))

unfoldable pub is_html : Headers → Bool
unfolding get drop_while is_whitespace strip_prefix
is_html headers =
    holds
      (λ value.
        starts (codes "text/html") (map to_ascii_lowercase (drop_while is_whitespace value)))
      (get (codes "content-type") headers)

unfoldable pub range_bounds : Headers → Option (Text × Text)
unfolding get strip_prefix split_once
range_bounds headers = bind (get (codes "content-range") headers) (λ value.
    bind (strip_prefix (codes "bytes ") value)
      (λ range. bind (split_once b'/' range) (λ r. split_once b'-' r.0)))

unfoldable pub range_start : Headers → Option ℕ
unfolding range_bounds trim parse_u64
range_start headers = bind (range_bounds headers) (λ r. parse_u64 (trim r.0))

unfoldable pub range_end : Headers → Option ℕ
unfolding range_bounds trim parse_u64
range_end headers = bind (range_bounds headers) (λ r. parse_u64 (trim r.1))

unfoldable pub accepts_ranges : Headers → Bool
unfolding split trim text_eq
accepts_ranges headers =
    any
      (holds
        (λ value. any (λ unit. same_ignoring_case (trim unit) (codes "bytes")) (split b',' value)))
      (headers (codes "accept-ranges"))

unfoldable pub total_length : Headers → ℕ → Option ℕ
unfolding get rsplit_once trim parse_u64
total_length headers status =
    if status == 206
    then bind (get (codes "content-range") headers)
        (λ value. bind (rsplit_once b'/' value) (λ r. parse_u64 (trim r.1)))
    else bind (get (codes "content-length") headers) (λ value. parse_u64 (trim value))

-- `unquote`: a quoted text with its escapes undone, and what follows the closing quote.
abbrev pub push : ℕ → Text × Text → Text × Text
push c (text, rest) = (c ∷ text, rest)

unfoldable pub unquote : Text → Text × Text
unquote [] = ([], [])
unquote (c ∷ []) = if c == b'"' || c == b'\\' then ([], []) else (c ∷ [], [])
unquote (c ∷ d ∷ s) =
    let after_escape = push d (unquote s) in
    let after = push c (unquote (d ∷ s)) in
    if c == b'"' then ([], d ∷ s) else if c == b'\\' then after_escape else after

-- The text before the first character that stops, and the text from there on.
unfoldable pub span : (ℕ → Bool) → Text → Text × Text
span stop [] = ([], [])
span stop (c ∷ s) = let rest = span stop s in if stop c then ([], c ∷ s) else (c ∷ rest.0, rest.1)

-- What stands behind the first `;`, if there is one.
unfoldable pub behind : Text → Text
behind [] = []
behind (c ∷ s) = if c == b';' then s else behind s

abbrev pub value_from : Option Text → Text → Text × Text
value_from (some quoted) after = unquote quoted
value_from none after = let r = span (λ c. c == b';') after in (trim r.0, r.1)

abbrev pub Found : Type 0
Found = Option (Text × Text) × Text

-- One round of `parameters`: what it finds, and the text that is left.
abbrev pub parameter_at : Text → Text → Found
parameter_at key [] = (none, [])
parameter_at key (c ∷ s) =
    let after = drop_while is_whitespace s in
    let value = value_from (strip_prefix (b'"' ∷ []) after) after in
    if c == b'=' then (some (trim key, value.0), behind value.1) else (none, s)

unfoldable pub parameter : Text → Found
unfolding span unquote behind trim drop_while is_whitespace strip_prefix
parameter rest = let r = span (λ c. c == b';' || c == b'=') rest in parameter_at r.0 r.1

abbrev pub cons_found : Option (Text × Text) → List (Text × Text) → List (Text × Text)
cons_found none found = found
cons_found (some p) found = p ∷ found

unfoldable pub parameters_from : ℕ → Text → List (Text × Text)
unfolding parameter is_whitespace
parameters_from zero rest = []
parameters_from (suc fuel) rest =
    let r = parameter rest in
    let found = cons_found r.0 (parameters_from fuel r.1) in
    if all is_whitespace rest then [] else found

-- `parameters`: each round leaves less text.
unfoldable pub parameters : Text → List (Text × Text)
unfolding parameters_from behind
parameters value = parameters_from (suc (length (behind value))) (behind value)

abbrev pub unless_blank : Option Text → Option Text
unless_blank none = none
unless_blank (some name) = if all is_whitespace name then none else some name

module _ (percent_decode : Text → List ℕ) (from_utf8 : List ℕ → Option Text) where
  abbrev pub decode : Text → List ℕ → Option Text
  decode charset bytes =
      if same_ignoring_case charset (codes "utf-8")
      then from_utf8 bytes
      else if same_ignoring_case charset (codes "iso-8859-1")
      then some bytes
      else none

  -- `decode_extended`.
  unfoldable pub decode_extended : Text → Option Text
  unfolding split_once text_eq
  decode_extended raw =
      bind (split_once b'\'' raw)
        (λ r. bind (split_once b'\'' r.1) (λ r'. decode r.0 (percent_decode r'.1)))

  -- The loop of `disposition`.
  unfoldable pub named_from :
      Option Text → Option Text → List (Text × Text) → Option Text × Option Text
  unfolding decode_extended text_eq
  named_from plain extended [] = (plain, extended)
  named_from plain extended ((key, raw) ∷ found) =
      let is_extended = same_ignoring_case key (codes "filename*") in
      let is_plain = not is_extended && same_ignoring_case key (codes "filename") in
      named_from (if is_plain then or_next plain (some raw) else plain)
        (if is_extended then or_next extended (decode_extended raw) else extended) found

  unfoldable pub disposition : Text → Option Text
  unfolding parameters named_from is_whitespace
  disposition value =
      let r = named_from none none (parameters value) in unless_blank (or_next r.1 r.0)
