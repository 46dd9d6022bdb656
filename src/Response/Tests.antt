-- ===== src/Response/Tests.antt =====
-- Tests of response headers, and the witness of their theorem.
use fetchloom.Base.{ℕ, ◌≡◌, refl, false, true, List, [], ◌∷◌, ◌++◌, Option, none, some, all}
use fetchloom.Base.Text.{Text, codes, is_whitespace}
use fetchloom.Pace.Headers.Listed.{listed}
use fetchloom.Response.{disposition, range_start}
use fetchloom.Response.Quoted.{in_quotes, disposition-escaped}

-- No text is percent encoded, and every byte is ASCII.
abbrev undecoded : Text → List ℕ
undecoded s = s

abbrev ascii : List ℕ → Option Text
ascii bytes = some bytes

extended_first :
    disposition undecoded ascii (codes "attachment; filename=\"a.csv\"; filename*=UTF-8''b.csv")
    ≡ some (codes "b.csv")
unfolding disposition fetchloom.Base.Text.text_eq fetchloom.Base.Text.split_once
    fetchloom.Base.Text.trim
extended_first = refl

starts_at :
    range_start (listed ((codes "content-range", some (codes "bytes 100-199/200")) ∷ [])) ≡ some 100
unfolding listed range_start fetchloom.Base.Text.text_eq fetchloom.Base.Text.split_once
    fetchloom.Base.Text.trim fetchloom.Base.Text.value_from
starts_at = refl

not_blank : all is_whitespace (codes "say \"hi\".csv") ≡ false
unfolding is_whitespace
not_blank = refl

disposition-escaped_example :
    disposition undecoded ascii
      (codes "attachment; filename=" ++ in_quotes (codes "say \"hi\".csv"))
    ≡ some (codes "say \"hi\".csv")
disposition-escaped_example = disposition-escaped undecoded ascii (codes "say \"hi\".csv") not_blank
