-- ===== src/Name/Tests.antt =====
-- The theorems on names at concrete inputs, and some inputs of the unit tests of src/name.rs.
use fetchloom.Base.{
  ℕ, ◌+◌, ◌≡◌, refl, ◌&&◌, true, [], ◌∷◌, ◌++◌, none, some, map, leb, if◌then◌else◌,
}
use fetchloom.Base.Text.{Text, byte_len, text_eq, is_control, codes, split}
use fetchloom.Name.Dataset.{dataset_name, title_name, reference_name, is_dataset_name}
use fetchloom.Name.Dataset.Titles.{is_dataset_name-title_name}
use fetchloom.Name.Refused.{escapes, climbs}
use fetchloom.Name.Refused.Resolves.{resolve, resolve-escapes}
use fetchloom.Name.Refused.Safe.{IsSafe, escapes-IsSafe}
use fetchloom.Name.Stored.{unstorable}
use fetchloom.Name.Sanitize.{sanitize}
use fetchloom.Name.Sanitize.Safe.{sanitize-storable}

abbrev lower_char : ℕ → ℕ
lower_char c = if leb b'A' c && leb c b'Z' then c + 32 else c

abbrev lower : ℕ → Text
lower c = lower_char c ∷ []

abbrev lowercase : Text → Text
lowercase s = map lower_char s

iris_dataset_name :
    dataset_name lower (codes "Iris Data (2020).csv") ≡ some (codes "iris-data-2020-csv")
unfolding dataset_name byte_len
iris_dataset_name = refl

iris_title_name :
    title_name lower lowercase (codes "The Iris Data of R. A. Fisher")
    ≡ some (codes "the-iris-data")
unfolding title_name byte_len text_eq
iris_title_name = refl

iris_reference_name :
    reference_name lower (codes "hf:datasets/scikit-learn/iris") ≡ some (codes "iris")
unfolding reference_name byte_len
iris_reference_name = refl

is_dataset_name-title_name_example : is_dataset_name (codes "the-iris-data") ≡ true
is_dataset_name-title_name_example =
    is_dataset_name-title_name lower lowercase (codes "The Iris Data of R. A. Fisher")
      (codes "the-iris-data") iris_title_name

server_sanitize : sanitize (codes "../dir/con.csv. ") ≡ some (codes "_con.csv")
unfolding sanitize is_control
server_sanitize = refl

dots_sanitize : sanitize (codes "..") ≡ none
unfolding sanitize is_control
dots_sanitize = refl

sanitize-storable_example :
    (escapes (codes "_con.csv") ≡ none) × (unstorable true (codes "_con.csv") ≡ none)
sanitize-storable_example =
    sanitize-storable true (codes "../dir/con.csv. ") (codes "_con.csv") server_sanitize

nested_escapes : escapes (codes "a/b.csv") ≡ none
unfolding escapes is_control split
nested_escapes = refl

climbing_escapes : escapes (codes "a/../../x") ≡ some climbs
unfolding escapes is_control split
climbing_escapes = refl

resolve-escapes_example :
    resolve (codes "data" ∷ []) (split b'/' (codes "a/b.csv"))
    ≡ (codes "data" ∷ []) ++ split b'/' (codes "a/b.csv")
resolve-escapes_example = resolve-escapes (codes "data" ∷ []) (codes "a/b.csv") nested_escapes

escapes-IsSafe_example : IsSafe (codes "a/b.csv")
escapes-IsSafe_example = (escapes-IsSafe (codes "a/b.csv")).0 nested_escapes
