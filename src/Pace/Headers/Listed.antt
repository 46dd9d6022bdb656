-- ===== src/Pace/Headers/Listed.antt =====
-- Headers given as a list, for tests.
use fetchloom.Base.{List, [], ◌∷◌, Option, if◌then◌else◌}
use fetchloom.Base.Text.{Text, text_eq}
use fetchloom.Pace.Headers.{Headers}

unfoldable pub listed : List (Text × Option Text) → Headers
unfolding text_eq
listed [] name = []
listed ((key, value) ∷ headers) name =
    let rest = listed headers name in if text_eq key name then value ∷ rest else rest
