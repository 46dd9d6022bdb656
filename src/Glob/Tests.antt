-- ===== src/Glob/Tests.antt =====
-- src/glob.rs: runs of the model on the inputs of the unit tests there, and the theorems at inputs.
use fetchloom.Base.{◌≡◌, refl, ◌↔◌, Bool, true, false, List, [], ◌∷◌, Option, none, some}
use fetchloom.Base.Text.{Text, codes, split, is_control}
use fetchloom.Glob.Pattern.{Token, char, many, fits, Glob, named, any_folders}
use fetchloom.Glob.Parse.{
  Parsed, ok, err, new, escape, double_star, backwards, empty_folder, find_char,
}
use fetchloom.Glob.Parse.Total.{Ends, GlobIsTidy, new-Ends}
use fetchloom.Glob.Name.{Fits, matches_name}
use fetchloom.Glob.Name.Decides.{Settles, matches_name-Settles}
use fetchloom.Glob.Path.{matches}
use fetchloom.Glob.Path.Decides.{Covers, matches-Settles}
use fetchloom.Glob.Escape.{PathIsPlain, matches-escape}

abbrev answer : Parsed Glob → Text → Option Bool
answer (ok g) path = matches g path
answer (err e) path = none

star_stays_inside : answer (new (codes "*.csv")) (codes "raw/iris.csv") ≡ some false
unfolding new matches matches_name fits split
star_stays_inside = refl

backtracks : answer (new (codes "a*b*c")) (codes "aXXbYYc") ≡ some true
unfolding new matches matches_name fits split
backtracks = refl

no_folder_between : answer (new (codes "a/**/z")) (codes "a/z") ≡ some true
unfolding new matches matches_name fits split
no_folder_between = refl

folders_between : answer (new (codes "a/**/z")) (codes "a/b/c/z") ≡ some true
unfolding new matches matches_name fits split
folders_between = refl

bracket_first : answer (new (codes "[]].txt")) (codes "].txt") ≡ some true
unfolding new matches matches_name fits split
bracket_first = refl

dash_last : answer (new (codes "x[a-].txt")) (codes "x-.txt") ≡ some true
unfolding new matches matches_name fits split
dash_last = refl

negated : answer (new (codes "[!abc].txt")) (codes "b.txt") ≡ some false
unfolding new matches matches_name fits split
negated = refl

two_stars_inside : new (codes "a**b") ≡ err double_star
unfolding new
two_stars_inside = refl

range_backwards : new (codes "[z-a]") ≡ err (backwards b'z' b'a')
unfolding new
range_backwards = refl

folder_left_empty : new (codes "data/") ≡ err empty_folder
unfolding new
folder_left_empty = refl

-- *a
abbrev ends_in_a : List Token
ends_in_a = many ∷ char b'a' ∷ []

matches_name-Settles_example :
    Settles (Fits ends_in_a (codes "aba")) (matches_name ends_in_a (codes "aba"))
matches_name-Settles_example = matches_name-Settles ends_in_a (codes "aba")

abbrev deep_a : Glob
deep_a = record { text = codes "**/*a"; parts = any_folders ∷ named ends_in_a ∷ [] }

matches-Settles_example :
    Settles (Covers deep_a.parts (split b'/' (codes "x/y/a"))) (matches deep_a (codes "x/y/a"))
matches-Settles_example = matches-Settles deep_a (codes "x/y/a")

new-Ends_example : Ends (GlobIsTidy (codes "/raw/[a-c]*")) (new (codes "/raw/[a-c]*"))
new-Ends_example = new-Ends (codes "/raw/[a-c]*")

odd_path-IsPlain : PathIsPlain (codes "raw/a*b?.csv")
unfolding split find_char is_control
odd_path-IsPlain = record { no_backslash = refl; no_control = refl; no_empty_folder = refl }

matches-escape_example :
    (g : Glob) × (new (escape (codes "raw/a*b?.csv")) ≡ ok g)
    × ((matches g (codes "raw/axby.csv") ≡ some true)
        ↔ (codes "raw/axby.csv" ≡ codes "raw/a*b?.csv"))
matches-escape_example =
    matches-escape (codes "raw/a*b?.csv") (codes "raw/axby.csv") odd_path-IsPlain
