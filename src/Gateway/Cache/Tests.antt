-- ===== src/Gateway/Cache/Tests.antt =====
-- A cache of two entries, and the theorems applied to it.
use ordofi.Base.{
  ℕ, ◌≤◌, ◌+◌, List, [], ◌∷◌, none, some, ◌≡◌, arith, length, leb, ◌==◌, if◌then◌else◌,
}
use ordofi.Base.Text.{codes}
use ordofi.Gateway.Cache.{Event, asks, settles, empty_cache, run, get_value, set_value}
use ordofi.Gateway.Cache.Bounded.{run_size, get_value-set_value}

abbrev questions : List (Event ℕ)
questions =
    asks 0 (codes "a")
    ∷ settles 5 (codes "a") (some 7) (λ v. 100)
    ∷ settles 6 (codes "b") (some 8) (λ v. 100)
    ∷ settles 7 (codes "c") (some 9) (λ v. 100)
    ∷ asks 8 (codes "b")
    ∷ []

run_size_example : length (run (empty_cache 2) questions).entries ≤ 2
run_size_example = run_size 2 questions (ground arith)

get_value-set_value_example :
    (get_value 50 (codes "a") (set_value 10 (codes "a") 7 100 (run (empty_cache 2) questions))).1
    ≡ (if 100 == 0
        then (get_value 50 (codes "a") (run (empty_cache 2) questions)).1
        else if leb (10 + 100) 50
        then none
        else some 7)
get_value-set_value_example =
    get_value-set_value 10 50 (codes "a") 7 100 (run (empty_cache 2) questions)
