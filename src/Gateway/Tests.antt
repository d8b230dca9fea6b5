-- ===== src/Gateway/Tests.antt =====
-- Runs of the gateway's fast path and log walk, and the theorems applied to them.
use ordofi.Base.{
  ℕ, ◌+◌, ◌≤◌, ◌≢◌, List, [], ◌∷◌, true, Bool-cases, ltb, some, Option, ◌≡◌, refl, ◌⊎◌, inl, inr,
  if◌then◌else◌, if_elim, arith, length, ◌-◌,
}
use ordofi.Base.Text.{Text, codes, text_eq, includes, to_lower_case}
use ordofi.Base.Assoc.{get, put}
use ordofi.Gateway.Inflight.{
  InflightCap, Event, request, timer, finish, inflight, queue, run, idle, held,
}
use ordofi.Gateway.Inflight.Bounds.{run-IsBalanced}
use ordofi.Gateway.Inflight.Release.{line_up, served, served-line_up}
use ordofi.Gateway.Race
use ordofi.Gateway.Race.{Answer, value, failure, primary_settles, hedge_settles, start, step}
use ordofi.Gateway.Race.Answers.{Explains, race-IsExplained}
use ordofi.Gateway.Race.Settled.{run-settled}
use ordofi.Gateway.Logs
use ordofi.Gateway.Logs.{
  answered, refused, is_range_refusal, complete, out_of_fuel, over_range, walk, reply,
}
use ordofi.Gateway.Logs.Complete.{logs_from, logs_between, IsExact, over_range-exact}
use ordofi.Gateway.Logs.Budget.{walk_bounds}
use ordofi.Gateway.Logs.Served.{Serves, over_range-served}

-- Three requests of one client and one of another at a cap of 2; then one is done, and one times out.
abbrev rush : List Event
rush =
    request (codes "a") 1
    ∷ request (codes "a") 2
    ∷ request (codes "a") 3
    ∷ request (codes "b") 4
    ∷ request (codes "a") 5
    ∷ timer (codes "a") 5
    ∷ finish 1
    ∷ []

rush_slots : (run (idle 2) rush).slots ≡ (3, codes "a") ∷ (4, codes "b") ∷ (2, codes "a") ∷ []
unfolding run idle get put text_eq
rush_slots = refl

run-IsBalanced_example :
    (held (codes "a") (run (idle 2) rush).slots ≤ 2)
    × (inflight (run (idle 2) rush).cap (codes "a") ≡ held (codes "a") (run (idle 2) rush).slots)
    × ((queue (run (idle 2) rush).cap (codes "a") ≡ [])
        ⊎ (held (codes "a") (run (idle 2) rush).slots ≡ 2))
run-IsBalanced_example = run-IsBalanced 2 rush (codes "a") (ground arith)

abbrev crowded : InflightCap
crowded = record { max = 1; counts = (codes "a", 1) ∷ []; waiters = [] }

served-line_up_example :
    served (codes "a") 3 (line_up (codes "a") (7 ∷ 8 ∷ 9 ∷ []) crowded)
    ≡ some 7 ∷ some 8 ∷ some 9 ∷ []
unfolding get
served-line_up_example =
    served-line_up crowded (codes "a") (7 ∷ 8 ∷ 9 ∷ []) (omega arith)
      (unfold inflight get text_eq in omega arith) (unfold queue in refl)

-- A primary that fails behind a hedge that answers.
abbrev slow_race : List (Race.Event ℕ)
slow_race = Race.timer true ∷ primary_settles (failure 3) ∷ hedge_settles (value 42) ∷ []

slow_race_answer : (Race.run start slow_race).settled ≡ some (value 42)
unfolding Race.run step start
slow_race_answer = refl

race-IsExplained_example :
    let r = Race.run start slow_race in Explains r.primary r.hedge r.hedge_started r.settled
race-IsExplained_example = race-IsExplained slow_race

run-settled_example :
    ((Race.run (Race.run start slow_race) slow_race).settled ≡ some (value 42))
    × ((Race.run (Race.run start slow_race) slow_race).hedge_started
        ≡ (Race.run start slow_race).hedge_started)
run-settled_example = run-settled (Race.run start slow_race) slow_race (value 42) slow_race_answer

-- A chain with one log in each block, and an upstream that refuses more than three blocks.
abbrev chain : ℕ → List ℕ
chain n = n ∷ []

abbrev wide_error : Text
wide_error = codes "Block range limit exceeded."

abbrev narrow_upstream : ℕ → ℕ → ℕ → Logs.Answer (Option (List ℕ))
narrow_upstream n lo hi =
    if ltb (lo + 2) hi then refused wide_error else answered (some (logs_between chain lo hi))

abbrev wide_answer : Logs.Reply ℕ
wide_answer = over_range narrow_upstream 40 150000 (answered (some (10, 17)))

wide_answer_test : wide_answer ≡ reply (some (10 ∷ 11 ∷ 12 ∷ 13 ∷ 14 ∷ 15 ∷ 16 ∷ 17 ∷ []))
unfolding over_range logs_from is_range_refusal includes to_lower_case
wide_answer_test = refl

narrow_upstream-IsExact : IsExact narrow_upstream chain
narrow_upstream-IsExact n lo hi logs =
    if_elim
      (λ (a : Logs.Answer (Option (List ℕ))).
        a ≡ answered logs → logs ≡ some (logs_between chain lo hi))
      (ltb (lo + 2) hi) (λ _ e. absurd cc) (λ _ e. cc)

narrow_upstream-Serves : Serves narrow_upstream chain
unfolding is_range_refusal includes to_lower_case
narrow_upstream-Serves n lo hi = elim (Bool-cases (ltb (lo + 2) hi)) [
  | inl e ↦ inr (ground arith, (wide_error, rw e refl, refl))
  | inr e ↦ inl (rw e refl)
]

over_range-exact_example :
    some (10 ∷ 11 ∷ 12 ∷ 13 ∷ 14 ∷ 15 ∷ 16 ∷ 17 ∷ []) ≡ some (logs_between chain 10 17)
over_range-exact_example =
    over_range-exact narrow_upstream 40 150000 chain narrow_upstream-IsExact 10 17 _
      wide_answer_test

walk_bounds_example :
    let w = walk narrow_upstream 40 150000 (17 - 10 + 1) 10 17 1 [] in
    (w.calls ≤ 40) × (length w.out ≤ 150000) × (w.status ≢ out_of_fuel)
walk_bounds_example = walk_bounds narrow_upstream 40 150000 10 17 (ground arith) (ground arith)

over_range-served_example : wide_answer ≡ reply (some (logs_between chain 10 17))
over_range-served_example =
    over_range-served narrow_upstream 40 150000 chain narrow_upstream-Serves 10 17 (ground arith)
      (ground arith) (unfold logs_from in ground arith)
