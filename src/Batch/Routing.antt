-- ===== src/Batch/Routing.antt =====
-- How a residual is spread over routes, apps/batcher/src/solver.ts.
--
-- Amounts are numbers, so `amount - used` is 0 where the source would go below 0; the source drops
-- such a part by its test `amt > 0n`, as the model does.
pub mod Splits
use mathlib.Core.List.{map}
use ordofi.Base.{
  ℕ, zero, suc, ◌+◌, ◌-◌, ◌*◌, ◌/◌, List, [], ◌∷◌, ◌++◌, Bool, true, false, Option, none, some, ltb,
  if◌then◌else◌, keep,
}
use ordofi.Batch.Types.{Leg, Interaction}
use ordofi.Batch.Pricing.{Residual}

-- One route, and its share num / den.
pub record Part : Type 0 where
  pub legs : List Leg
  pub num : ℕ

pub record Allocation : Type 0 where
  pub parts : List Part
  pub den : ℕ

-- `single`
unfoldable pub single : List Leg → Allocation
single legs = record { parts = record { legs = legs; num = 1 } ∷ []; den = 1 }

-- `p.num > 0n`
abbrev pub has_share : Part → Bool
has_share p = ltb 0 p.num

-- `if (amt > 0n) xs.push({ legs, amountIn: amt })`
abbrev pub with_part : List Leg → ℕ → List Interaction → List Interaction
with_part legs amt xs = if ltb 0 amt then record { legs = legs; amount_in = amt } ∷ xs else xs

-- The loop over the parts; the last one takes what is left.
spread_from : ℕ → ℕ → ℕ → List Part → List Interaction
spread_from amount den used [] = []
spread_from amount den used (p ∷ []) = with_part p.legs (amount - used) []
spread_from amount den used (p ∷ q ∷ ps) =
    let amt = amount * p.num / den in
    let rest = spread_from amount den (used + amt) (q ∷ ps) in with_part p.legs amt rest

-- `spread`
unfoldable pub spread : ℕ → Allocation → List Interaction
unfolding spread_from keep
spread amount alloc = spread_from amount alloc.den 0 (keep has_share alloc.parts)

-- `if (amount > 0n && route) xs.push(...spread(amount, route))`
route_part : ℕ → Option Allocation → List Interaction
unfolding spread
route_part amount none = []
route_part amount (some alloc) = if ltb 0 amount then spread amount alloc else []

-- `interactionsFor`
unfoldable pub interactions_for :
    Residual → Option Allocation → Option Allocation → List Interaction
unfolding route_part
interactions_for res a_to_b b_to_a = route_part res.a a_to_b ++ route_part res.b b_to_a

-- Every list of the remaining rounds behind `first`, for `first` from the counter on: the loop
-- `for (let first = 0n; first <= den; first++)`, `rest` being the recursive call.
first_from : (ℕ → List (List ℕ)) → ℕ → ℕ → List (List ℕ)
first_from rest first zero = map (λ r. first ∷ r) (rest zero)
first_from rest first (suc left) =
    map (λ r. first ∷ r) (rest (suc left)) ++ first_from rest (suc first) left

-- `compositions(n, den)` for n = k + 1 routes. (For no route the source does not return; its callers
-- ask for one or more.)
compositions_from : ℕ → ℕ → List (List ℕ)
unfolding first_from
compositions_from zero den = (den ∷ []) ∷ []
compositions_from (suc k) den = first_from (compositions_from k) 0 den

unfoldable pub compositions : ℕ → ℕ → List (List ℕ)
unfolding compositions_from
compositions zero den = []
compositions (suc k) den = compositions_from k den
