-- ===== src/Batch/Solve.antt =====
-- `solve` of apps/batcher/src/main.ts: the rounds that find one clearing price for a pair.
--
-- The two best routes are arguments, and so is the contract's simulation, which may answer anew in each
-- round. `thrown` is an exception: a `bigint` division by a price of zero.
pub mod Rounds
pub mod Sound
use ordofi.Base.{
  ℕ, zero, suc, ◌+◌, ◌-◌, ◌*◌, ◌/◌, List, [], ◌∷◌, ◌++◌, Bool, true, false, not, ◌&&◌, ◌||◌, Option,
  none, some, ltb, ◌==◌, if◌then◌else◌,
}
use ordofi.Batch.Types.{Order, Price, SimToken, Interaction}
use ordofi.Batch.Pairs.{PairBatch, all_orders}
use ordofi.Batch.Pricing.{
  Clearing, Residual, divides, prices, residual, next_clearing, acceptable, misses_limit,
  limit_failures, without, discovery_clearing,
}
use ordofi.Batch.Routing.{Allocation, interactions_for}

-- What `bestRoute` found for one side.
pub record BestRoute : Type 0 where
  pub alloc : Allocation
  pub out : ℕ
  pub single_out : ℕ

pub data SolveError : Type 0 where
  no_route_returns no_limit_met residual_without_route simulation_failed : SolveError
  unacceptable no_simulation not_converged limits_moved : SolveError

pub record Solved : Type 0 where
  pub batch : PairBatch
  pub clearing : Clearing
  pub interactions : List Interaction
  pub sim : List SimToken
  pub dropped : List Order
  pub alone_b : ℕ
  pub alone_a : ℕ

pub data SolveResult : Type 0 where
  solved : Solved → SolveResult
  error : SolveError → List Order → SolveResult
  thrown : SolveResult

-- The variables of the loop.
pub record Progress : Type 0 where
  pub batch : PairBatch
  pub clearing : Clearing
  pub interactions : List Interaction
  pub sim : Option (List SimToken)
  pub dropped : List Order

-- How a round goes on: to the next one, out of the loop, or out of the function.
pub data Flow : Type 0 where
  continues : Progress → Flow
  breaks : Progress → Flow
  fails : SolveError → List Order → Flow
  throws : Flow

abbrev pub is_none {ℓ} : {A : Type ℓ} → Option A → Bool
is_none none = true
is_none (some a) = false

abbrev pub no_orders : List Order → Bool
no_orders [] = true
no_orders (o ∷ os) = false

abbrev pub alloc_of : Option BestRoute → Option Allocation
alloc_of none = none
alloc_of (some r) = some r.alloc

abbrev pub out_of : Option BestRoute → ℕ
out_of none = 0
out_of (some r) = r.out

abbrev pub single_out_of : Option BestRoute → ℕ
single_out_of none = 0
single_out_of (some r) = r.single_out

-- `rel(x, y)`: the difference in hundred-thousandths of `y`, or of 1 for a `y` of 0.
unfoldable pub rel : ℕ → ℕ → ℕ
rel x y = if x == y then 0 else (x - y + (y - x)) * 100000 / (if y == 0 then 1 else y)

abbrev pub one_sided : PairBatch → Bool
one_sided pb = no_orders pb.sell_a || no_orders pb.sell_b

module _ (simulate : ℕ → List Order → List Price → List Interaction → Option (List SimToken))
    (ab ba : Option BestRoute) (fee_bps max_fee_bps : ℕ) where
  -- The last part of a round: the next price, and whether this one is good enough.
  unfoldable pub judge :
      PairBatch → Clearing → Residual → List Interaction → List SimToken → List Order → Flow
  unfolding rel
  judge batch c res interactions sim dropped =
      let next = next_clearing batch c sim (if one_sided batch then 0 else fee_bps) res in
      let moved = not (next.p_a == c.p_a) || not (next.p_b == c.p_b) in
      let ok = acceptable batch sim max_fee_bps in
      if ok && ltb (rel next.p_a c.p_a) 10 && ltb (rel next.p_b c.p_b) 10
      then breaks (record {
        batch = batch;
        clearing = c;
        interactions = interactions;
        sim = some sim;
        dropped = dropped;
      })
      else if not moved && not ok
      then fails unacceptable dropped
      else continues (record {
        batch = batch;
        clearing = next;
        interactions = interactions;
        sim = some sim;
        dropped = dropped;
      })

  on_simulation :
      PairBatch
      → Clearing
      → Residual
      → List Interaction
      → Option (List SimToken)
      → List Order
      → Flow
  unfolding judge
  on_simulation batch c res interactions none dropped = fails simulation_failed dropped
  on_simulation batch c res interactions (some sim) dropped =
      judge batch c res interactions sim dropped

  -- The middle part: the residual of the orders that are left, and its simulation.
  unfoldable pub try_price : ℕ → PairBatch → Clearing → List Order → Flow
  unfolding on_simulation
  try_price round batch c dropped =
      let res = residual batch c in
      let interactions = interactions_for res (alloc_of ab) (alloc_of ba) in
      if (ltb 0 res.a && is_none ab) || (ltb 0 res.b && is_none ba)
      then fails residual_without_route dropped
      else on_simulation batch c res interactions
          (simulate round (all_orders batch) (prices batch c) interactions) dropped

  -- One round: orders whose limit is not met are dropped first.
  unfoldable pub solve_round : ℕ → Progress → Flow
  unfolding try_price
  solve_round round p =
      let failing = limit_failures p.batch p.clearing in
      let left = without p.batch (misses_limit p.batch p.clearing) in
      if not (divides p.batch p.clearing)
      then throws
      else if no_orders failing
      then try_price round p.batch p.clearing p.dropped
      else if no_orders (all_orders left)
      then fails no_limit_met (p.dropped ++ failing)
      else try_price round left p.clearing (p.dropped ++ failing)

  -- The checks behind the loop.
  finish_with : Progress → Option (List SimToken) → SolveResult
  finish_with p none = error no_simulation p.dropped
  finish_with p (some sim) =
      let failing = limit_failures p.batch p.clearing in
      if not (acceptable p.batch sim max_fee_bps)
      then error not_converged p.dropped
      else if not (divides p.batch p.clearing)
      then thrown
      else if not (no_orders failing)
      then error limits_moved (p.dropped ++ failing)
      else solved (record {
        batch = p.batch;
        clearing = p.clearing;
        interactions = p.interactions;
        sim = sim;
        dropped = p.dropped;
        alone_b = single_out_of ab;
        alone_a = single_out_of ba;
      })

  unfoldable pub finish : Progress → SolveResult
  unfolding finish_with
  finish p = finish_with p p.sim

  on_flow : (Progress → SolveResult) → Flow → SolveResult
  unfolding finish
  on_flow next (continues p) = next p
  on_flow next (breaks p) = finish p
  on_flow next (fails e dropped) = error e dropped
  on_flow next throws = thrown

  -- The loop, for the rounds that are left.
  unfoldable pub solve_rounds : ℕ → Progress → SolveResult
  unfolding on_flow solve_round
  solve_rounds zero p = finish p
  solve_rounds (suc left) p = on_flow (solve_rounds left) (solve_round (6 - suc left) p)

  solve_from : PairBatch → Option Clearing → SolveResult
  unfolding solve_rounds
  solve_from batch none = error no_route_returns []
  solve_from batch (some c) =
      solve_rounds 6
        (record { batch = batch; clearing = c; interactions = []; sim = none; dropped = [] })

  -- `solve`
  unfoldable pub solve : PairBatch → SolveResult
  unfolding solve_from
  solve initial = solve_from initial (discovery_clearing initial (out_of ab) (out_of ba))
