-- ===== src/Batch/Solve/Sound.antt =====
-- What the result of `solve` in apps/batcher/src/main.ts stands for.
use mathlib.Core.List.Perm
use ordofi.Base.{
  ℕ, zero, suc, ◌-◌, List, [], ◌∷◌, true, not, Option, none, some, if_elim, ◌≡◌, refl, arith,
}
use ordofi.Batch.Types.{Order, Price, SimToken, Interaction}
use ordofi.Batch.Pairs.{PairBatch, all_orders}
use ordofi.Batch.Pricing.{
  Clearing, divides, acceptable, misses_limit, limit_failures, without, discovery_clearing,
}
use ordofi.Batch.Solve.{
  BestRoute, SolveError, Solved, SolveResult, Progress, Flow, no_orders, out_of, finish_with,
  finish, on_flow, solve_rounds, solve_from, solve,
}
use ordofi.Batch.Solve.SolveResult.{solved, error, thrown}
use ordofi.Batch.Solve.Flow.{continues, breaks, fails, throws}
use ordofi.Batch.Solve.Rounds.{
  Splits, dropping-Splits, IsQuoted, QuoteOf, IsUnderWay, FlowIsSound, solve_round-IsSound,
}

no_orders-nil : (os : List Order) → no_orders os ≡ true → os ≡ []
no_orders-nil [] h = refl
no_orders-nil (o ∷ os) h = absurd cc

module _ (simulate : ℕ → List Order → List Price → List Interaction → Option (List SimToken))
    (ab ba : Option BestRoute) (fee_bps max_fee_bps : ℕ) (initial : PairBatch) where
  -- A price that is returned was accepted and misses no limit. An error or a price leaves each
  -- order either dropped or not.
  pub record IsSound (s : Solved) : Type 0 where
    pub accepted : acceptable s.batch s.sim max_fee_bps ≡ true
    pub limits_met : limit_failures s.batch s.clearing ≡ []
    pub orders_split : Splits initial s.dropped (all_orders s.batch)
    pub quoted :
        IsQuoted simulate ab ba fee_bps max_fee_bps initial s.batch s.clearing s.interactions s.sim

  unfoldable pub ResultIsSound : SolveResult → Type 0
  ResultIsSound (solved s) = IsSound s
  ResultIsSound (error e dropped) = (left : List Order) × Splits initial dropped left
  ResultIsSound thrown = Unit

  error-IsSound :
      (e : SolveError) (dropped left : List Order)
      → Splits initial dropped left
      → ResultIsSound (error e dropped)
  unfolding ResultIsSound
  error-IsSound e dropped left split = (left, split)

  solved-IsSound : (s : Solved) → IsSound s → ResultIsSound (solved s)
  unfolding ResultIsSound
  solved-IsSound s h = h

  thrown-IsSound : ResultIsSound thrown
  unfolding ResultIsSound
  thrown-IsSound = tt

  finish_with-IsSound :
      (p : Progress) (sim : Option (List SimToken))
      → Splits initial p.dropped (all_orders p.batch)
      → QuoteOf simulate ab ba fee_bps max_fee_bps initial p.batch p.clearing p.interactions sim
      → ResultIsSound (finish_with simulate ab ba fee_bps max_fee_bps p sim)
  unfolding finish_with QuoteOf
  finish_with-IsSound p none split q = error-IsSound _ _ (all_orders p.batch) split
  finish_with-IsSound p (some sim) split q =
      let failing = limit_failures p.batch p.clearing in
      let left = all_orders (without p.batch (misses_limit p.batch p.clearing)) in
      if_elim ResultIsSound (not (acceptable p.batch sim max_fee_bps))
        (λ _. error-IsSound _ _ (all_orders p.batch) split)
        (λ ok.
          if_elim ResultIsSound (not (divides p.batch p.clearing)) (λ _. thrown-IsSound)
            (λ _.
              if_elim ResultIsSound (not (no_orders failing))
                (λ _.
                  error-IsSound _ _ left
                    (dropping-Splits initial p.batch p.clearing p.dropped split))
                (λ met. solved-IsSound _ (record {
                  accepted = ground arith;
                  limits_met = no_orders-nil failing (ground arith);
                  orders_split = split;
                  quoted = q;
                }))))

  on_flow-IsSound :
      (next : Progress → SolveResult) (flow : Flow)
      → ((p : Progress)
          → IsUnderWay simulate ab ba fee_bps max_fee_bps initial p
          → ResultIsSound (next p))
      → FlowIsSound simulate ab ba fee_bps max_fee_bps initial flow
      → ResultIsSound (on_flow simulate ab ba fee_bps max_fee_bps next flow)
  unfolding on_flow finish FlowIsSound
  on_flow-IsSound next (continues p) go h = go p h
  on_flow-IsSound next (breaks p) go h = finish_with-IsSound p p.sim h.orders_split h.quoted
  on_flow-IsSound next (fails e dropped) go h = error-IsSound e dropped h.0 h.1
  on_flow-IsSound next throws go h = thrown-IsSound

  solve_rounds-IsSound :
      (left : ℕ) (p : Progress)
      → IsUnderWay simulate ab ba fee_bps max_fee_bps initial p
      → ResultIsSound (solve_rounds simulate ab ba fee_bps max_fee_bps left p)
  unfolding solve_rounds finish
  solve_rounds-IsSound zero p h = finish_with-IsSound p p.sim h.orders_split h.quoted
  solve_rounds-IsSound (suc left) p h = on_flow-IsSound _ _ (solve_rounds-IsSound left) (
      solve_round-IsSound simulate ab ba fee_bps max_fee_bps initial (6 - suc left) p
        h.orders_split)

  solve_from-IsSound :
      (c : Option Clearing)
      → ResultIsSound (solve_from simulate ab ba fee_bps max_fee_bps initial c)
  unfolding solve_from QuoteOf
  solve_from-IsSound none = error-IsSound _ _ (all_orders initial) (Perm.refl (all_orders initial))
  solve_from-IsSound (some c) =
      solve_rounds-IsSound 6
        (record { batch = initial; clearing = c; interactions = []; sim = none; dropped = [] })
        (record { orders_split = Perm.refl (all_orders initial); quoted = tt })

  -- Whatever the contract's simulation answers in each round: when a pair is solved, the simulation
  -- returned was run on just the batch and the interactions returned and is acceptable, at the
  -- clearing price or at the price that it was moved from; every order left gets its limit at the
  -- clearing price; and the orders left and those dropped are the orders of the pair. After an error
  -- too, what was dropped is some of the orders of the pair, each once. Of an exception nothing is said.
  pub solve-IsSound : ResultIsSound (solve simulate ab ba fee_bps max_fee_bps initial)
  unfolding solve
  solve-IsSound = solve_from-IsSound (discovery_clearing initial (out_of ab) (out_of ba))
