-- ===== src/Batch/Solve/Rounds.antt =====
-- What each round of `solve` in apps/batcher/src/main.ts keeps.
use mathlib.Core.List.{Perm, append_assoc}
use mathlib.Core.List.Perm
use ordofi.Base.{
  ℕ, List, ◌++◌, not, ◌&&◌, ◌||◌, Option, none, some, ltb, ◌==◌, if◌then◌else◌, if_elim, ◌≡◌, refl,
  ◌⊎◌, inl, inr,
}
use ordofi.Batch.Types.{Order, Price, SimToken, Interaction}
use ordofi.Batch.Pairs.{PairBatch, all_orders}
use ordofi.Batch.Pricing.{
  Clearing, divides, prices, residual, next_clearing, acceptable, misses_limit, limit_failures,
  without,
}
use ordofi.Batch.Pricing.Limits.{limit_failures-without}
use ordofi.Batch.Routing.{interactions_for}
use ordofi.Batch.Solve.{
  BestRoute, SolveError, Progress, Flow, is_none, no_orders, alloc_of, rel, one_sided, judge,
  on_simulation, try_price, solve_round,
}
use ordofi.Batch.Solve.Flow.{continues, breaks, fails, throws}

-- The orders that were dropped and those that are left are the orders of the pair.
abbrev pub Splits : PairBatch → List Order → List Order → Type 0
Splits initial dropped left = Perm (dropped ++ left) (all_orders initial)

-- A round that drops what fails keeps the orders together.
pub dropping-Splits :
    (initial pb : PairBatch) (c : Clearing) (dropped : List Order)
    → Splits initial dropped (all_orders pb)
    → Splits initial (dropped ++ limit_failures pb c) (all_orders (without pb (misses_limit pb c)))
dropping-Splits initial pb c dropped h =
    let failing = limit_failures pb c in
    let left = all_orders (without pb (misses_limit pb c)) in
    rw append_assoc (Perm.trans (Perm.append (Perm.refl dropped) (limit_failures-without pb c).2) h)

module _ (simulate : ℕ → List Order → List Price → List Interaction → Option (List SimToken))
    (ab ba : Option BestRoute) (fee_bps max_fee_bps : ℕ) (initial : PairBatch) where
  -- A simulation of this batch with these interactions, at a price that is the one given or that the
  -- given one was moved from.
  pub record IsQuoted (batch : PairBatch) (c : Clearing) (xs : List Interaction)
      (sim : List SimToken) : Type 0 where
    round : ℕ
    quote : Clearing
    sim_eq : simulate round (all_orders batch) (prices batch quote) xs ≡ some sim
    route_eq : xs ≡ interactions_for (residual batch quote) (alloc_of ab) (alloc_of ba)
    price_eq :
        (c ≡ quote)
        ⊎ (c
            ≡ next_clearing batch quote sim
                (if one_sided batch then 0 else fee_bps)
                (residual batch quote))

  unfoldable pub QuoteOf : PairBatch → Clearing → List Interaction → Option (List SimToken) → Type 0
  QuoteOf batch c xs none = Unit
  QuoteOf batch c xs (some sim) = IsQuoted batch c xs sim

  pub record IsUnderWay (p : Progress) : Type 0 where
    pub orders_split : Splits initial p.dropped (all_orders p.batch)
    pub quoted : QuoteOf p.batch p.clearing p.interactions p.sim

  unfoldable pub FlowIsSound : Flow → Type 0
  FlowIsSound (continues p) = IsUnderWay p
  FlowIsSound (breaks p) = IsUnderWay p
  FlowIsSound (fails e dropped) = (left : List Order) × Splits initial dropped left
  FlowIsSound throws = Unit

  fails-IsSound :
      (e : SolveError) (dropped left : List Order)
      → Splits initial dropped left
      → FlowIsSound (fails e dropped)
  unfolding FlowIsSound
  fails-IsSound e dropped left split = (left, split)

  breaks-IsSound : (p : Progress) → IsUnderWay p → FlowIsSound (breaks p)
  unfolding FlowIsSound
  breaks-IsSound p h = h

  continues-IsSound : (p : Progress) → IsUnderWay p → FlowIsSound (continues p)
  unfolding FlowIsSound
  continues-IsSound p h = h

  throws-IsSound : FlowIsSound throws
  unfolding FlowIsSound
  throws-IsSound = tt

  quoted-IsUnderWay :
      (batch : PairBatch) (c quote : Clearing) (xs : List Interaction) (sim : List SimToken)
      (dropped : List Order)
      → Splits initial dropped (all_orders batch)
      → IsQuoted batch c xs sim
      → IsUnderWay (record {
        batch = batch;
        clearing = c;
        interactions = xs;
        sim = some sim;
        dropped = dropped;
      })
  unfolding QuoteOf
  quoted-IsUnderWay batch c quote xs sim dropped split q = record {
    orders_split = split;
    quoted = q;
  }

  judge-IsSound :
      (batch : PairBatch) (quote : Clearing) (xs : List Interaction) (sim : List SimToken)
      (dropped : List Order) (round : ℕ)
      → Splits initial dropped (all_orders batch)
      → xs ≡ interactions_for (residual batch quote) (alloc_of ab) (alloc_of ba)
      → simulate round (all_orders batch) (prices batch quote) xs ≡ some sim
      → FlowIsSound (
          judge simulate ab ba fee_bps max_fee_bps batch quote
            (residual batch quote)
            xs
            sim
            dropped)
  unfolding judge
  judge-IsSound batch quote xs sim dropped round split route answer =
      let next =
        next_clearing batch quote sim (if one_sided batch then 0 else fee_bps)
          (residual batch quote) in
      let at : (c : Clearing) → ((c ≡ quote) ⊎ (c ≡ next)) → _ = λ c e.
        quoted-IsUnderWay batch c quote xs sim dropped split (record {
          round = round;
          quote = quote;
          sim_eq = answer;
          route_eq = route;
          price_eq = e;
        }) in
      let moved = not (next.p_a == quote.p_a) || not (next.p_b == quote.p_b) in
      let ok = acceptable batch sim max_fee_bps in
      if_elim FlowIsSound (ok && ltb (rel next.p_a quote.p_a) 10 && ltb (rel next.p_b quote.p_b) 10)
        (λ _. breaks-IsSound _ (at quote (inl refl)))
        (λ _.
          if_elim FlowIsSound (not moved && not ok)
            (λ _. fails-IsSound _ _ (all_orders batch) split)
            (λ _. continues-IsSound _ (at next (inr refl))))

  on_simulation-IsSound :
      (batch : PairBatch) (quote : Clearing) (xs : List Interaction)
      (answer : Option (List SimToken)) (dropped : List Order) (round : ℕ)
      → Splits initial dropped (all_orders batch)
      → xs ≡ interactions_for (residual batch quote) (alloc_of ab) (alloc_of ba)
      → simulate round (all_orders batch) (prices batch quote) xs ≡ answer
      → FlowIsSound (
          on_simulation simulate ab ba fee_bps max_fee_bps batch quote
            (residual batch quote)
            xs
            answer
            dropped)
  unfolding on_simulation FlowIsSound
  on_simulation-IsSound batch quote xs none dropped round split route e = (all_orders batch, split)
  on_simulation-IsSound batch quote xs (some sim) dropped round split route e =
      judge-IsSound batch quote xs sim dropped round split route e

  try_price-IsSound :
      (round : ℕ) (batch : PairBatch) (c : Clearing) (dropped : List Order)
      → Splits initial dropped (all_orders batch)
      → FlowIsSound (try_price simulate ab ba fee_bps max_fee_bps round batch c dropped)
  unfolding try_price
  try_price-IsSound round batch c dropped split =
      let res = residual batch c in
      if_elim FlowIsSound ((ltb 0 res.a && is_none ab) || (ltb 0 res.b && is_none ba))
        (λ _. fails-IsSound _ _ (all_orders batch) split)
        (λ _. on_simulation-IsSound batch c _ _ dropped round split refl refl)

  pub solve_round-IsSound :
      (round : ℕ) (p : Progress)
      → Splits initial p.dropped (all_orders p.batch)
      → FlowIsSound (solve_round simulate ab ba fee_bps max_fee_bps round p)
  unfolding solve_round
  solve_round-IsSound round p split =
      let left = without p.batch (misses_limit p.batch p.clearing) in
      let split_left = dropping-Splits initial p.batch p.clearing p.dropped split in
      if_elim FlowIsSound (not (divides p.batch p.clearing)) (λ _. throws-IsSound)
        (λ _.
          if_elim FlowIsSound (no_orders (limit_failures p.batch p.clearing))
            (λ _. try_price-IsSound round p.batch p.clearing p.dropped split)
            (λ _.
              if_elim FlowIsSound (no_orders (all_orders left))
                (λ _. fails-IsSound _ _ (all_orders left) split_left)
                (λ _. try_price-IsSound round left p.clearing _ split_left)))
