-- ===== src/Gateway/Budget/Tests.antt =====
-- A budget at its floor, and the theorem applied to it.
use ordofi.Base.{[], ◌∷◌, true, ◌≡◌, refl}
use ordofi.Gateway.Budget.{
  HedgeBudget, current, is_current, drop_old, over_share, try_hedge, reads_in, hedges_in,
}
use ordofi.Gateway.Budget.Share.{IsShared, try_hedge_share}

-- A tenth of the reads, from a floor of 1: 40 reads and 2 hedges in this second, an old bucket before.
abbrev budget : HedgeBudget
budget = record {
  ratio_num = 1;
  ratio_den = 10;
  floor_per_window = 1;
  window_ms = 10000;
  buckets =
      record { at = 2000; reads = 9; hedges = 5 }
      ∷ record { at = 20000; reads = 40; hedges = 2 }
      ∷ [];
}

budget_grants : (try_hedge 21500 budget).1 ≡ true
unfolding try_hedge current is_current drop_old over_share reads_in hedges_in
budget_grants = refl

try_hedge_share_example : IsShared budget (current 21500 budget).buckets (try_hedge 21500 budget)
try_hedge_share_example = try_hedge_share 21500 budget
