-- ===== src/Batch/Tests.antt =====
-- The solver at concrete orders, and the theorems applied to them.
use mathlib.Core.List.{Perm, Mem}
use ordofi.Base.{
  ℕ, ◌≤◌, ◌<◌, List, [], ◌∷◌, ◌++◌, true, some, ◌≡◌, ◌↔◌, ◌⊎◌, refl, arith, All, length,
}
use ordofi.Base.Int.{pos}
use ordofi.Base.Text.{Text, codes, text_eq, text_ltb, to_lower_case}
use ordofi.Base.Sums.{sum}
use ordofi.Base.Assoc.{get, put}
use ordofi.Batch.Types.{Order, SimToken, as_token, weth}
use ordofi.Batch.Pairs.{PairBatch, all_orders, group_by_pair}
use ordofi.Batch.Pairs.Partition.{
  orders_of, IsStraight, group_by_pair-perm, group_by_pair-IsStraight,
}
use ordofi.Batch.Pricing.{
  Clearing, Residual, owed_to, buy_amount, residual, discovery_clearing, acceptable, limit_failures,
  without, misses_limit,
}
use ordofi.Batch.Pricing.Balance.{IsPair, IsPriced, Nets, residual-Nets, discovery_solvent}
use ordofi.Batch.Pricing.Limits.{IsSettled, limit_failures-without, acceptable_iff}
use ordofi.Batch.Routing.{Allocation, spread, compositions}
use ordofi.Batch.Routing.Splits.{amounts, spread_total, mem-compositions_iff}

abbrev usdg : Text
usdg = codes "0x1111111111111111111111111111111111111111"

abbrev order_of : Text → Text → ℕ → ℕ → Order
order_of s t n m = record {
  owner = codes "0xa";
  receiver = codes "0xa";
  sell_token = s;
  buy_token = t;
  sell_amount = n;
  min_buy_amount = m;
  valid_to = 100;
  nonce = 1;
  app_data = codes "0x";
}

abbrev buys_usdg : Order
buys_usdg = order_of weth usdg 100 190

abbrev sells_usdg : Order
sells_usdg = order_of usdg weth 50 20

abbrev window : List Order
window = buys_usdg ∷ sells_usdg ∷ []

group_by_pair-perm_example : Perm (orders_of (group_by_pair window)) window
group_by_pair-perm_example = group_by_pair-perm window

group_by_pair-IsStraight_example : All IsStraight (group_by_pair window)
group_by_pair-IsStraight_example =
    group_by_pair-IsStraight window ((refl, refl), ((refl, refl), tt))

abbrev weth_usdg : PairBatch
weth_usdg = record { a = weth; b = usdg; sell_a = buys_usdg ∷ []; sell_b = sells_usdg ∷ [] }

window_groups : group_by_pair window ≡ weth_usdg ∷ []
unfolding group_by_pair as_token text_eq text_ltb to_lower_case get put
window_groups = refl

weth_usdg-IsPair : IsPair weth_usdg
unfolding as_token text_eq text_ltb to_lower_case
weth_usdg-IsPair = record {
  straight = record { sorted = refl; side_a = ((refl, refl), tt); side_b = ((refl, refl), tt) };
  distinct = refl;
}

-- One WETH is worth two of the other token.
abbrev two_for_one : Clearing
two_for_one = record { p_a = 2; p_b = 1 }

residual-Nets_example : Nets weth_usdg two_for_one (residual weth_usdg two_for_one)
residual-Nets_example =
    residual-Nets weth_usdg two_for_one weth_usdg-IsPair
      (record { priced_a = omega arith; priced_b = omega arith })

abbrev discovered : Clearing
discovered = record { p_a = 199; p_b = 100 }

window_discovers : discovery_clearing weth_usdg 199 24 ≡ some discovered
unfolding discovery_clearing sum
window_discovers = refl

discovery_solvent_example :
    IsPriced discovered
    × ((owed_to weth_usdg.sell_a weth_usdg discovered ≤ 199)
        ⊎ (owed_to weth_usdg.sell_b weth_usdg discovered ≤ 24))
discovery_solvent_example =
    discovery_solvent weth_usdg 199 24 discovered weth_usdg-IsPair window_discovers

abbrev held : List SimToken
held =
    record { token = weth; delta = pos 25; owed = 25 }
    ∷ record { token = usdg; delta = pos 198; owed = 200 }
    ∷ []

abbrev weth_held : SimToken
weth_held = record { token = weth; delta = pos 25; owed = 25 }

abbrev usdg_held : SimToken
usdg_held = record { token = usdg; delta = pos 198; owed = 200 }

abbrev weth_left : Residual
weth_left = record { a = 75; b = 0 }

limit_failures-without_example :
    let left = without weth_usdg (misses_limit weth_usdg two_for_one) in
    All
      (λ o. buy_amount o weth_usdg two_for_one < o.min_buy_amount)
      (limit_failures weth_usdg two_for_one)
    × All (λ o. o.min_buy_amount ≤ buy_amount o left two_for_one) (all_orders left)
    × Perm (limit_failures weth_usdg two_for_one ++ all_orders left) (all_orders weth_usdg)
limit_failures-without_example = limit_failures-without weth_usdg two_for_one

acceptable_iff_example : (acceptable weth_usdg held 30 ≡ true) ↔ All (IsSettled weth_usdg 30) held
acceptable_iff_example = acceptable_iff weth_usdg held 30

abbrev thirds : Allocation
thirds = record {
  parts =
      record { legs = []; num = 1 }
      ∷ record { legs = []; num = 0 }
      ∷ record { legs = []; num = 2 }
      ∷ [];
  den = 3;
}

thirds-spread : amounts (spread 100 thirds) ≡ 33 ∷ 67 ∷ []
unfolding spread
thirds-spread = refl

spread_total_example :
    (sum (amounts (spread 100 thirds)) ≡ 100) × All (λ x. 0 < x.amount_in) (spread 100 thirds)
unfolding sum
spread_total_example = spread_total 100 thirds (omega arith) (omega arith)

abbrev quarter : List ℕ
quarter = 1 ∷ 3 ∷ []

mem-compositions_iff_example :
    Mem quarter (compositions 2 4) ↔ (length quarter ≡ 2) × (sum quarter ≡ 4)
mem-compositions_iff_example = mem-compositions_iff 1 4 quarter

grid_of_two : compositions 2 1 ≡ (0 ∷ 1 ∷ []) ∷ (1 ∷ 0 ∷ []) ∷ []
unfolding compositions
grid_of_two = refl
