-- ===== src/Watch/Tests.antt =====
-- A block with one arbitrage across two pools, and the theorem applied to it.
use ordofi.Base.{[], ◌∷◌, true, none, some, All, ◌≡◌, refl}
use ordofi.Base.Int.{pos}
use ordofi.Base.Text.{Text, codes}
use ordofi.Watch.Swaps.{Log, Receipt, SwapObservation, ArbObservation, transfer_topic, weth}
use ordofi.Watch.Detect.{is_quote_token, analyze_block}
use ordofi.Watch.Swaps.Quantity.{hex}
use ordofi.Watch.Swaps.SwapKind.{univ3}
use ordofi.Watch.Detect.Arbs.{IsArbAmong, analyze_block-IsArb}

abbrev swap : Text → Log
swap pool = record {
  address = pool;
  topics = codes "0xc42079f94a6350d7e6235f29174924f928cc2ac818eb64fed8004e115fbcca67" ∷ [];
  log_data = codes "0x";
}

abbrev transfer : Text → Text → Text → Text → Log
transfer token from to amount = record {
  address = token;
  topics = transfer_topic ∷ from ∷ to ∷ [];
  log_data = amount;
}

-- The sender pays 100 of WETH into one pool and takes 110 out of another.
abbrev round_trip : Receipt
round_trip = record {
  transaction_hash = codes "0x1";
  transaction_index = hex (codes "0x2");
  from = codes "0x5555555555555555555555555555555555555555";
  to = none;
  gas_used = codes "0x5208";
  effective_gas_price = some (codes "0x2");
  status = hex (codes "0x1");
  logs =
      transfer (codes "0x0bd7d308f8e1639fab988df18a8011f41eacad73")
        (codes "0x0000000000000000000000005555555555555555555555555555555555555555")
        (codes "0x000000000000000000000000aaaaaaaaaaaaaaaaaaaaaaaaaaaaaaaaaaaaaaaa") (codes "0x64")
      ∷ swap (codes "0xaaaaaaaaaaaaaaaaaaaaaaaaaaaaaaaaaaaaaaaa")
      ∷ transfer (codes "0x7777777777777777777777777777777777777777")
          (codes "0x000000000000000000000000aaaaaaaaaaaaaaaaaaaaaaaaaaaaaaaaaaaaaaaa")
          (codes "0x0000000000000000000000005555555555555555555555555555555555555555")
          (codes "0x3e8")
      ∷ transfer (codes "0x7777777777777777777777777777777777777777")
          (codes "0x0000000000000000000000005555555555555555555555555555555555555555")
          (codes "0x000000000000000000000000bbbbbbbbbbbbbbbbbbbbbbbbbbbbbbbbbbbbbbbb")
          (codes "0x3e8")
      ∷ swap (codes "0xbbbbbbbbbbbbbbbbbbbbbbbbbbbbbbbbbbbbbbbb")
      ∷ transfer (codes "0x0bd7d308f8e1639fab988df18a8011f41eacad73")
          (codes "0x000000000000000000000000bbbbbbbbbbbbbbbbbbbbbbbbbbbbbbbbbbbbbbbb")
          (codes "0x0000000000000000000000005555555555555555555555555555555555555555")
          (codes "0x6e")
      ∷ [];
}

abbrev seen : Text → SwapObservation
seen pool = record { tx_hash = codes "0x1"; tx_index = some 2; pool = pool; kind = univ3 }

abbrev arb : ArbObservation
arb = record {
  tx_hash = codes "0x1";
  tx_index = some 2;
  sender = codes "0x5555555555555555555555555555555555555555";
  pools_touched =
      codes "0xaaaaaaaaaaaaaaaaaaaaaaaaaaaaaaaaaaaaaaaa"
      ∷ codes "0xbbbbbbbbbbbbbbbbbbbbbbbbbbbbbbbbbbbbbbbb"
      ∷ [];
  net_flows = (weth, pos 10) ∷ (codes "0x7777777777777777777777777777777777777777", pos 0) ∷ [];
  profit_token = weth;
  profit_wei = pos 10;
  profit_is_quote = true;
  gas_paid_wei = pos 42000;
}

round_trip-found :
    analyze_block [] (round_trip ∷ [])
    ≡ some (
      seen (codes "0xaaaaaaaaaaaaaaaaaaaaaaaaaaaaaaaaaaaaaaaa")
          ∷ seen (codes "0xbbbbbbbbbbbbbbbbbbbbbbbbbbbbbbbbbbbbbbbb")
          ∷ [],
      arb ∷ [],
    )
unfolding analyze_block is_quote_token
round_trip-found = refl

analyze_block-IsArb_example : All (IsArbAmong [] (round_trip ∷ [])) (arb ∷ [])
analyze_block-IsArb_example = analyze_block-IsArb [] (round_trip ∷ []) _ round_trip-found
