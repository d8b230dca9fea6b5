-- ===== src/Watch/Detect.antt =====
-- `analyzeBlock` of apps/watcher/src/detect.ts: the swaps of a block, and its arbitrages by net flows.
--
-- `BigInt` of a log's data that it does not read skips the log; of a gas figure it throws, `none`.
pub mod Profit
pub mod Flows
pub mod Arbs
use mathlib.Core.List.{map}
use ordofi.Base.{
  ℕ, zero, suc, ◌+◌, ◌-◌, ◌*◌, List, [], ◌∷◌, ◌++◌, Bool, true, false, not, ◌&&◌, ◌||◌, Option,
  none, some, or_else, is_some, ltb, leb, ◌==◌, if◌then◌else◌, length, drop, keep, any, ◌>>=◌,
}
use ordofi.Base.Int.{ℤ, pos, negsuc, ◌+ℤ◌, ◌-ℤ◌, ltb_ℤ}
use ordofi.Base.Text.{Text, codes, text_eq, to_lower_case, big_int, starts_with_0x}
use ordofi.Base.Assoc.{TextMap, get, put}
use ordofi.Auction.Ranking.{ranked}
use ordofi.Watch.Swaps.{
  Log, Receipt, SwapObservation, ArbObservation, to_num, topic_to_address, first_topic,
  transfer_topic, weth, add_text, gather_swaps,
}

unfoldable pub beneficiaries : Receipt → List Text
unfolding add_text to_lower_case
beneficiaries r = with_to r.to
  where
    with_to : Option Text → List Text
    with_to none = to_lower_case r.from ∷ []
    with_to (some to) =
        if text_eq to []
        then to_lower_case r.from ∷ []
        else add_text (to_lower_case to) (to_lower_case r.from ∷ [])

-- `senderNet.set(token, (senderNet.get(token) ?? 0n) + amount)`
unfoldable pub add_flow : Text → ℤ → TextMap ℤ → TextMap ℤ
unfolding get put ◌+ℤ◌
add_flow token amount m = put token (or_else (get token m) (pos 0) +ℤ amount) m

abbrev negated : ℤ → ℤ
negated z = pos 0 -ℤ z

unfoldable pub amount_of : Text → Option ℤ
unfolding text_eq big_int
amount_of d = if text_eq d (codes "0x") then some (pos 0) else big_int d

unfoldable pub move_amount : List Text → Text → Text → Text → Option ℤ → TextMap ℤ → TextMap ℤ
unfolding add_flow any text_eq ◌-ℤ◌
move_amount who token from to none net = net
move_amount who token from to (some amount) net =
    let in_flow = if any (text_eq to) who then add_flow token amount net else net in
    if any (text_eq from) who then add_flow token (negated amount) in_flow else in_flow

-- One round of the loop over the transfers.
unfoldable pub transfer_flow : List Text → Log → TextMap ℤ → TextMap ℤ
unfolding move_amount amount_of topic_to_address text_eq to_lower_case
transfer_flow who log net = on_topics log.topics
  where
    on_topics : List Text → TextMap ℤ
    on_topics (t ∷ from ∷ to ∷ ts) =
        if text_eq (to_lower_case t) transfer_topic
        then move_amount who (to_lower_case log.address) (topic_to_address from)
            (topic_to_address to) (amount_of log.log_data) net
        else net
    on_topics _ = net

unfoldable pub transfer_flows : List Text → List Log → TextMap ℤ → TextMap ℤ
unfolding transfer_flow
transfer_flows who [] net = net
transfer_flows who (log ∷ logs) net = transfer_flows who logs (transfer_flow who log net)

-- `senderNet`, with the ether that was sent counted as paid.
unfoldable pub sender_net : Receipt → ℤ → TextMap ℤ
unfolding transfer_flows beneficiaries add_flow ◌-ℤ◌
sender_net r native_spent =
    let net = transfer_flows (beneficiaries r) r.logs [] in
    if ltb_ℤ (pos 0) native_spent then add_flow weth (negated native_spent) net else net

abbrev pub Flow : Type 0
Flow = Text × ℤ

abbrev pub is_loss : Flow → Bool
is_loss (t, v) = ltb_ℤ v (pos 0)

abbrev pub is_gain : Flow → Bool
is_gain (t, v) = ltb_ℤ (pos 0) v

abbrev quote_tokens : List Text
quote_tokens =
    weth
    ∷ codes "0x5fc5360d0400a0fd4f2af552add042d716f1d168"
    ∷ codes "0xaf88d065e77c8cc2239327c5edb3a432268e5831"
    ∷ codes "0xfd086bc7cd5c481dcc9c85ebe478a1c0b69fcbb9"
    ∷ []

-- `isQuoteToken`
unfoldable pub is_quote_token : Text → Bool
unfolding any text_eq to_lower_case
is_quote_token addr = any (text_eq (to_lower_case addr)) quote_tokens

-- The loop for the best profit in a quote token.
unfoldable pub best_quote : TextMap ℤ → Option Text × ℤ → Option Text × ℤ
best_quote [] best = best
best_quote ((t, v) ∷ m) (token, wei) =
    best_quote m (if is_quote_token t && ltb_ℤ wei v then (some t, v) else (token, wei))

-- The profit: its token, its amount and whether it is a quote token.
token_profit : List Flow → List Flow → Option (Flow × Bool)
token_profit (best ∷ gains) [] = some (best, false)
token_profit _ _ = none

profit_from : Option Text × ℤ → List Flow → List Flow → Option (Flow × Bool)
unfolding token_profit
profit_from (none, wei) gains losses = token_profit gains losses
profit_from (some t, wei) gains losses =
    if ltb_ℤ (pos 0) wei then some ((t, wei), true) else token_profit gains losses

unfoldable pub profit_of : TextMap ℤ → Option (Flow × Bool)
unfolding profit_from best_quote ranked keep any
profit_of net =
    profit_from (if any is_loss net then (none, pos 0) else best_quote net (none, pos 0))
      (ranked (λ e. e.1) (keep is_gain net)) (keep is_loss net)

-- `BigInt` of both gas figures; their product is of natural numbers.
gas_paid : Receipt → Option ℤ
unfolding big_int
gas_paid r = big_int r.gas_used >>= λ used.
    big_int (or_else r.effective_gas_price (codes "0x0")) >>= λ price. some (times used price)
  where
    times : ℤ → ℤ → ℤ
    times (pos a) (pos b) = pos (a * b)
    times (pos a) (negsuc b) = pos 0 -ℤ pos (a * suc b)
    times (negsuc a) (pos b) = pos 0 -ℤ pos (suc a * b)
    times (negsuc a) (negsuc b) = pos (suc a * suc b)

on_profit : Receipt → List Text → TextMap ℤ → Option (Flow × Bool) → Option (List ArbObservation)
unfolding gas_paid to_num to_lower_case
on_profit r pools net none = some []
on_profit r pools net (some ((token, wei), quote)) = gas_paid r >>= λ gas. some (
    record {
      tx_hash = r.transaction_hash;
      tx_index = to_num r.transaction_index;
      sender = to_lower_case r.from;
      pools_touched = pools;
      net_flows = net;
      profit_token = token;
      profit_wei = wei;
      profit_is_quote = quote;
      gas_paid_wei = gas;
    }
    ∷ [])

-- The arbitrage of a receipt that touched these pools, if it is one.
unfoldable pub arbs_of : Receipt → ℤ → List Text → Option (List ArbObservation)
unfolding on_profit profit_of sender_net
arbs_of r native_spent pools =
    let net = sender_net r native_spent in
    if ltb (length pools) 2 then some [] else on_profit r pools net (profit_of net)

is_one : Option ℕ → Bool
is_one none = false
is_one (some n) = n == 1

unfoldable pub analyze_receipt : Receipt → ℤ → Option (List SwapObservation × List ArbObservation)
unfolding arbs_of gather_swaps is_one to_num
analyze_receipt r native_spent =
    let (pools, swaps) = gather_swaps r r.logs ([], []) in
    if is_one (to_num r.status)
    then (arbs_of r native_spent pools >>= λ arbs. some (swaps, arbs))
    else some ([], [])

-- `analyzeBlock`, with the ether sent by the lower-case hash of a transaction.
unfoldable pub analyze_block :
    TextMap ℤ → List Receipt → Option (List SwapObservation × List ArbObservation)
unfolding analyze_receipt get to_lower_case
analyze_block tx_values [] = some ([], [])
analyze_block tx_values (r ∷ rs) =
    analyze_receipt r (or_else (get (to_lower_case r.transaction_hash) tx_values) (pos 0))
    >>= λ here. analyze_block tx_values rs >>= λ later. some (here.0 ++ later.0, here.1 ++ later.1)
