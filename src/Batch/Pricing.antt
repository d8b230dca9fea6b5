-- ===== src/Batch/Pricing.antt =====
-- The clearing price and the residual of one pair, apps/batcher/src/solver.ts.
--
-- A `bigint` division by zero throws in the source. `divides` is the test for it: where it fails, the
-- source throws before it returns, and the values here are not what it returns.
pub mod Balance
pub mod Limits
use mathlib.Core.List.{map}
use ordofi.Base.{
  ℕ, zero, suc, ◌+◌, ◌-◌, ◌*◌, ◌/◌, List, [], ◌∷◌, ◌++◌, Bool, true, false, not, ◌&&◌, ◌||◌, Option,
  none, some, ltb, leb, ◌==◌, if◌then◌else◌, keep, any,
}
use ordofi.Base.Int.{ℤ, pos, negsuc, pos_part, neg_part, ◌-ℤ◌, ltb_ℤ, eqb_ℤ}
use ordofi.Base.Text.{Text, text_eq, to_lower_case}
use ordofi.Base.Sums.{sum}
use ordofi.Batch.Types.{Order, Price, SimToken, as_token}
use ordofi.Batch.Pairs.{PairBatch, all_orders}

-- One a is worth pA / pB of b.
pub record Clearing : Type 0 where
  pub p_a : ℕ
  pub p_b : ℕ

-- What is left of each token for the pools.
pub record Residual : Type 0 where
  pub a : ℕ
  pub b : ℕ

abbrev is_empty {ℓ} : {A : Type ℓ} → List A → Bool
is_empty [] = true
is_empty (x ∷ xs) = false

-- Whether no division of `buyAmount` over the whole batch is by zero.
unfoldable pub divides : PairBatch → Clearing → Bool
divides pb c = (is_empty pb.sell_a || ltb 0 c.p_b) && (is_empty pb.sell_b || ltb 0 c.p_a)

-- `buyAmount`
unfoldable pub buy_amount : Order → PairBatch → Clearing → ℕ
buy_amount o pb c =
    if text_eq (as_token o.sell_token) pb.a
    then o.sell_amount * c.p_a / c.p_b
    else o.sell_amount * c.p_b / c.p_a

-- `prices`
unfoldable pub prices : PairBatch → Clearing → List Price
prices pb c = record { token = pb.a; price = c.p_a } ∷ record { token = pb.b; price = c.p_b } ∷ []

abbrev pub sold : List Order → ℕ
sold os = sum (map (λ o. o.sell_amount) os)

abbrev pub owed_to : List Order → PairBatch → Clearing → ℕ
owed_to os pb c = sum (map (λ o. buy_amount o pb c) os)

-- `SA > owedA ? SA - owedA : 0n`
abbrev excess : ℕ → ℕ → ℕ
excess s o = if ltb o s then s - o else 0

-- `residual`
unfoldable pub residual : PairBatch → Clearing → Residual
residual pb c =
    let s_a = sold pb.sell_a in
    let s_b = sold pb.sell_b in
    let owed_b = owed_to pb.sell_a pb c in
    let owed_a = owed_to pb.sell_b pb c in
    if ltb s_b owed_b
    then record { a = excess s_a owed_a; b = 0 }
    else if ltb s_a owed_a
    then record { a = 0; b = excess s_b owed_b }
    else record { a = 0; b = 0 }

-- `sim.tokens.findIndex((t) => low(t) === token)`, with what stands at that index.
unfoldable pub find_token : Text → List SimToken → Option SimToken
find_token t [] = none
find_token t (r ∷ rs) = if text_eq (to_lower_case r.token) t then some r else find_token t rs

-- `|delta - owed|`
gap : SimToken → ℕ
unfolding ◌-ℤ◌
gap r = let d = r.delta -ℤ pos r.owed in pos_part d + neg_part d

-- `target`, asked of a positive amount only.
abbrev pub target : ℕ → ℕ → ℕ
target d fee_bps = d * (10000 - fee_bps) / 10000

pub data Fed : Type 0 where
  fed_a fed_b fed_none : Fed

-- Which token the pools fed: by the residual, else by the larger gap.
fed : Residual → SimToken → SimToken → Fed
unfolding gap
fed res ra rb =
    if ltb 0 res.a
    then fed_b
    else if ltb 0 res.b
    then fed_a
    else if gap ra == 0 && gap rb == 0
    then fed_none
    else if leb (gap ra) (gap rb)
    then fed_b
    else fed_a

move_price : Fed → Clearing → SimToken → SimToken → ℕ → Clearing
move_price fed_none c ra rb fee_bps = c
move_price fed_b c ra rb fee_bps =
    if rb.owed == 0 || pos_part rb.delta == 0
    then c
    else record c { p_a = c.p_a * target (pos_part rb.delta) fee_bps / rb.owed }
move_price fed_a c ra rb fee_bps =
    if ra.owed == 0 || pos_part ra.delta == 0
    then c
    else record c { p_b = c.p_b * target (pos_part ra.delta) fee_bps / ra.owed }

next_from : Option SimToken → Option SimToken → Clearing → ℕ → Residual → Clearing
unfolding fed move_price
next_from (some ra) (some rb) c fee_bps res = move_price (fed res ra rb) c ra rb fee_bps
next_from _ _ c fee_bps res = c

-- `nextClearing`, for a fee of at most 10000 basis points.
unfoldable pub next_clearing : PairBatch → Clearing → List SimToken → ℕ → Residual → Clearing
unfolding next_from find_token
next_clearing pb c sim fee_bps res =
    next_from (find_token pb.a sim) (find_token pb.b sim) c fee_bps res

-- `orders.filter((o) => asToken(o.sellToken) === t)`
abbrev pub sells_token : Text → Order → Bool
sells_token t o = text_eq (as_token o.sell_token) t

-- The cap on the fee: a share of what was sold and what was bought of the token.
abbrev pub fee_cap : PairBatch → SimToken → ℕ → ℕ
fee_cap pb r max_fee_bps =
    (sold (keep (sells_token (to_lower_case r.token)) (all_orders pb)) + r.owed)
    * max_fee_bps
    / 10000

-- One round of the loop in `acceptable`: whether token `r` is settled within the rules.
token_acceptable : PairBatch → ℕ → SimToken → Bool
unfolding ◌-ℤ◌ keep
token_acceptable pb max_fee_bps r =
    let t = to_lower_case r.token in
    if not (text_eq t pb.a) && not (text_eq t pb.b)
    then true
    else if ltb_ℤ r.delta (pos r.owed)
    then false
    else not (ltb_ℤ (pos (fee_cap pb r max_fee_bps)) (r.delta -ℤ pos r.owed))

-- `acceptable(batch, sim, maxFeeBps).ok`
unfoldable pub acceptable : PairBatch → List SimToken → ℕ → Bool
unfolding token_acceptable
acceptable pb [] max_fee_bps = true
acceptable pb (r ∷ rs) max_fee_bps =
    token_acceptable pb max_fee_bps r && acceptable pb rs max_fee_bps

-- `buyAmount(o, batch, c) < o.minBuyAmount`
abbrev pub misses_limit : PairBatch → Clearing → Order → Bool
misses_limit pb c o = ltb (buy_amount o pb c) o.min_buy_amount

-- `limitFailures`
unfoldable pub limit_failures : PairBatch → Clearing → List Order
unfolding keep buy_amount
limit_failures pb c = keep (misses_limit pb c) (all_orders pb)

-- `without`; `gone` tells the members of the set `drop`.
unfoldable pub without : PairBatch → (Order → Bool) → PairBatch
unfolding keep
without pb gone = record pb {
  sell_a = keep (λ o. not (gone o)) pb.sell_a;
  sell_b = keep (λ o. not (gone o)) pb.sell_b;
}

-- `nettedA`
unfoldable pub netted_a : PairBatch → Clearing → ℕ
netted_a pb c =
    let s_a = sold pb.sell_a in
    let owed_a = owed_to pb.sell_b pb c in if ltb s_a owed_a then s_a else owed_a

-- `discoveryClearing`
unfoldable pub discovery_clearing : PairBatch → ℕ → ℕ → Option Clearing
discovery_clearing pb out_b out_a =
    let s_a = sold pb.sell_a in
    let s_b = sold pb.sell_b in
    if ltb 0 s_a && ltb 0 out_b
    then some (record { p_a = out_b; p_b = s_a })
    else if ltb 0 s_b && ltb 0 out_a
    then some (record { p_a = s_b; p_b = out_a })
    else none
