-- ===== src/Batch/Pricing/Limits.antt =====
-- Orders' limits, and when a simulated settlement is acceptable.
use mathlib.Core.Bool.{and-eq-true_iff}
use mathlib.Core.List.{Perm}
use ordofi.Base.{
  ℕ, ◌+◌, List, [], ◌∷◌, ◌++◌, ◌≡◌, ◌≢◌, ◌↔◌, refl, arith, All, Bool, true, not, keep, keep-append,
  keep-perm, ◌⊎◌, ◌*◌, ◌/◌, ◌≤◌, ◌<◌, All-map, keep-All, ltb→lt,
}
use ordofi.Base.Int.{pos, pos_part, ◌≤ℤ◌, -ℤ_parts}
use ordofi.Base.Text.{text_eq_iff, to_lower_case}
use ordofi.Batch.Types.{Order, SimToken}
use ordofi.Batch.Pairs.{PairBatch, all_orders}
use ordofi.Batch.Pricing.{
  Clearing, buy_amount, misses_limit, limit_failures, without, acceptable, token_acceptable, sold,
  sells_token,
}

keep_rest :
    (pb : PairBatch) (gone : Order → Bool)
    → all_orders (without pb gone) ≡ keep (λ o. not (gone o)) (all_orders pb)
unfolding without
keep_rest pb gone = rw keep-append

-- Dropping the orders whose limit fails splits the batch in two: every order that fails would be paid
-- less than its minimum, every order that is left is paid its minimum or more at the same price, and
-- the two parts are all of the orders.
pub limit_failures-without :
    (pb : PairBatch) (c : Clearing)
    → let left = without pb (misses_limit pb c) in
      All (λ o. buy_amount o pb c < o.min_buy_amount) (limit_failures pb c)
      × All (λ o. o.min_buy_amount ≤ buy_amount o left c) (all_orders left)
      × Perm (limit_failures pb c ++ all_orders left) (all_orders pb)
unfolding limit_failures without buy_amount
limit_failures-without pb c =
    let gone = misses_limit pb c in
    (
      All-map (λ o t. ltb→lt (buy_amount o pb c) o.min_buy_amount t) (limit_failures pb c)
          (keep-All gone (all_orders pb)),
      rw (keep_rest pb gone) (
          All-map (λ o t. met o t) (keep (λ o. not (gone o)) (all_orders pb))
            (keep-All (λ o. not (gone o)) (all_orders pb))),
      rw (keep_rest pb gone) (keep-perm gone (all_orders pb)),
    )
  where
    met :
        (o : Order)
        → not (misses_limit pb c o) ≡ true
        → o.min_buy_amount ≤ buy_amount o (without pb (misses_limit pb c)) c
    met o t = ground arith

-- An entry for a token of the pair has what is owed, and beyond it no more than `max_fee_bps` ten
-- thousandths of what the orders sell of the token and are owed in it; others do not count.
abbrev pub IsSettled : PairBatch → ℕ → SimToken → Type 0
IsSettled pb max_fee_bps r =
    ((to_lower_case r.token ≢ pb.a) × (to_lower_case r.token ≢ pb.b))
    ⊎ ((pos r.owed ≤ℤ r.delta)
        × (pos_part r.delta * 10000
            ≤ r.owed * 10000
              + (sold (keep (sells_token (to_lower_case r.token)) (all_orders pb)) + r.owed)
                * max_fee_bps))

-- To be within the cap, which is rounded down.
within_cap : (d owed volume : ℕ) → (d ≤ owed + volume / 10000) ↔ (d * 10000 ≤ owed * 10000 + volume)
within_cap d owed volume = (λ h. omega (arith, h), λ h. omega (arith, h))

token_acceptable_iff :
    (pb : PairBatch) (max_fee_bps : ℕ) (r : SimToken)
    → (token_acceptable pb max_fee_bps r ≡ true) ↔ IsSettled pb max_fee_bps r
unfolding token_acceptable
token_acceptable_iff pb max_fee_bps r =
    let t = to_lower_case r.token in
    ground (
      arith,
      text_eq_iff t pb.a,
      text_eq_iff t pb.b,
      -ℤ_parts r.delta (pos r.owed),
      within_cap (pos_part r.delta) r.owed
          ((sold (keep (sells_token t) (all_orders pb)) + r.owed) * max_fee_bps),
    )

-- A simulation is accepted exactly when in each of its entries for a token of the pair what came in
-- is at least what is owed, and ten thousand times what is beyond that is at most `max_fee_bps`
-- times the sum of what the orders sell of the token and of what is owed in it.
pub acceptable_iff :
    (pb : PairBatch) (sim : List SimToken) (max_fee_bps : ℕ)
    → (acceptable pb sim max_fee_bps ≡ true) ↔ All (IsSettled pb max_fee_bps) sim
unfolding acceptable
acceptable_iff pb [] max_fee_bps = (λ _. tt, λ _. refl)
acceptable_iff pb (r ∷ rs) max_fee_bps =
    let here = token_acceptable_iff pb max_fee_bps r in
    let later = acceptable_iff pb rs max_fee_bps in
    (
      λ e. let (x, y) = (and-eq-true_iff _ _).0 e in (here.0 x, later.0 y),
      λ h. (and-eq-true_iff _ _).1 (here.1 h.0, later.1 h.1),
    )
