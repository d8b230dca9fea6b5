-- ===== src/Watch/Detect/Arbs.antt =====
-- Which transactions are counted as arbitrages, apps/watcher/src/detect.ts.
use mathlib.Core.HLevel.{⊥_prop}
use mathlib.Core.Logic.Or
use mathlib.Core.List.{
  mem-cons, mem-cons_self, mem-cons_of_mem, not-mem-nil, Nodup, Nodup-append, Nodup-cons, Pairwise,
  Mem,
}
use ordofi.Base.{
  ℕ, ap, All-map, ◌++◌, ◌≤◌, List, [], ◌∷◌, Bool, true, false, Option, none, some, ltb,
  if◌then◌else◌, length, or_else, bind-some, All-append, any, ◌>>=◌, ◌≡◌, refl, arith, All,
}
use ordofi.Base.Int.{ℤ, pos}
use ordofi.Base.Text.{Text, text_eq, text_eq_iff, to_lower_case}
use ordofi.Base.Assoc.{TextMap, get}
use mathlib.Core.Path.{subst}
use ordofi.Watch.Swaps.{
  Log, SwapKind, Found, add_text, on_kind, pool_of, Receipt, ArbObservation, SwapObservation,
  gather_swaps, to_num,
}
use ordofi.Watch.Detect.{
  Flow, profit_of, on_profit, arbs_of, gas_paid, sender_net, is_one, analyze_receipt, analyze_block,
}
use ordofi.Watch.Detect.Flows.{gained, sender_net-gained}
use ordofi.Watch.Detect.Profit.{IsProfit, profit_of-IsProfit}

-- A pool is added once.
not_any-Mem : (t : Text) (ts : List Text) → any (text_eq t) ts ≡ false → ¬ Mem t ts
unfolding any
not_any-Mem t [] e m = not-mem-nil m
not_any-Mem t (u ∷ ts) e m =
    Or.elim ⊥_prop (mem-cons.0 m)
      (λ q. let same : text_eq t u ≡ true = (text_eq_iff t u).1 q in absurd (ground arith))
      (not_any-Mem t ts (ground arith))

add_text-Nodup : (t : Text) (ts : List Text) → Nodup ts → Nodup (add_text t ts)
unfolding add_text
add_text-Nodup t ts d = by_test (any (text_eq t) ts) refl
  where
    by_test : (b : Bool) → any (text_eq t) ts ≡ b → Nodup (if b then ts else ts ++ t ∷ [])
    by_test true e = d
    by_test false e = Nodup-append.1 (
      d,
      Nodup-cons.1 (not-mem-nil, Pairwise.nil),
      λ u m n.
          Or.elim ⊥_prop (mem-cons.0 n) (λ q. not_any-Mem t ts e (subst (λ x. Mem x ts) q m))
            not-mem-nil,
    )

on_kind-Nodup :
    (r : Receipt) (log : Log) (kind : Option SwapKind) (found : Found)
    → Nodup found.0
    → Nodup (on_kind r log kind found).0
unfolding on_kind
on_kind-Nodup r log none found d = d
on_kind-Nodup r log (some kind) (pools, swaps) d = add_text-Nodup (pool_of kind log) pools d

gather_swaps-Nodup :
    (r : Receipt) (logs : List Log) (found : Found)
    → Nodup found.0
    → Nodup (gather_swaps r logs found).0
unfolding gather_swaps
gather_swaps-Nodup r [] found d = d
gather_swaps-Nodup r (log ∷ logs) found d =
    gather_swaps-Nodup r logs _ (on_kind-Nodup r log _ found d)

-- What the arbitrage `a` of the receipt `r` is, with the ether that its transaction sent.
pub record IsArb (r : Receipt) (native_spent : ℤ) (a : ArbObservation) : Type 0 where
  pub hash : a.tx_hash ≡ r.transaction_hash
  pub by_sender : a.sender ≡ to_lower_case r.from
  pub touched : a.pools_touched ≡ (gather_swaps r r.logs ([], [])).0
  pub pools : 2 ≤ length a.pools_touched
  pub distinct : Nodup a.pools_touched
  pub flows : (token : Text) → or_else (get token a.net_flows) (pos 0) ≡ gained r native_spent token
  pub profit : IsProfit a.net_flows a.profit_token a.profit_wei a.profit_is_quote

abbrev found_in : Option (List SwapObservation × List ArbObservation) → List ArbObservation
found_in none = []
found_in (some found) = found.1

module _ (r : Receipt) (native_spent : ℤ) where
  abbrev pools_of : List Text
  pools_of = (gather_swaps r r.logs ([], [])).0

  on_profit-IsArb :
      (found : Option (Flow × Bool)) (arbs : List ArbObservation)
      → 2 ≤ length pools_of
      → profit_of (sender_net r native_spent) ≡ found
      → on_profit r pools_of (sender_net r native_spent) found ≡ some arbs
      → All (IsArb r native_spent) arbs
  unfolding on_profit
  on_profit-IsArb none arbs n e h = subst (λ o. All (IsArb r native_spent) (or_else o [])) h tt
  on_profit-IsArb (some ((token, wei), quote)) arbs n e h =
      let net = sender_net r native_spent in
      let (gas, _, k) = bind-some (gas_paid r) _ arbs h in
      let found : IsArb r native_spent (record {
        tx_hash = r.transaction_hash;
        tx_index = to_num r.transaction_index;
        sender = to_lower_case r.from;
        pools_touched = pools_of;
        net_flows = net;
        profit_token = token;
        profit_wei = wei;
        profit_is_quote = quote;
        gas_paid_wei = gas;
      }) =
        record {
          hash = refl;
          by_sender = refl;
          touched = refl;
          pools = n;
          distinct = gather_swaps-Nodup r r.logs ([], []) Pairwise.nil;
          flows = sender_net-gained r native_spent;
          profit = profit_of-IsProfit net token wei quote e;
        } in
      subst (λ o. All (IsArb r native_spent) (or_else o [])) k (found, tt)

  arbs_of-IsArb :
      (arbs : List ArbObservation)
      → arbs_of r native_spent pools_of ≡ some arbs
      → All (IsArb r native_spent) arbs
  unfolding arbs_of
  arbs_of-IsArb arbs h = by_test (ltb (length pools_of) 2) refl h
    where
      net : TextMap ℤ
      net = sender_net r native_spent

      by_test :
          (few : Bool)
          → ltb (length pools_of) 2 ≡ few
          → (if few then some [] else on_profit r pools_of net (profit_of net)) ≡ some arbs
          → All (IsArb r native_spent) arbs
      by_test true e k = subst (λ o. All (IsArb r native_spent) (or_else o [])) k tt
      by_test false e k = on_profit-IsArb (profit_of net) arbs (ground arith) refl k

  analyze_receipt-IsArb :
      (found : List SwapObservation × List ArbObservation)
      → analyze_receipt r native_spent ≡ some found
      → All (λ a. (to_num r.status ≡ some 1) × IsArb r native_spent a) found.1
  unfolding analyze_receipt is_one
  analyze_receipt-IsArb found h = by_test (is_one (to_num r.status)) refl h
    where
      Good : ArbObservation → Type 0
      Good a = (to_num r.status ≡ some 1) × IsArb r native_spent a

      swaps : List SwapObservation
      swaps = (gather_swaps r r.logs ([], [])).1

      is_one_eq : (n : Option ℕ) → is_one n ≡ true → n ≡ some 1
      is_one_eq none e = absurd cc
      is_one_eq (some n) e = ap some (ground arith)

      by_test :
          (succeeded : Bool)
          → is_one (to_num r.status) ≡ succeeded
          → (if succeeded
              then (arbs_of r native_spent pools_of >>= λ arbs. some (swaps, arbs))
              else some ([], []))
            ≡ some found
          → All Good found.1
      by_test true one k =
          let (arbs, e, q) = bind-some (arbs_of r native_spent pools_of) _ found k in
          subst (λ o. All Good (found_in o)) q
            (All-map (λ a t. (is_one_eq (to_num r.status) one, t)) arbs (arbs_of-IsArb arbs e))
      by_test false one k = subst (λ o. All Good (found_in o)) k tt

abbrev pub sent_by : TextMap ℤ → Receipt → ℤ
sent_by tx_values r = or_else (get (to_lower_case r.transaction_hash) tx_values) (pos 0)

-- The arbitrage is one of a transaction among these receipts that succeeded.
abbrev pub IsArbAmong : TextMap ℤ → List Receipt → ArbObservation → Type 0
IsArbAmong tx_values rs a =
    (r : Receipt) × Mem r rs × (to_num r.status ≡ some 1) × IsArb r (sent_by tx_values r) a

-- Every arbitrage that is found in a block is of a transaction of the block that succeeded: its
-- pools are those of its swaps, two different ones or more; its net flows are, for each token, what
-- the sender and the contract it called received less what they paid, of wrapped ether less the
-- ether sent too; none of them is a loss; the reported profit is one of the net flows and above
-- zero, and where it is in a quote token, it is the largest flow in one.
pub analyze_block-IsArb :
    (tx_values : TextMap ℤ) (rs : List Receipt) (found : List SwapObservation × List ArbObservation)
    → analyze_block tx_values rs ≡ some found
    → All (IsArbAmong tx_values rs) found.1
unfolding analyze_block
analyze_block-IsArb tx_values [] found h =
    subst (λ o. All (IsArbAmong tx_values []) (found_in o)) h tt
analyze_block-IsArb tx_values (r ∷ rs) found h =
    let (here, a, k) = bind-some (analyze_receipt r (sent_by tx_values r)) _ found h in
    let (later, b, q) = bind-some (analyze_block tx_values rs) _ found k in
    subst (λ o. All (IsArbAmong tx_values (r ∷ rs)) (found_in o)) q
      (All-append (IsArbAmong tx_values (r ∷ rs)) here.1 later.1
        (All-map (λ x t. (r, mem-cons_self, t.0, t.1)) here.1
          (analyze_receipt-IsArb r (sent_by tx_values r) here a))
        (All-map (λ x t. (t.0, mem-cons_of_mem r t.1, t.2, t.3)) later.1
          (analyze_block-IsArb tx_values rs later b)))
