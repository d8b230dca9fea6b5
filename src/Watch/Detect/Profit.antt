-- ===== src/Watch/Detect/Profit.antt =====
-- The profit of a transaction, apps/watcher/src/detect.ts.
use mathlib.Core.List.{Mem, mem-cons_self, mem-cons_of_mem}
use mathlib.Core.List.Perm
use ordofi.Base.{
  List, [], ◌∷◌, Bool, true, false, ◌&&◌, Option, none, some, if◌then◌else◌, keep, keep-All,
  keep-Mem, keep-nil, any, if_elim, ◌≡◌, refl, sym, ap, arith, All, All-mem, All-map,
}
use ordofi.Base.Int.{ℤ, pos, ltb_ℤ, ◌≤ℤ◌, ◌<ℤ◌}
use ordofi.Base.Text.{Text}
use ordofi.Base.Assoc.{TextMap}
use ordofi.Auction.Ranking.{ranked}
use ordofi.Auction.Ranking.SecondPrice.{ranked-perm}
use mathlib.Core.Path.{subst}
use ordofi.Watch.Detect.{
  Flow, is_loss, is_gain, is_quote_token, best_quote, token_profit, profit_from, profit_of,
}

-- A profit that is reported: the sender lost no token, the profit is one of its flows and above zero; a
-- profit in a quote token is the largest of those.
pub record IsProfit (net : TextMap ℤ) (token : Text) (wei : ℤ) (quote : Bool) : Type 0 where
  pub no_loss : All (λ e. pos 0 ≤ℤ e.1) net
  pub gained : pos 0 <ℤ wei
  pub is_flow : Mem (token, wei) net
  pub best :
      quote ≡ true
      → (is_quote_token token ≡ true) × All (λ e. is_quote_token e.0 ≡ true → e.1 ≤ℤ wei) net

-- The best so far is a flow in a quote token, or there is none yet.
IsBestOf : TextMap ℤ → Option Text × ℤ → Type 0
IsBestOf seen (none, wei) = wei ≡ pos 0
IsBestOf seen (some t, wei) = (is_quote_token t ≡ true) × Mem (t, wei) seen

best_quote-IsBestOf :
    (all rest : TextMap ℤ) (best : Option Text × ℤ)
    → ((e : Flow) → Mem e rest → Mem e all)
    → IsBestOf all best
    → IsBestOf all (best_quote rest best)
unfolding best_quote IsBestOf
best_quote-IsBestOf all [] best sub h = h
best_quote-IsBestOf all ((t, v) ∷ m) (token, wei) sub h =
    best_quote-IsBestOf all m _ (λ e n. sub e (mem-cons_of_mem (t, v) n))
      (if_elim (IsBestOf all) (is_quote_token t && ltb_ℤ wei v)
        (λ q. (ground arith, sub (t, v) mem-cons_self)) (λ _. h))

better : Text → ℤ → Option Text × ℤ → Option Text × ℤ
better t v best = if is_quote_token t && ltb_ℤ best.1 v then (some t, v) else best

better-bounds :
    (t : Text) (v : ℤ) (best : Option Text × ℤ)
    → (best.1 ≤ℤ (better t v best).1) × (is_quote_token t ≡ true → v ≤ℤ (better t v best).1)
unfolding better
better-bounds t v best =
    if_elim (λ (b : Option Text × ℤ). (best.1 ≤ℤ b.1) × (is_quote_token t ≡ true → v ≤ℤ b.1))
      (is_quote_token t && ltb_ℤ best.1 v) (λ q. (ground arith, λ i. omega arith))
      (λ q. (omega arith, λ i. ground arith))

≤ℤ_trans : (a b c : ℤ) → a ≤ℤ b → b ≤ℤ c → a ≤ℤ c
≤ℤ_trans a b c h k = omega (arith, h, k)

best_quote-bound :
    (rest : TextMap ℤ) (best : Option Text × ℤ)
    → (best.1 ≤ℤ (best_quote rest best).1)
      × All (λ e. is_quote_token e.0 ≡ true → e.1 ≤ℤ (best_quote rest best).1) rest
unfolding best_quote better
best_quote-bound [] best = (omega arith, tt)
best_quote-bound ((t, v) ∷ m) best =
    let (keeps, takes) = better-bounds t v best in
    let (grows, bounds) = best_quote-bound m (better t v best) in
    (
      ≤ℤ_trans best.1 (better t v best).1 (best_quote m (better t v best)).1 keeps grows,
      (
        λ q. ≤ℤ_trans v (better t v best).1 (best_quote m (better t v best)).1 (takes q) grows,
        bounds,
      ),
    )

losses-none : (net : TextMap ℤ) → keep is_loss net ≡ [] → All (λ e. pos 0 ≤ℤ e.1) net
losses-none net h = All-map (λ e l. not_loss e l) net (keep-nil is_loss net h)
  where
    not_loss : (e : Flow) → is_loss e ≡ false → pos 0 ≤ℤ e.1
    not_loss (t, v) l = ground arith

any_loss-none : (net : TextMap ℤ) → any is_loss net ≡ false → All (λ e. pos 0 ≤ℤ e.1) net
unfolding any
any_loss-none [] h = tt
any_loss-none ((t, v) ∷ m) h = (ground arith, any_loss-none m (ground arith))

-- The first of the sorted gains is a gain.
first_gain :
    (net : TextMap ℤ) (e : Flow) (es : List Flow)
    → ranked (λ e. e.1) (keep is_gain net) ≡ e ∷ es
    → Mem e net × (pos 0 <ℤ e.1)
first_gain net e es h =
    let m =
      (Perm.mem_iff (ranked-perm (λ (f : Flow). f.1) (keep is_gain net))).0
        (subst (λ l. Mem e l) (sym h) mem-cons_self) in
    let gains =
      All-mem (λ f. is_gain f ≡ true) (λ f. hlevel) (keep is_gain net) (keep-All is_gain net) m in
    (keep-Mem is_gain net m, is_gain-pos e gains)
  where
    is_gain-pos : (f : Flow) → is_gain f ≡ true → pos 0 <ℤ f.1
    is_gain-pos (t, v) g = ground arith

flow_or : Flow → Option (Flow × Bool) → Flow
flow_or d none = d
flow_or d (some r) = r.0

token_profit-IsProfit :
    (net : TextMap ℤ) (gains losses : List Flow) (token : Text) (wei : ℤ) (quote : Bool)
    → ranked (λ e. e.1) (keep is_gain net) ≡ gains
    → keep is_loss net ≡ losses
    → token_profit gains losses ≡ some ((token, wei), quote)
    → IsProfit net token wei quote
unfolding token_profit flow_or
token_profit-IsProfit net [] losses token wei quote g l h = absurd cc
token_profit-IsProfit net (e ∷ es) (x ∷ xs) token wei quote g l h = absurd cc
token_profit-IsProfit net ((t, v) ∷ es) [] token wei quote g l h =
    let (m, gained) = first_gain net (t, v) es g in
    let same : Path Flow (t, v) (token, wei) = ap (flow_or (t, v)) h in
    let not_quote : quote ≡ false = ground arith in
    record {
      no_loss = losses-none net l;
      gained = subst (λ (f : Flow). pos 0 <ℤ f.1) same gained;
      is_flow = subst (λ f. Mem f net) same m;
      best = λ q. absurd cc;
    }

-- A profit from the best of the quote tokens, when nothing was lost.
best_quote_wei-IsProfit :
    (net : TextMap ℤ) (best : Option Text × ℤ) (gains losses : List Flow) (token : Text) (wei : ℤ)
    (quote : Bool)
    → All (λ e. pos 0 ≤ℤ e.1) net
    → IsBestOf net best
    → All (λ e. is_quote_token e.0 ≡ true → e.1 ≤ℤ best.1) net
    → ranked (λ e. e.1) (keep is_gain net) ≡ gains
    → keep is_loss net ≡ losses
    → profit_from best gains losses ≡ some ((token, wei), quote)
    → IsProfit net token wei quote
unfolding profit_from IsBestOf flow_or
best_quote_wei-IsProfit net (none, b) gains losses token wei quote no_loss best bound g l h =
    token_profit-IsProfit net gains losses token wei quote g l h
best_quote_wei-IsProfit net (some t, b) gains losses token wei quote no_loss best bound g l h =
    by_test (ltb_ℤ (pos 0) b) refl h
  where
    by_test :
        (positive : Bool)
        → ltb_ℤ (pos 0) b ≡ positive
        → (if positive then some ((t, b), true) else token_profit gains losses)
          ≡ some ((token, wei), quote)
        → IsProfit net token wei quote
    by_test false e k = token_profit-IsProfit net gains losses token wei quote g l k
    by_test true e k =
        let same : Path Flow (t, b) (token, wei) = ap (flow_or (t, b)) k in
        let found : IsProfit net t b quote = record {
          no_loss = no_loss;
          gained = ground arith;
          is_flow = best.1;
          best = λ q. (best.0, bound);
        } in
        subst (λ (f : Flow). IsProfit net f.0 f.1 quote) same found

pub profit_of-IsProfit :
    (net : TextMap ℤ) (token : Text) (wei : ℤ) (quote : Bool)
    → profit_of net ≡ some ((token, wei), quote)
    → IsProfit net token wei quote
unfolding profit_of profit_from IsBestOf
profit_of-IsProfit net token wei quote h = by_test (any is_loss net) refl h
  where
    by_test :
        (loss : Bool)
        → any is_loss net ≡ loss
        → profit_from
            (if loss then (none, pos 0) else best_quote net (none, pos 0))
            (ranked (λ e. e.1) (keep is_gain net))
            (keep is_loss net)
          ≡ some ((token, wei), quote)
        → IsProfit net token wei quote
    by_test true e k = token_profit-IsProfit net _ _ token wei quote refl refl k
    by_test false e k =
        best_quote_wei-IsProfit net (best_quote net (none, pos 0)) _ _ token wei quote
          (any_loss-none net e) (best_quote-IsBestOf net net (none, pos 0) (λ f m. m) refl)
          (best_quote-bound net (none, pos 0)).1 refl refl k
