-- ===== src/Batch/Settle.antt =====
-- `settlePair` of apps/batcher/src/main.ts: one pair is solved, tried, sent and awaited.
--
-- The answers of the chain are arguments, each as it stands when the code reads it. An exception in
-- `solve`, or at an order that the batcher does not know, leaves the rest undone. Every order is
-- found by its hash, `order_hash`, which is also the `hash` of its entry. The file that takes each
-- record is left out.
pub mod Orders
pub mod Total
pub mod Limits
use ordofi.Base.{
  ℕ, zero, suc, ◌+◌, ◌*◌, ◌-◌, List, [], ◌∷◌, Bool, true, false, not, ◌&&◌, ◌||◌, Option, none,
  some, leb, length, ltb, ◌==◌, if◌then◌else◌, is_some, or_else,
}
use mathlib.Core.List.{map, drop_last}
use ordofi.Base.Int.{ℤ, pos, ◌-ℤ◌, ltb_ℤ}
use ordofi.Base.Text.{Text, codes, text_eq, includes, starts_with, to_lower_case}
use ordofi.Base.Assoc.{TextMap, get, put}
use ordofi.Batch.Types.{Order, SimToken, as_token}
use ordofi.Batch.Pairs.{PairBatch, all_orders}
use ordofi.Batch.Pricing.{Clearing, buy_amount, residual, netted_a}
use ordofi.Batch.Pause.{pause_ms}
use ordofi.Batch.Solve.{SolveError, Solved, SolveResult, no_orders}
use ordofi.Batch.Solve.SolveResult.{solved, error, thrown}
use ordofi.Batch.Book.{
  Reason, OrderStatus, Pending, BatchRecord, Stats, Book, is_pending, leave, on_order, each,
  with_status, fail_attempt, tally_failed, tally_rejected, tally_filled,
}
use ordofi.Batch.Book.OrderStatus.{pending, settling, filled, rejected}
use ordofi.Batch.Book.Reason.{
  limit_not_met, not_solved, would_revert, could_not_submit, reverted_on_chain, not_mined,
}

abbrev pub max_attempts : ℕ
max_attempts = 3

pub data Sent : Type 0 where
  sent_as : Text → Sent
  send_refused : Text → Sent

pub record Receipt : Type 0 where
  pub succeeded : Bool
  pub gas_used : ℕ

-- What the chain answers to one settlement, and the clock at the failure of the send and at the receipt.
pub record Answers : Type 0 where
  pub dry_error : Option Text
  pub sent : Sent
  pub refused_at : ℕ
  pub receipt : Option Receipt
  pub mined_at : ℕ

-- `setStatus`, on what `pendingOf` found.
unfoldable pub set_status : OrderStatus → Option Pending → Text → TextMap Pending → TextMap Pending
unfolding put
set_status s none h m = m
set_status s (some p) h m = put h (with_status s p) m

two_sided : PairBatch → Bool
two_sided pb = not (no_orders pb.sell_a) && not (no_orders pb.sell_b)

alone_for : Solved → Order → Option ℕ
unfolding as_token
alone_for s o =
    if length (all_orders s.batch) == 1
    then some (if text_eq (as_token o.sell_token) s.batch.a then s.alone_b else s.alone_a)
    else none

unmined_attempt : Reason → Pending → Pending
unmined_attempt reason p = record p {
  attempts = p.attempts + 1;
  status = if leb max_attempts (p.attempts + 1) then rejected reason else pending;
}

-- `sim.delta[i] - sim.owed[i]` at the index of a token.
fee_in : Text → List SimToken → ℤ
unfolding ◌-ℤ◌ text_eq
fee_in t [] = pos 0
fee_in t (r ∷ rs) =
    let later = fee_in t rs in if text_eq r.token t then r.delta -ℤ pos r.owed else later

has_succeeded : Option Receipt → Bool
has_succeeded none = false
has_succeeded (some r) = r.succeeded

gas_of : Option Receipt → Option ℕ
gas_of none = none
gas_of (some r) = some r.gas_used

unmined_reason : Option Receipt → Reason
unmined_reason none = not_mined
unmined_reason (some r) = reverted_on_chain

module _ (order_hash : Order → Text) (chain : Answers) where
  -- The loop over the dropped orders.
  pub drop_order : Order → Book → Book
  unfolding get put leave
  drop_order o st =
      let h = order_hash o in
      record st {
        orders = set_status (rejected limit_not_met) (get h st.orders) h st.orders;
        in_flight = leave h st.in_flight;
        stats = record st.stats { rejected = st.stats.rejected + 1 };
      }

  -- The loops over orders that were tried in vain.
  pub fail_order : ℕ → Reason → Order → Book → Book
  unfolding on_order
  fail_order max reason o = on_order (fail_attempt max reason) (tally_failed max) (order_hash o)

  unfoldable pub retry_found : Reason → Order → Option Pending → Book → Book
  unfolding fail_order
  retry_found reason o none st = st
  retry_found reason o (some p) st =
      if is_pending p.status then fail_order max_attempts reason o st else st

  -- The same, after an error: an order that is no longer pending is passed over.
  pub retry_order : Reason → Order → Book → Book
  unfolding retry_found get
  retry_order reason o st = retry_found reason o (get (order_hash o) st.orders) st

  pub mark_settling : Text → Order → Book → Book
  unfolding set_status get
  mark_settling tx o st =
      let h = order_hash o in
      record st { orders = set_status (settling tx) (get h st.orders) h st.orders }

  pub fill_order : Solved → Text → Order → Book → Book
  unfolding on_order two_sided alone_for buy_amount
  fill_order s tx o =
      let both = two_sided s.batch in
      on_order (with_status (filled tx (buy_amount o s.batch s.clearing) (alone_for s o) both))
        (tally_filled both) (order_hash o)

  pub unmined_order : Reason → Order → Book → Book
  unfolding on_order unmined_attempt
  unmined_order reason o = on_order (unmined_attempt reason) tally_rejected (order_hash o)

  record_of : Solved → Text → BatchRecord
  unfolding fee_in has_succeeded gas_of residual netted_a
  record_of s tx =
      let res = residual s.batch s.clearing in
      let fee_b = fee_in s.batch.b s.sim in
      let fee_a = fee_in s.batch.a s.sim in
      let in_b = not (ltb_ℤ fee_b fee_a) in
      record {
        at = chain.mined_at;
        tx_hash = tx;
        token_a = s.batch.a;
        token_b = s.batch.b;
        orders = length (all_orders s.batch);
        netted_a = netted_a s.batch s.clearing;
        residual_a = res.a;
        residual_b = res.b;
        fee_token = if in_b then s.batch.b else s.batch.a;
        fee = if in_b then fee_b else fee_a;
        gas_used = gas_of chain.receipt;
        ok = has_succeeded chain.receipt;
      }

  -- `record`, of which 200 are kept.
  remember_batch : BatchRecord → Book → Book
  remember_batch r st =
      let all = r ∷ st.recent_batches in
      record st { recent_batches = if ltb 200 (length all) then drop_last all else all }

  -- From the receipt on.
  unfoldable pub on_receipt : Solved → Text → Book → Book
  unfolding remember_batch record_of has_succeeded fill_order unmined_order unmined_reason each
  on_receipt s tx st =
      let kept = remember_batch (record_of s tx) st in
      if has_succeeded chain.receipt
      then each (fill_order s tx) (all_orders s.batch)
          (record kept { stats = record kept.stats { batches = kept.stats.batches + 1 } })
      else each (unmined_order (unmined_reason chain.receipt)) (all_orders s.batch) (record kept {
        stats = record kept.stats { batches_failed = kept.stats.batches_failed + 1 };
      })

  -- From the answer to the send on.
  on_sent : Solved → Sent → Book → Book
  unfolding on_receipt fail_order mark_settling each pause_ms
  on_sent s (sent_as tx) st = on_receipt s tx (each (mark_settling tx) (all_orders s.batch) st)
  on_sent s (send_refused message) st =
      each (fail_order (max_attempts * 2) (could_not_submit message)) (all_orders s.batch)
        (record st { send_paused_until = chain.refused_at + pause_ms message })

  -- From the dry run on.
  on_dry_run : Solved → Option Text → Book → Book
  unfolding on_sent fail_order each
  on_dry_run s none st = on_sent s chain.sent st
  on_dry_run s (some e) st = each (fail_order max_attempts (would_revert e)) (all_orders s.batch) st

  -- `os.map((o) => pendingOf(o).signature)` finds them all.
  all_known : List Order → Book → Bool
  unfolding get
  all_known [] st = true
  all_known (o ∷ os) st = is_some (get (order_hash o) st.orders) && all_known os st

  unfoldable pub settle_pair : PairBatch → SolveResult → Book → Book
  unfolding on_dry_run drop_order retry_order all_known each
  settle_pair pb thrown st = st
  settle_pair pb (error e dropped) st =
      each (retry_order (not_solved e)) (all_orders pb) (each drop_order dropped st)
  settle_pair pb (solved s) st =
      let rest = each drop_order s.dropped st in
      if all_known (all_orders s.batch) rest then on_dry_run s chain.dry_error rest else rest
