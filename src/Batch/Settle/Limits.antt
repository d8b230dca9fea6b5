-- ===== src/Batch/Settle/Limits.antt =====
-- What stands in the batcher's book after `settlePair`: amounts within the limits, and attempts.
use mathlib.Core.List.{Mem, mem-append_right}
use mathlib.Core.List.Perm
use mathlib.Core.Path.{subst}
use ordofi.Base.{
  ℕ, ◌+◌, ◌*◌, ◌≤◌, ◌<◌, List, [], Bool, true, false, Option, none, some, leb, if◌then◌else◌,
  if_elim, ◌≡◌, refl, sym, ◌∙◌, arith, keep-nil, All-mem,
}
use ordofi.Base.Text.{Text}
use ordofi.Base.Assoc.{TextMap, get}
use ordofi.Batch.Types.{Order, Price, SimToken, Interaction}
use ordofi.Batch.Pairs.{PairBatch, all_orders}
use ordofi.Batch.Pricing.{Clearing, buy_amount, misses_limit, limit_failures}
use ordofi.Batch.Solve.{BestRoute, Solved, SolveResult, solve}
use ordofi.Batch.Solve.SolveResult.{solved, error, thrown}
use ordofi.Batch.Solve.Sound.{ResultIsSound, solve-IsSound}
use ordofi.Batch.Book.{
  Reason, OrderStatus, Pending, Book, each, with_status, fail_attempt, tally_failed, tally_rejected,
  tally_filled, is_pending,
}
use ordofi.Batch.Book.OrderStatus.{pending, awaiting_deposit, settling, filled, rejected}
use ordofi.Batch.Book.Reason.{limit_not_met, not_solved, would_revert, could_not_submit}
use ordofi.Batch.Book.Fair.{
  IsFair, IsKept, AreKept, IsFairBook, get-IsKept, put-AreKept, on_order-IsFairBook,
  each-IsFairBook, with_fair,
}
use ordofi.Batch.Settle.{
  Answers, Sent, sent_as, send_refused, set_status, drop_order, fail_order, retry_found,
  retry_order, mark_settling, fill_order, unmined_attempt, unmined_order, unmined_reason,
  on_receipt, on_sent, on_dry_run, all_known, settle_pair, max_attempts, two_sided, alone_for,
  has_succeeded, remember_batch,
}

module _ (order_hash : Order → Text) (named : Text → Order) (chain : Answers) where
  set_status-kept :
      (s : OrderStatus) (h : Text) (found : Option Pending) (m : TextMap Pending)
      → ((p : Pending) → IsKept order_hash named h p → IsKept order_hash named h (with_status s p))
      → get h m ≡ found
      → AreKept order_hash named m
      → AreKept order_hash named (set_status s found h m)
  unfolding set_status
  set_status-kept s h none m keeps e b = b
  set_status-kept s h (some p) m keeps e b =
      put-AreKept order_hash named h (with_status s p) m b
        (keeps p (get-IsKept order_hash named h p m b e))

  fail_attempt-fair :
      (h : Text) (max : ℕ) (reason : Reason) (p : Pending)
      → max ≤ 6
      → IsKept order_hash named h p
      → IsKept order_hash named h (fail_attempt max reason p)
  fail_attempt-fair h max reason p m k =
      if_elim (IsKept order_hash named h) (leb max (p.attempts + 1))
        (λ _. with_fair order_hash named h p _ refl tt k)
        (λ t.
          with_fair order_hash named h p _ refl (waits p.status (p.attempts) (ground arith) k.fair)
            k)
    where
      waits : (s : OrderStatus) (n : ℕ) → n + 1 < 6 → IsFair p.order n s → IsFair p.order (n + 1) s
      waits pending n l f = l
      waits awaiting_deposit n l f = l
      waits (filled tx amount alone netted) n l f = f
      waits _ n l f = tt

  fail_order-fair :
      (max : ℕ) (reason : Reason) (o : Order) (st : Book)
      → max ≤ 6
      → IsFairBook order_hash named st
      → IsFairBook order_hash named (fail_order order_hash chain max reason o st)
  unfolding fail_order
  fail_order-fair max reason o st m b =
      on_order-IsFairBook order_hash named (fail_attempt max reason) (tally_failed max)
        (order_hash o) st (λ p k. fail_attempt-fair (order_hash o) max reason p m k) b

  retry_order-fair :
      (reason : Reason) (o : Order) (st : Book)
      → IsFairBook order_hash named st
      → IsFairBook order_hash named (retry_order order_hash chain reason o st)
  unfolding retry_order
  retry_order-fair reason o st b = by_entry (get (order_hash o) st.orders)
    where
      by_entry :
          (found : Option Pending)
          → IsFairBook order_hash named (retry_found order_hash chain reason o found st)
      by_entry none = b
      by_entry (some p) =
          if_elim (IsFairBook order_hash named) (is_pending p.status)
            (λ _. fail_order-fair max_attempts reason o st (omega arith) b) (λ _. b)

  unmined_order-fair :
      (reason : Reason) (o : Order) (st : Book)
      → IsFairBook order_hash named st
      → IsFairBook order_hash named (unmined_order order_hash chain reason o st)
  unfolding unmined_order unmined_attempt
  unmined_order-fair reason o st b =
      on_order-IsFairBook order_hash named (unmined_attempt reason) tally_rejected (order_hash o) st
        (λ p k.
          with_fair order_hash named (order_hash o) p _ refl
            (by_test p.order (p.attempts + 1) (leb max_attempts (p.attempts + 1)) refl) k)
        b
    where
      by_test :
          (o : Order) (n : ℕ) (t : Bool)
          → leb max_attempts n ≡ t
          → IsFair o n (if t then rejected reason else pending)
      by_test o n true e = tt
      by_test o n false e = ground arith

  drop_order-fair :
      (o : Order) (st : Book)
      → IsFairBook order_hash named st
      → IsFairBook order_hash named (drop_order order_hash chain o st)
  unfolding drop_order IsFairBook
  drop_order-fair o st b =
      let h = order_hash o in
      set_status-kept (rejected limit_not_met) h (get h st.orders) st.orders
        (λ p k. with_fair order_hash named h p _ refl tt k) refl b

  mark_settling-fair :
      (tx : Text) (o : Order) (st : Book)
      → IsFairBook order_hash named st
      → IsFairBook order_hash named (mark_settling order_hash chain tx o st)
  unfolding mark_settling IsFairBook
  mark_settling-fair tx o st b =
      let h = order_hash o in
      set_status-kept (settling tx) h (get h st.orders) st.orders
        (λ p k. with_fair order_hash named h p _ refl tt k) refl b

  -- An order of a batch that misses no limit, whose hash stands for it, is filled fairly.
  fill_order-fair :
      (s : Solved) (tx : Text) (o : Order) (st : Book)
      → named (order_hash o) ≡ o
      → o.min_buy_amount ≤ buy_amount o s.batch s.clearing
      → IsFairBook order_hash named st
      → IsFairBook order_hash named (fill_order order_hash chain s tx o st)
  unfolding fill_order
  fill_order-fair s tx o st name limit b =
      let amount = buy_amount o s.batch s.clearing in
      let status = filled tx amount (alone_for s o) (two_sided s.batch) in
      on_order-IsFairBook order_hash named (with_status status) (tally_filled (two_sided s.batch))
        (order_hash o) st
        (λ p k.
          with_fair order_hash named (order_hash o) p _ refl
            (subst (λ x. x.min_buy_amount ≤ amount) (sym (k.named_eq ∙ name)) limit) k)
        b

  limits_met :
      (batch : PairBatch) (c : Clearing) (o : Order)
      → limit_failures batch c ≡ []
      → Mem o (all_orders batch)
      → o.min_buy_amount ≤ buy_amount o batch c
  unfolding limit_failures
  limits_met batch c o none_fail m =
      let missed = misses_limit batch c in
      let all = keep-nil missed (all_orders batch) none_fail in
      let met = All-mem (λ x. missed x ≡ false) (λ x. hlevel) (all_orders batch) all m in
      ground arith

  on_receipt-fair :
      (s : Solved) (tx : Text) (st : Book)
      → limit_failures s.batch s.clearing ≡ []
      → ((o : Order) → Mem o (all_orders s.batch) → named (order_hash o) ≡ o)
      → IsFairBook order_hash named st
      → IsFairBook order_hash named (on_receipt order_hash chain s tx st)
  unfolding on_receipt remember_batch IsFairBook
  on_receipt-fair s tx st limits names b =
      if_elim (IsFairBook order_hash named) (has_succeeded chain.receipt)
        (λ _.
          each-IsFairBook order_hash named (fill_order order_hash chain s tx) (all_orders s.batch) _
            (λ o m st.
              fill_order-fair s tx o st (names o m) (limits_met s.batch s.clearing o limits m))
            b)
        (λ _.
          each-IsFairBook order_hash named
            (unmined_order order_hash chain (unmined_reason chain.receipt)) (all_orders s.batch) _
            (λ o m st. unmined_order-fair (unmined_reason chain.receipt) o st) b)

  on_sent-fair :
      (s : Solved) (sent : Sent) (st : Book)
      → limit_failures s.batch s.clearing ≡ []
      → ((o : Order) → Mem o (all_orders s.batch) → named (order_hash o) ≡ o)
      → IsFairBook order_hash named st
      → IsFairBook order_hash named (on_sent order_hash chain s sent st)
  unfolding on_sent IsFairBook
  on_sent-fair s (sent_as tx) st limits names b = on_receipt-fair s tx _ limits names (
      each-IsFairBook order_hash named (mark_settling order_hash chain tx) (all_orders s.batch) st
        (λ o m st. mark_settling-fair tx o st) b)
  on_sent-fair s (send_refused message) st limits names b =
      each-IsFairBook order_hash named
        (fail_order order_hash chain (max_attempts * 2) (could_not_submit message))
        (all_orders s.batch) _
        (λ o m st. fail_order-fair (max_attempts * 2) (could_not_submit message) o st (omega arith))
        b

  on_dry_run-fair :
      (s : Solved) (dry_error : Option Text) (st : Book)
      → limit_failures s.batch s.clearing ≡ []
      → ((o : Order) → Mem o (all_orders s.batch) → named (order_hash o) ≡ o)
      → IsFairBook order_hash named st
      → IsFairBook order_hash named (on_dry_run order_hash chain s dry_error st)
  unfolding on_dry_run
  on_dry_run-fair s none st limits names b = on_sent-fair s chain.sent st limits names b
  on_dry_run-fair s (some e) st limits names b =
      each-IsFairBook order_hash named (fail_order order_hash chain max_attempts (would_revert e))
        (all_orders s.batch) st
        (λ o m st. fail_order-fair max_attempts (would_revert e) o st (omega arith)) b

  drops-fair :
      (dropped : List Order) (st : Book)
      → IsFairBook order_hash named st
      → IsFairBook order_hash named (each (drop_order order_hash chain) dropped st)
  drops-fair dropped st b =
      each-IsFairBook order_hash named (drop_order order_hash chain) dropped st
        (λ o m st. drop_order-fair o st) b

  pub settle_pair-thrown :
      (pb : PairBatch) (st : Book)
      → IsFairBook order_hash named st
      → IsFairBook order_hash named (settle_pair order_hash chain pb thrown st)
  unfolding settle_pair
  settle_pair-thrown pb st b = b

  module _ (simulate : ℕ → List Order → List Price → List Interaction → Option (List SimToken))
      (ab ba : Option BestRoute) (fee_bps max_fee_bps : ℕ) (pb : PairBatch)
      (names : (o : Order) → Mem o (all_orders pb) → named (order_hash o) ≡ o) where
    result-fair :
        (result : SolveResult) (st : Book)
        → ResultIsSound simulate ab ba fee_bps max_fee_bps pb result
        → IsFairBook order_hash named st
        → IsFairBook order_hash named (settle_pair order_hash chain pb result st)
    unfolding ResultIsSound settle_pair
    result-fair (solved s) st h b =
        let rest = each (drop_order order_hash chain) s.dropped st in
        if_elim (IsFairBook order_hash named) (all_known order_hash chain (all_orders s.batch) rest)
          (λ _.
            on_dry_run-fair s chain.dry_error rest h.limits_met
              (λ o m. names o ((Perm.mem_iff h.orders_split).0 (mem-append_right s.dropped m)))
              (drops-fair s.dropped st b))
          (λ _. drops-fair s.dropped st b)
    result-fair (error e dropped) st h b =
        each-IsFairBook order_hash named (retry_order order_hash chain (not_solved e))
          (all_orders pb) _ (λ o m st. retry_order-fair (not_solved e) o st)
          (drops-fair dropped st b)
    result-fair thrown st h b = b

    -- Where the hash of each order of the pair stands for that order: if in the book each entry is the
    -- order its hash stands for, each filled order got at least what it asked for and each waiting
    -- one failed less than six times, then so it is after a settlement, whatever the chain answers.
    pub settle_pair-IsFairBook :
        (st : Book)
        → IsFairBook order_hash named st
        → IsFairBook order_hash named
            (settle_pair order_hash chain pb (solve simulate ab ba fee_bps max_fee_bps pb) st)
    settle_pair-IsFairBook st b =
        result-fair _ st (solve-IsSound simulate ab ba fee_bps max_fee_bps pb) b
