-- ===== src/Batch/Windows/Kept.antt =====
-- What stands in the batcher's book after a window, apps/batcher/src/main.ts.
use mathlib.Core.List.{Mem, not-mem-nil, mem-cons, mem-append_left, mem-append_right}
use mathlib.Core.List.Perm
use mathlib.Core.Logic.Or
use ordofi.Base.{
  ℕ, ◌+◌, ◌<◌, List, [], ◌∷◌, ◌++◌, true, not, ◌&&◌, ◌||◌, Option, or_else, ltb, ◌==◌, any, if_elim,
  ◌≡◌, refl, sym, ap, ◌∙◌,
}
use ordofi.Base.Text.{Text, text_eq}
use ordofi.Base.Assoc.{TextMap, put}
use ordofi.Batch.Types.{Order}
use ordofi.Batch.Pairs.{PairBatch, all_orders, group_by_pair}
use ordofi.Batch.Pairs.Partition.{orders_of, group_by_pair-perm}
use ordofi.Batch.Solve.SolveResult.{thrown}
use ordofi.Batch.Book.{OrderStatus, Pending, Book, is_pending, each, with_status}
use ordofi.Batch.Book.OrderStatus.{pending, awaiting_deposit, expired}
use ordofi.Batch.Book.Fair.{IsFair, IsKept, AreKept, IsFairBook, put-AreKept, with_fair}
use ordofi.Batch.Settle.{settle_pair}
use ordofi.Batch.Settle.Limits.{settle_pair-thrown, settle_pair-IsFairBook}
use ordofi.Batch.Windows.{
  Window, Scan, has_lapsed, scan_entry, scan, confirm_deposit, on_deposits, confirm_deposits,
  forget_old, orders_in, is_empty_map, solution, settle_batch, settle_ready, tick, is_awaiting,
  is_settling, fly_all,
}

Order-IsSet : IsSet Order
Order-IsSet = hlevel

module _ (order_hash : Order → Text) (named : Text → Order) where
  -- The orders that wait for a deposit, as they will be once it is there.
  confirmed : TextMap Pending → TextMap Pending
  confirmed [] = []
  confirmed ((h, p) ∷ m) = (h, with_status pending p) ∷ confirmed m

  record ScanIsKept (s : Scan) : Type 0 where
    orders_kept : AreKept order_hash named s.orders
    ready_kept : AreKept order_hash named s.ready
    checks_kept : AreKept order_hash named (confirmed s.deposit_checks)

  scan_entry-kept :
      (now : ℕ) (in_flight : List Text) (h : Text) (p : Pending) (rest : Scan)
      → IsKept order_hash named h p
      → ScanIsKept rest
      → ScanIsKept (scan_entry now in_flight h p rest)
  unfolding scan_entry AreKept confirmed
  scan_entry-kept now in_flight h p rest k r =
      let lapsed = with_fair order_hash named h p (with_status expired p) refl tt k in
      if_elim ScanIsKept (has_lapsed now p)
        (λ _. record {
          orders_kept = (lapsed, r.orders_kept);
          ready_kept = r.ready_kept;
          checks_kept = r.checks_kept;
        })
        (λ _.
          if_elim ScanIsKept (any (text_eq h) in_flight)
            (λ _. record {
              orders_kept = (k, r.orders_kept);
              ready_kept = r.ready_kept;
              checks_kept = r.checks_kept;
            })
            (λ _.
              if_elim ScanIsKept (is_awaiting p.status)
                (λ t. record {
                  orders_kept = (k, r.orders_kept);
                  ready_kept = r.ready_kept;
                  checks_kept = (
                    with_fair order_hash named h p (with_status pending p) refl
                        (tries p.order p.attempts p.status t k.fair) k,
                    r.checks_kept,
                  );
                })
                (λ _.
                  if_elim ScanIsKept (is_pending p.status)
                    (λ _. record {
                      orders_kept = (k, r.orders_kept);
                      ready_kept = (k, r.ready_kept);
                      checks_kept = r.checks_kept;
                    })
                    (λ _. record {
                      orders_kept = (k, r.orders_kept);
                      ready_kept = r.ready_kept;
                      checks_kept = r.checks_kept;
                    }))))
    where
      tries : (o : Order) (n : ℕ) (s : OrderStatus) → is_awaiting s ≡ true → IsFair o n s → n < 6
      tries o n awaiting_deposit t f = f
      tries o n _ t f = absurd cc

  scan-kept :
      (now : ℕ) (in_flight : List Text) (m : TextMap Pending)
      → AreKept order_hash named m
      → ScanIsKept (scan now in_flight m)
  unfolding scan AreKept confirmed
  scan-kept now in_flight [] k = record { orders_kept = tt; ready_kept = tt; checks_kept = tt }
  scan-kept now in_flight ((h, p) ∷ m) k =
      scan_entry-kept now in_flight h p _ k.0 (scan-kept now in_flight m k.1)

  AreKept-append :
      (es fs : TextMap Pending)
      → AreKept order_hash named es
      → AreKept order_hash named fs
      → AreKept order_hash named (es ++ fs)
  unfolding AreKept
  AreKept-append [] fs k l = l
  AreKept-append ((h, p) ∷ es) fs k l = (k.0, AreKept-append es fs k.1 l)

  forget_old-kept :
      (cutoff : ℕ) (m : TextMap Pending)
      → AreKept order_hash named m
      → AreKept order_hash named (forget_old cutoff m)
  unfolding forget_old AreKept
  forget_old-kept cutoff [] k = tt
  forget_old-kept cutoff ((h, p) ∷ m) k =
      if_elim (AreKept order_hash named)
        (ltb p.received_at cutoff && not (is_pending p.status) && not (is_settling p.status))
        (λ _. forget_old-kept cutoff m k.1) (λ _. (k.0, forget_old-kept cutoff m k.1))

  BothKept : TextMap Pending × TextMap Pending → Type 0
  BothKept (orders, ready) = AreKept order_hash named orders × AreKept order_hash named ready

  confirm_deposit-kept :
      (escrowed : Text → Option ℕ) (h : Text) (p : Pending)
      (acc : TextMap Pending × TextMap Pending)
      → IsKept order_hash named h (with_status pending p)
      → BothKept acc
      → BothKept (confirm_deposit escrowed (h, p) acc)
  unfolding confirm_deposit BothKept AreKept
  confirm_deposit-kept escrowed h p (orders, ready) k both =
      let q = with_status pending p in
      let put_kept : BothKept (put h q orders, ready ++ (h, q) ∷ []) = (
        put-AreKept order_hash named h q orders both.0 k,
        AreKept-append ready ((h, q) ∷ []) both.1 (k, tt),
      ) in
      if_elim BothKept (or_else (escrowed h) 0 == p.order.sell_amount) (λ _. put_kept) (λ _. both)

  confirm_deposits-kept :
      (escrowed : Text → Option ℕ) (checks : TextMap Pending)
      (acc : TextMap Pending × TextMap Pending)
      → AreKept order_hash named (confirmed checks)
      → BothKept acc
      → BothKept (confirm_deposits escrowed checks acc)
  unfolding confirm_deposits AreKept confirmed
  confirm_deposits-kept escrowed [] acc k both = both
  confirm_deposits-kept escrowed ((h, p) ∷ checks) acc k both =
      confirm_deposits-kept escrowed checks _ k.1 (confirm_deposit-kept escrowed h p acc k.0 both)

  -- The hash of a kept order stands for it.
  names_kept :
      (es : TextMap Pending) (o : Order)
      → AreKept order_hash named es
      → Mem o (orders_in es)
      → named (order_hash o) ≡ o
  unfolding AreKept
  names_kept [] o k m = absurd (not-mem-nil m)
  names_kept ((h, p) ∷ es) o k m =
      Or.elim (Order-IsSet _ _) (mem-cons.0 m)
        (λ e. rw e (ap named (k.0).hash_eq ∙ sym (k.0).named_eq)) (names_kept es o k.1)

  module _ (fee_bps max_fee_bps : ℕ) (w : Window) where
    settle_batch-kept :
        (pb : PairBatch) (st : Book)
        → ((o : Order) → Mem o (all_orders pb) → named (order_hash o) ≡ o)
        → IsFairBook order_hash named st
        → IsFairBook order_hash named (settle_batch order_hash fee_bps max_fee_bps w pb st)
    unfolding settle_batch solution
    settle_batch-kept pb st names b =
        if_elim (λ r. IsFairBook order_hash named (settle_pair order_hash (w.chain pb) pb r st))
          (w.routes_throw pb) (λ _. thrown_kept)
          (λ _.
            settle_pair-IsFairBook order_hash named (w.chain pb) (w.simulate pb) (w.best_ab pb)
              (w.best_ba pb) fee_bps max_fee_bps pb names st b)
      where
        thrown_kept : IsFairBook order_hash named (settle_pair order_hash (w.chain pb) pb thrown st)
        thrown_kept = settle_pair-thrown order_hash named (w.chain pb) pb st b

    batches-kept :
        (pbs : List PairBatch) (st : Book)
        → ((o : Order) → Mem o (orders_of pbs) → named (order_hash o) ≡ o)
        → IsFairBook order_hash named st
        → IsFairBook order_hash named (each (settle_batch order_hash fee_bps max_fee_bps w) pbs st)
    unfolding each
    batches-kept [] st names b = b
    batches-kept (pb ∷ pbs) st names b =
        batches-kept pbs _ (λ o m. names o (mem-append_right (all_orders pb) m))
          (settle_batch-kept pb st (λ o m. names o (mem-append_left (orders_of pbs) m)) b)

    settle_ready-kept :
        (ready : TextMap Pending) (st : Book)
        → AreKept order_hash named ready
        → IsFairBook order_hash named st
        → IsFairBook order_hash named (settle_ready order_hash fee_bps max_fee_bps w ready st)
    unfolding settle_ready IsFairBook
    settle_ready-kept ready st r b = forget_old-kept _ _ (
        batches-kept (group_by_pair (orders_in ready))
          (record st { in_flight = fly_all ready st.in_flight })
          (λ o m. names_kept ready o r ((Perm.mem_iff (group_by_pair-perm (orders_in ready))).0 m))
          b)

    on_deposits-kept :
        (acc : TextMap Pending × TextMap Pending) (st : Book)
        → BothKept acc
        → IsFairBook order_hash named (on_deposits order_hash fee_bps max_fee_bps w acc st)
    unfolding on_deposits IsFairBook BothKept
    on_deposits-kept (orders, ready) st both =
        let confirmed = record st { orders = orders } in
        if_elim (IsFairBook order_hash named)
          (is_empty_map ready || ltb w.sends_at st.send_paused_until) {x = confirmed}
          {y = settle_ready order_hash fee_bps max_fee_bps w ready confirmed} (λ _. both.0)
          (λ _. settle_ready-kept ready confirmed both.1 both.0)

    -- Where the hashes stand for the orders: if each filled order got at least what it asked for and
    -- each waiting one failed less than six times, then so it is after a window, whatever the
    -- escrow, the routes, the simulations and the chain answer to it.
    pub tick-IsFairBook :
        (st : Book)
        → IsFairBook order_hash named st
        → IsFairBook order_hash named (tick order_hash fee_bps max_fee_bps w st)
    unfolding tick IsFairBook BothKept
    tick-IsFairBook st b =
        let seen = scan w.start_s st.in_flight st.orders in
        let s = scan-kept w.start_s st.in_flight st.orders b in
        on_deposits-kept _
          (record st {
            orders = seen.orders;
            stats = record st.stats {
              windows = st.stats.windows + 1;
              expired = st.stats.expired + seen.expired_now;
            };
          })
          (confirm_deposits-kept w.escrowed _ _ s.checks_kept (s.orders_kept, s.ready_kept))
