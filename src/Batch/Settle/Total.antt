-- ===== src/Batch/Settle/Total.antt =====
-- `settlePair` accounts for every order of the pair.
use mathlib.Core.List.{Nodup, Nodup-append, map-append, mem-append_left, mem-append_right}
use mathlib.Core.List.Perm
use ordofi.Base.{
  ℕ, ◌+◌, ◌*◌, List, [], ◌∷◌, ◌++◌, Option, none, some, map, if_elim, ◌≡◌, refl, sym, ap, ◌∙◌,
}
use ordofi.Base.Text.{Text}
use ordofi.Batch.Types.{Order, Price, SimToken, Interaction}
use ordofi.Batch.Pairs.{PairBatch, all_orders}
use ordofi.Batch.Pause.{pause_ms}
use ordofi.Batch.Solve.{BestRoute, SolveError, Solved, SolveResult, solve}
use ordofi.Batch.Solve.SolveResult.{solved, error, thrown}
use ordofi.Batch.Solve.Rounds.{Splits}
use ordofi.Batch.Solve.Sound.{ResultIsSound, solve-IsSound}
use ordofi.Batch.Book.{Reason, Book, each}
use ordofi.Batch.Book.Reason.{not_solved, would_revert, could_not_submit}
use ordofi.Batch.Book.Balance.{live_at, total, AreLive, each-frame, each-total, each-AreLive}
use ordofi.Batch.Settle.{
  Answers, Sent, sent_as, send_refused, drop_order, fail_order, retry_order, remember_batch,
  has_succeeded, unmined_reason, mark_settling, fill_order, unmined_order, on_receipt, on_sent,
  on_dry_run, all_known, settle_pair, max_attempts,
}
use ordofi.Batch.Settle.Orders.{
  fail_order-total, fail_order-frame, retry_found-total, unmined_order-total, unmined_order-frame,
  fill_order-total, fill_order-frame, mark_settling-frame, mark_settling-live, mark_settling-total,
  drop_order-total, drop_order-frame,
}

module _ (order_hash : Order → Text) (chain : Answers) where
  abbrev hashes : List Order → List Text
  hashes os = map order_hash os

  fails-total :
      (max : ℕ) (reason : Reason) (os : List Order) (st : Book)
      → Nodup (hashes os)
      → AreLive (hashes os) st
      → total (each (fail_order order_hash chain max reason) os st) ≡ total st
  fails-total max reason os st d l =
      each-total order_hash (fail_order order_hash chain max reason)
        (fail_order-frame order_hash chain max reason) os st
        (fail_order-total order_hash chain max reason) d l

  retries-total :
      (reason : Reason) (os : List Order) (st : Book)
      → total (each (retry_order order_hash chain reason) os st) ≡ total st
  unfolding each retry_order
  retries-total reason [] st = refl
  retries-total reason (o ∷ os) st =
      retries-total reason os _ ∙ retry_found-total order_hash chain reason o _ st refl

  on_receipt-total :
      (s : Solved) (tx : Text) (st : Book)
      → Nodup (hashes (all_orders s.batch))
      → AreLive (hashes (all_orders s.batch)) st
      → total (on_receipt order_hash chain s tx st) ≡ total st
  unfolding on_receipt remember_batch total AreLive
  on_receipt-total s tx st d l =
      if_elim (λ b. total b ≡ total st) (has_succeeded chain.receipt)
        (λ _.
          each-total order_hash (fill_order order_hash chain s tx)
            (fill_order-frame order_hash chain s tx) (all_orders s.batch) _
            (fill_order-total order_hash chain s tx) d l)
        (λ _.
          each-total order_hash (unmined_order order_hash chain (unmined_reason chain.receipt))
            (unmined_order-frame order_hash chain _) (all_orders s.batch) _
            (unmined_order-total order_hash chain _) d l)

  on_sent-total :
      (s : Solved) (sent : Sent) (st : Book)
      → Nodup (hashes (all_orders s.batch))
      → AreLive (hashes (all_orders s.batch)) st
      → total (on_sent order_hash chain s sent st) ≡ total st
  unfolding on_sent AreLive total
  on_sent-total s (sent_as tx) st d l =
      on_receipt-total s tx _ d (
        each-AreLive (mark_settling order_hash chain tx) (mark_settling-live order_hash chain tx)
          (all_orders s.batch) _ st l)
      ∙ each-total order_hash (mark_settling order_hash chain tx)
          (mark_settling-frame order_hash chain tx) (all_orders s.batch) st
          (mark_settling-total order_hash chain tx) d l
  on_sent-total s (send_refused message) st d l =
      fails-total (max_attempts * 2) (could_not_submit message) (all_orders s.batch)
        (record st { send_paused_until = chain.refused_at + pause_ms message }) d l

  on_dry_run-total :
      (s : Solved) (dry_error : Option Text) (st : Book)
      → Nodup (hashes (all_orders s.batch))
      → AreLive (hashes (all_orders s.batch)) st
      → total (on_dry_run order_hash chain s dry_error st) ≡ total st
  unfolding on_dry_run
  on_dry_run-total s none st d l = on_sent-total s chain.sent st d l
  on_dry_run-total s (some e) st d l =
      fails-total max_attempts (would_revert e) (all_orders s.batch) st d l

  -- After the dropped orders come those that are left, which the loop over the dropped did not touch.
  drops-total :
      (dropped left : List Order) (st : Book)
      → Nodup (hashes dropped ++ hashes left)
      → AreLive (hashes dropped ++ hashes left) st
      → (total (each (drop_order order_hash chain) dropped st) ≡ total st)
        × Nodup (hashes left)
        × AreLive (hashes left) (each (drop_order order_hash chain) dropped st)
  unfolding AreLive
  drops-total dropped left st d l =
      let drop = drop_order order_hash chain in
      let frame = drop_order-frame order_hash chain in
      let (dropped_d, left_d, apart) = Nodup-append.0 d in
      (
        each-total order_hash drop frame dropped st (drop_order-total order_hash chain) dropped_d
            (λ h m. l h (mem-append_left (hashes left) m)),
        left_d,
        λ h m.
            ap live_at (each-frame order_hash drop frame dropped h st (λ n. apart h n m))
            ∙ l h (mem-append_right (hashes dropped) m),
      )

  -- What is known of the pair's orders is known of those dropped and those left.
  split-Nodup :
      (pb : PairBatch) (dropped left : List Order)
      → Splits pb dropped left
      → Nodup (hashes (all_orders pb))
      → Nodup (hashes dropped ++ hashes left)
  split-Nodup pb dropped left p d =
      rw (sym (map-append order_hash dropped left))
        (Perm.nodup (Perm.symm (Perm.map order_hash p)) d)

  split-AreLive :
      (pb : PairBatch) (dropped left : List Order) (st : Book)
      → Splits pb dropped left
      → AreLive (hashes (all_orders pb)) st
      → AreLive (hashes dropped ++ hashes left) st
  unfolding AreLive
  split-AreLive pb dropped left st p l =
      rw (sym (map-append order_hash dropped left))
        (λ h m. l h ((Perm.mem_iff (Perm.map order_hash p)).0 m))

  settled-total :
      (pb : PairBatch) (s : Solved) (st : Book)
      → Splits pb s.dropped (all_orders s.batch)
      → Nodup (hashes (all_orders pb))
      → AreLive (hashes (all_orders pb)) st
      → total (settle_pair order_hash chain pb (solved s) st) ≡ total st
  unfolding settle_pair
  settled-total pb s st p d l =
      let rest = each (drop_order order_hash chain) s.dropped st in
      let (e, left_d, left_l) =
        drops-total s.dropped (all_orders s.batch) st
          (split-Nodup pb s.dropped (all_orders s.batch) p d)
          (split-AreLive pb s.dropped (all_orders s.batch) st p l) in
      if_elim (λ b. total b ≡ total st) (all_known order_hash chain (all_orders s.batch) rest)
        (λ _. on_dry_run-total s chain.dry_error rest left_d left_l ∙ e) (λ _. e)

  error-total :
      (pb : PairBatch) (e : SolveError) (dropped left : List Order) (st : Book)
      → Splits pb dropped left
      → Nodup (hashes (all_orders pb))
      → AreLive (hashes (all_orders pb)) st
      → total (settle_pair order_hash chain pb (error e dropped) st) ≡ total st
  unfolding settle_pair
  error-total pb e dropped left st p d l =
      retries-total (not_solved e) (all_orders pb) (each (drop_order order_hash chain) dropped st)
      ∙ (drops-total dropped left st (split-Nodup pb dropped left p d)
          (split-AreLive pb dropped left st p l)).0

  module _ (simulate : ℕ → List Order → List Price → List Interaction → Option (List SimToken))
      (ab ba : Option BestRoute) (fee_bps max_fee_bps : ℕ) (pb : PairBatch) where
    result-total :
        (result : SolveResult) (st : Book)
        → ResultIsSound simulate ab ba fee_bps max_fee_bps pb result
        → Nodup (hashes (all_orders pb))
        → AreLive (hashes (all_orders pb)) st
        → total (settle_pair order_hash chain pb result st) ≡ total st
    unfolding ResultIsSound settle_pair
    result-total (solved s) st h d l = settled-total pb s st h.orders_split d l
    result-total (error e dropped) st h d l = error-total pb e dropped h.0 st h.1 d l
    result-total thrown st h d l = refl

    -- A settlement neither loses an order nor counts it twice: where the orders of the pair have
    -- different hashes and are known and not yet ended, the orders that ended (filled, rejected or
    -- expired, by the counters) and those that may still be filled are as many after it as before,
    -- whatever the chain answers to the simulations, the dry run, the send and the wait.
    pub settle_pair-total :
        (st : Book)
        → Nodup (hashes (all_orders pb))
        → AreLive (hashes (all_orders pb)) st
        → total (settle_pair order_hash chain pb (solve simulate ab ba fee_bps max_fee_bps pb) st)
          ≡ total st
    settle_pair-total st d l =
        result-total _ st (solve-IsSound simulate ab ba fee_bps max_fee_bps pb) d l
