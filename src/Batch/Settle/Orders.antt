-- ===== src/Batch/Settle/Orders.antt =====
-- What the bodies of the loops in `settlePair`, apps/batcher/src/main.ts, do to one order.
use mathlib.Core.Option
use ordofi.Base.{
  ℕ, ◌+◌, true, Option, none, some, if◌then◌else◌, if_elim, ◌≡◌, ◌≢◌, refl, sym, ap, ◌∙◌, inl, inr,
  arith, Bool-cases,
}
use ordofi.Base.Text.{Text, text_eq, text_eq_iff}
use ordofi.Base.Assoc.{TextMap, get, get-put}
use ordofi.Batch.Types.{Order}
use ordofi.Batch.Pricing.{buy_amount}
use ordofi.Batch.Solve.{Solved}
use ordofi.Batch.Book.{
  Reason, OrderStatus, Pending, Book, is_pending, with_status, fail_attempt, tally_failed,
  tally_rejected, tally_filled,
}
use ordofi.Batch.Book.OrderStatus.{pending, settling, filled, rejected}
use ordofi.Batch.Book.Reason.{limit_not_met}
use ordofi.Batch.Book.Balance.{
  live_count, live_count-put, live, live_at, total, is_live, on_order-total, on_order-frame,
}
use ordofi.Batch.Settle.{
  Answers, set_status, drop_order, fail_order, retry_found, mark_settling, two_sided, alone_for,
  fill_order, unmined_attempt, unmined_order, max_attempts,
}

module _ (order_hash : Order → Text) (chain : Answers) where
  pub fail_order-total :
      (max : ℕ) (reason : Reason) (o : Order) (st : Book)
      → live_at (get (order_hash o) st.orders) ≡ true
      → total (fail_order order_hash chain max reason o st) ≡ total st
  unfolding fail_order
  fail_order-total max reason o st l =
      on_order-total (fail_attempt max reason) (tally_failed max) (order_hash o) st
        (λ p s one. ground arith) l

  pub fail_order-frame :
      (max : ℕ) (reason : Reason) (o : Order) (j : Text) (st : Book)
      → order_hash o ≢ j
      → get j (fail_order order_hash chain max reason o st).orders ≡ get j st.orders
  unfolding fail_order
  fail_order-frame max reason o j st n =
      on_order-frame (fail_attempt max reason) (tally_failed max) (order_hash o) j st n

  pub retry_found-total :
      (reason : Reason) (o : Order) (found : Option Pending) (st : Book)
      → get (order_hash o) st.orders ≡ found
      → total (retry_found order_hash chain reason o found st) ≡ total st
  unfolding retry_found
  retry_found-total reason o none st e = refl
  retry_found-total reason o (some p) st e =
      if_elim (λ b. total b ≡ total st) (is_pending p.status)
        (λ t. fail_order-total max_attempts reason o st (ap live_at e ∙ pending_live p.status t))
        (λ _. refl)
    where
      pending_live : (s : OrderStatus) → is_pending s ≡ true → is_live s ≡ true
      pending_live pending t = refl
      pending_live _ t = absurd cc

  pub unmined_order-total :
      (reason : Reason) (o : Order) (st : Book)
      → live_at (get (order_hash o) st.orders) ≡ true
      → total (unmined_order order_hash chain reason o st) ≡ total st
  unfolding unmined_order unmined_attempt
  unmined_order-total reason o st l =
      on_order-total (unmined_attempt reason) tally_rejected (order_hash o) st
        (λ p s one. ground arith) l

  pub fill_order-total :
      (s : Solved) (tx : Text) (o : Order) (st : Book)
      → live_at (get (order_hash o) st.orders) ≡ true
      → total (fill_order order_hash chain s tx o st) ≡ total st
  unfolding fill_order
  fill_order-total s tx o st l =
      let both = two_sided s.batch in
      let status = filled tx (buy_amount o s.batch s.clearing) (alone_for s o) both in
      on_order-total (with_status status) (tally_filled both) (order_hash o) st
        (λ p c one. ground arith) l

  set_status-at :
      (s : OrderStatus) (h j : Text) (found : Option Pending) (m : TextMap Pending)
      → get h m ≡ found
      → get j (set_status s found h m)
        ≡ (if text_eq h j then Option.map (with_status s) found else get j m)
  unfolding set_status
  set_status-at s h j none m e = elim (Bool-cases (text_eq h j)) [
    | inl t ↦ rw (t, sym ((text_eq_iff h j).0 t)) e
    | inr t ↦ rw t refl
  ]
  set_status-at s h j (some p) m e = get-put h j (with_status s p) m

  pub mark_settling-frame :
      (tx : Text) (o : Order) (j : Text) (st : Book)
      → order_hash o ≢ j
      → get j (mark_settling order_hash chain tx o st).orders ≡ get j st.orders
  unfolding mark_settling
  mark_settling-frame tx o j st n =
      let h = order_hash o in
      set_status-at (settling tx) h j (get h st.orders) st.orders refl
      ∙ ground (arith, text_eq_iff h j)

  set_status-count :
      (s : OrderStatus) (h : Text) (found : Option Pending) (m : TextMap Pending)
      → get h m ≡ found
      → live_at found ≡ true
      → live_count (set_status s found h m) + 1 ≡ live_count m + (if is_live s then 1 else 0)
  unfolding set_status
  set_status-count s h none m e l = absurd cc
  set_status-count s h (some p) m e l =
      let one : live p ≡ 1 = ap (λ b. if b then 1 else 0) l in
      omega (arith, one, live_count-put h p (with_status s p) m e)

  settling-live :
      (tx : Text) (found : Option Pending)
      → live_at found ≡ true
      → live_at (Option.map (with_status (settling tx)) found) ≡ true
  settling-live tx none l = l
  settling-live tx (some p) l = refl

  pub mark_settling-live :
      (tx : Text) (o : Order) (j : Text) (st : Book)
      → live_at (get j st.orders) ≡ true
      → live_at (get j (mark_settling order_hash chain tx o st).orders) ≡ true
  unfolding mark_settling
  mark_settling-live tx o j st l =
      let h = order_hash o in
      rw (set_status-at (settling tx) h j (get h st.orders) st.orders refl)
        (elim (Bool-cases (text_eq h j)) [
          | inl t ↦ rw (t, (text_eq_iff h j).0 t) (settling-live tx (get j st.orders) l)
          | inr t ↦ rw t l
        ])

  pub mark_settling-total :
      (tx : Text) (o : Order) (st : Book)
      → live_at (get (order_hash o) st.orders) ≡ true
      → total (mark_settling order_hash chain tx o st) ≡ total st
  unfolding mark_settling total
  mark_settling-total tx o st l =
      let h = order_hash o in
      omega (arith, set_status-count (settling tx) h (get h st.orders) st.orders refl l)

  pub drop_order-total :
      (o : Order) (st : Book)
      → live_at (get (order_hash o) st.orders) ≡ true
      → total (drop_order order_hash chain o st) ≡ total st
  unfolding drop_order total
  drop_order-total o st l =
      let h = order_hash o in
      omega (arith, set_status-count (rejected limit_not_met) h (get h st.orders) st.orders refl l)

  pub drop_order-frame :
      (o : Order) (j : Text) (st : Book)
      → order_hash o ≢ j
      → get j (drop_order order_hash chain o st).orders ≡ get j st.orders
  unfolding drop_order
  drop_order-frame o j st n =
      let h = order_hash o in
      set_status-at (rejected limit_not_met) h j (get h st.orders) st.orders refl
      ∙ ground (arith, text_eq_iff h j)

  pub unmined_order-frame :
      (reason : Reason) (o : Order) (j : Text) (st : Book)
      → order_hash o ≢ j
      → get j (unmined_order order_hash chain reason o st).orders ≡ get j st.orders
  unfolding unmined_order
  unmined_order-frame reason o j st n =
      on_order-frame (unmined_attempt reason) tally_rejected (order_hash o) j st n

  pub fill_order-frame :
      (s : Solved) (tx : Text) (o : Order) (j : Text) (st : Book)
      → order_hash o ≢ j
      → get j (fill_order order_hash chain s tx o st).orders ≡ get j st.orders
  unfolding fill_order
  fill_order-frame s tx o j st n =
      on_order-frame _ (tally_filled (two_sided s.batch)) (order_hash o) j st n
