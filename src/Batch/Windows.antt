-- ===== src/Batch/Windows.antt =====
-- `tick` of apps/batcher/src/main.ts: what is done at the end of each window.
--
-- The clock, the escrow and what settling each pair meets are arguments. Pairs are settled one
-- after the other here and at the same time in the source; they hold different orders. Deposits are
-- confirmed in the order in which they were asked for.
pub mod Kept
use mathlib.Core.List.{map}
use ordofi.Base.{
  ℕ, ◌+◌, ◌-◌, List, [], ◌∷◌, ◌++◌, Bool, true, false, not, ◌&&◌, ◌||◌, Option, none, some, or_else,
  ltb, leb, ◌==◌, if◌then◌else◌, any,
}
use ordofi.Base.Text.{Text, text_eq}
use ordofi.Base.Assoc.{TextMap, get, put}
use ordofi.Batch.Types.{Order, Price, SimToken, Interaction}
use ordofi.Batch.Pairs.{PairBatch, group_by_pair}
use ordofi.Batch.Solve.{BestRoute, SolveResult, solve}
use ordofi.Batch.Solve.SolveResult.{thrown}
use ordofi.Batch.Book.{OrderStatus, Pending, Stats, Book, is_pending, leave, each, with_status}
use ordofi.Batch.Book.OrderStatus.{pending, awaiting_deposit, expired, settling}
use ordofi.Batch.Settle.{Answers, settle_pair, set_status}

abbrev pub is_awaiting : OrderStatus → Bool
is_awaiting awaiting_deposit = true
is_awaiting _ = false

abbrev pub is_settling : OrderStatus → Bool
is_settling (settling tx) = true
is_settling _ = false

-- What a window meets: the clock in seconds at its start, in milliseconds after the deposits and at
-- the end, the escrow (`none` for a failed call), and for each pair whether the search for routes
-- throws, the best routes, the contract's simulation and the chain.
pub record Window : Type 0 where
  pub start_s : ℕ
  pub sends_at : ℕ
  pub ends_at : ℕ
  pub escrowed : Text → Option ℕ
  pub routes_throw : PairBatch → Bool
  pub best_ab : PairBatch → Option BestRoute
  pub best_ba : PairBatch → Option BestRoute
  pub simulate : PairBatch → ℕ → List Order → List Price → List Interaction → Option (List SimToken)
  pub chain : PairBatch → Answers

-- The first loop: the orders, those that are ready, those that wait for a deposit, and how many expired.
pub record Scan : Type 0 where
  pub orders : TextMap Pending
  pub ready : TextMap Pending
  pub deposit_checks : TextMap Pending
  pub expired_now : ℕ

unfoldable pub has_lapsed : ℕ → Pending → Bool
has_lapsed now p = (is_pending p.status || is_awaiting p.status) && leb p.order.valid_to (now + 1)

-- One round of the loop, `rest` being the later ones.
unfoldable pub scan_entry : ℕ → List Text → Text → Pending → Scan → Scan
unfolding has_lapsed
scan_entry now in_flight h p rest =
    if has_lapsed now p
    then record rest {
      orders = (h, with_status expired p) ∷ rest.orders;
      expired_now = rest.expired_now + 1;
    }
    else if any (text_eq h) in_flight
    then record rest { orders = (h, p) ∷ rest.orders }
    else if is_awaiting p.status
    then record rest {
      orders = (h, p) ∷ rest.orders;
      deposit_checks = (h, p) ∷ rest.deposit_checks;
    }
    else if is_pending p.status
    then record rest { orders = (h, p) ∷ rest.orders; ready = (h, p) ∷ rest.ready }
    else record rest { orders = (h, p) ∷ rest.orders }

unfoldable pub scan : ℕ → List Text → TextMap Pending → Scan
unfolding scan_entry
scan now in_flight [] = record { orders = []; ready = []; deposit_checks = []; expired_now = 0 }
scan now in_flight ((h, p) ∷ m) = scan_entry now in_flight h p (scan now in_flight m)

-- The checks of the deposits: an order whose whole amount is in escrow becomes pending and is ready.
unfoldable pub confirm_deposit :
    (Text → Option ℕ)
    → Text × Pending
    → TextMap Pending × TextMap Pending
    → TextMap Pending × TextMap Pending
unfolding put
confirm_deposit escrowed (h, p) (orders, ready) =
    if or_else (escrowed h) 0 == p.order.sell_amount
    then (put h (with_status pending p) orders, ready ++ (h, with_status pending p) ∷ [])
    else (orders, ready)

unfoldable pub confirm_deposits :
    (Text → Option ℕ)
    → TextMap Pending
    → TextMap Pending × TextMap Pending
    → TextMap Pending × TextMap Pending
unfolding confirm_deposit
confirm_deposits escrowed [] acc = acc
confirm_deposits escrowed (e ∷ checks) acc =
    confirm_deposits escrowed checks (confirm_deposit escrowed e acc)

-- `inFlight.add(p.hash)`
abbrev fly : List Text → Text × Pending → List Text
fly hs (h, p) = if any (text_eq h) hs then hs else hs ++ h ∷ []

fly_all : TextMap Pending → List Text → List Text
fly_all [] hs = hs
fly_all (e ∷ es) hs = fly_all es (fly hs e)

land_all : TextMap Pending → List Text → List Text
unfolding leave
land_all [] hs = hs
land_all ((h, p) ∷ es) hs = land_all es (leave h hs)

-- Finished orders are forgotten after ten minutes.
forget_old : ℕ → TextMap Pending → TextMap Pending
forget_old cutoff [] = []
forget_old cutoff ((h, p) ∷ m) =
    let rest = forget_old cutoff m in
    if ltb p.received_at cutoff && not (is_pending p.status) && not (is_settling p.status)
    then rest
    else (h, p) ∷ rest

abbrev orders_in : TextMap Pending → List Order
orders_in es = map (λ e. (e.1).order) es

abbrev is_empty_map : TextMap Pending → Bool
is_empty_map [] = true
is_empty_map (e ∷ es) = false

module _ (order_hash : Order → Text) (fee_bps max_fee_bps : ℕ) (w : Window) where
  solution : PairBatch → SolveResult
  unfolding solve
  solution pb =
      if w.routes_throw pb
      then thrown
      else solve (w.simulate pb) (w.best_ab pb) (w.best_ba pb) fee_bps max_fee_bps pb

  settle_batch : PairBatch → Book → Book
  unfolding solution settle_pair
  settle_batch pb st = settle_pair order_hash (w.chain pb) pb (solution pb) st

  -- From the orders that are ready on.
  settle_ready : TextMap Pending → Book → Book
  unfolding settle_batch fly_all land_all forget_old each group_by_pair
  settle_ready ready st =
      let flying = record st { in_flight = fly_all ready st.in_flight } in
      let settled = each settle_batch (group_by_pair (orders_in ready)) flying in
      record settled {
        orders = forget_old (w.ends_at - 600000) settled.orders;
        in_flight = land_all ready settled.in_flight;
      }

  -- From the deposits on.
  unfoldable pub on_deposits : TextMap Pending × TextMap Pending → Book → Book
  unfolding settle_ready
  on_deposits (orders, ready) st =
      let confirmed = record st { orders = orders } in
      if is_empty_map ready || ltb w.sends_at st.send_paused_until
      then confirmed
      else settle_ready ready confirmed

  unfoldable pub tick : Book → Book
  unfolding on_deposits scan confirm_deposits
  tick st =
      let seen = scan w.start_s st.in_flight st.orders in
      on_deposits (confirm_deposits w.escrowed seen.deposit_checks (seen.orders, seen.ready))
        (record st {
          orders = seen.orders;
          stats = record st.stats {
            windows = st.stats.windows + 1;
            expired = st.stats.expired + seen.expired_now;
          };
        })
