-- ===== src/Batch/Book.antt =====
-- What the batcher keeps, apps/batcher/src/main.ts: the orders by their hash, the hashes in flight, the
-- last settlements and the counters. Reasons of a rejection stand without the numbers in their text.
pub mod Balance
pub mod Fair
use ordofi.Base.{
  ℕ, zero, suc, ◌+◌, List, [], ◌∷◌, Bool, true, false, not, Option, none, some, leb, if◌then◌else◌,
  keep,
}
use ordofi.Base.Int.{ℤ}
use ordofi.Base.Text.{Text, text_eq}
use ordofi.Base.Assoc.{TextMap, get, put}
use ordofi.Batch.Types.{Order}
use ordofi.Batch.Solve.{SolveError}

pub data Reason : Type 0 where
  limit_not_met : Reason
  not_solved : SolveError → Reason
  would_revert : Text → Reason
  could_not_submit : Text → Reason
  reverted_on_chain not_mined : Reason

pub data OrderStatus : Type 0 where
  pending awaiting_deposit expired : OrderStatus
  settling : Text → OrderStatus
  filled : Text → ℕ → Option ℕ → Bool → OrderStatus
  rejected : Reason → OrderStatus

pub record Pending : Type 0 where
  pub order : Order
  pub signature : Text
  pub deposited : Bool
  pub received_at : ℕ
  pub attempts : ℕ
  pub status : OrderStatus

pub record BatchRecord : Type 0 where
  pub at : ℕ
  pub tx_hash : Text
  pub token_a : Text
  pub token_b : Text
  pub orders : ℕ
  pub netted_a : ℕ
  pub residual_a : ℕ
  pub residual_b : ℕ
  pub fee_token : Text
  pub fee : ℤ
  pub gas_used : Option ℕ
  pub ok : Bool

pub record Stats : Type 0 where
  pub received : ℕ
  pub rejected : ℕ
  pub filled : ℕ
  pub expired : ℕ
  pub batches : ℕ
  pub batches_failed : ℕ
  pub netted : ℕ
  pub windows : ℕ

-- `orders` is keyed by the hash of the order.
pub record Book : Type 0 where
  pub orders : TextMap Pending
  pub in_flight : List Text
  pub send_paused_until : ℕ
  pub recent_batches : List BatchRecord
  pub stats : Stats

abbrev pub is_pending : OrderStatus → Bool
is_pending pending = true
is_pending _ = false

abbrev pub is_rejected : OrderStatus → Bool
is_rejected (rejected r) = true
is_rejected _ = false

-- `inFlight.delete(h)`
unfoldable pub leave : Text → List Text → List Text
unfolding keep
leave h hs = keep (λ j. not (text_eq j h)) hs

-- The body of a loop over orders: the entry changes, its hash leaves the flight, and the counters
-- move by what the entry became.
on_found : (Pending → Pending) → (Pending → Stats → Stats) → Text → Option Pending → Book → Book
on_found change tally h none st = st
on_found change tally h (some p) st =
    let q = change p in
    record st {
      orders = put h q st.orders;
      in_flight = leave h st.in_flight;
      stats = tally q st.stats;
    }

unfoldable pub on_order : (Pending → Pending) → (Pending → Stats → Stats) → Text → Book → Book
unfolding on_found
on_order change tally h st = on_found change tally h (get h st.orders) st

-- `for (const x of xs) ...`
unfoldable pub each {ℓ} : {A : Type ℓ} → (A → Book → Book) → List A → Book → Book
each body [] st = st
each body (x ∷ xs) st = each body xs (body x st)

abbrev pub with_status : OrderStatus → Pending → Pending
with_status s p = record p { status = s }

-- `p.attempts++`, and a rejection once `max` is reached.
abbrev pub fail_attempt : ℕ → Reason → Pending → Pending
fail_attempt max reason p =
    if leb max (p.attempts + 1)
    then record p { attempts = p.attempts + 1; status = rejected reason }
    else record p { attempts = p.attempts + 1 }

abbrev pub tally_failed : ℕ → Pending → Stats → Stats
tally_failed max p s = if leb max p.attempts then record s { rejected = s.rejected + 1 } else s

abbrev pub tally_rejected : Pending → Stats → Stats
tally_rejected p s = if is_rejected p.status then record s { rejected = s.rejected + 1 } else s

abbrev pub tally_filled : Bool → Pending → Stats → Stats
tally_filled two_sided p s = record s {
  filled = s.filled + 1;
  netted = if two_sided then s.netted + 1 else s.netted;
}
