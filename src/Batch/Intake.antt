-- ===== src/Batch/Intake.antt =====
-- `intake` of apps/batcher/src/main.ts: how an order enters the book.
--
-- What the chain answers is an argument, `none` for a call that throws. Numbers are exact: where
-- JavaScript would round a `validTo`, the order is refused for being too far ahead. An order whose
-- amounts do not fit the contract's types cannot be hashed.
pub mod Funded
pub mod Read
pub mod Entered
use ordofi.Base.{
  ℕ, zero, suc, ◌+◌, ◌^◌, ◌*◌, List, [], ◌∷◌, Bool, true, false, not, ◌&&◌, ◌||◌, Option, none,
  some, or_else, ltb, leb, ◌==◌, if◌then◌else◌, length,
}
use ordofi.Base.Int.{ℤ, pos, negsuc, ltb_ℤ}
use ordofi.Base.Text.{Text, codes, text_eq, to_lower_case, big_int}
use ordofi.Base.Assoc.{get, put}
use ordofi.Batch.Types.{Order, as_token, zero_token}
use ordofi.Batch.Form.{
  IntakeError, Checked, ◌>>=◌, ◌>>◌, demand, required, RawOrder, ParsedOrder, is_hex_of,
  parse_order,
}
use ordofi.Batch.Form.Checked.{passed, refused}
use ordofi.Batch.Form.IntakeError.{
  order_required, not_positive, same_tokens, pays_ether, in_the_past, too_far_ahead,
  cannot_be_hashed, call_failed, nonce_used, escrow_differs, signature_length, not_the_owner,
  balance_too_low, allowance_too_low,
}
use ordofi.Batch.Book.{OrderStatus, Pending, Book}
use ordofi.Batch.Book.OrderStatus.{pending, awaiting_deposit}

-- What the chain answers to an intake; `signer` is none within where the signature recovers no one.
pub record Lookups : Type 0 where
  pub nonce_used_answer : Option Bool
  pub escrowed : Option ℕ
  pub signer : Option Text
  pub has_code : Option Bool
  pub balance : Option ℕ
  pub allowance : Option ℕ

-- `uint256` and `uint32`, as the order is hashed.
abbrev fits : ℕ → ℤ → Option ℕ
fits width (pos n) = if ltb n (2 ^ width) then some n else none
fits width (negsuc n) = none

unfoldable pub hashable : ParsedOrder → Checked Order
hashable o = do
  sell_amount ← required (fits 256 o.sell_amount) cannot_be_hashed
  min_buy_amount ← required (fits 256 o.min_buy_amount) cannot_be_hashed
  valid_to ← required (fits 32 o.valid_to) cannot_be_hashed
  nonce ← required (fits 256 o.nonce) cannot_be_hashed
  passed (record {
    owner = o.owner;
    receiver = o.receiver;
    sell_token = o.sell_token;
    buy_token = o.buy_token;
    sell_amount = sell_amount;
    min_buy_amount = min_buy_amount;
    valid_to = valid_to;
    nonce = nonce;
    app_data = o.app_data;
  })

-- The checks before the hash, at the time `now` in seconds.
unfoldable pub check_terms : ℕ → ℕ → ParsedOrder → Checked (Unit {0})
unfolding as_token text_eq
check_terms now max_valid_s o = do
  demand (ltb_ℤ (pos 0) o.sell_amount) not_positive
  demand (not (text_eq (as_token o.sell_token) (as_token o.buy_token))) same_tokens
  demand (not (text_eq o.sell_token zero_token)) pays_ether
  demand (ltb_ℤ (pos (now + 1)) o.valid_to) in_the_past
  demand (not (ltb_ℤ (pos (now + max_valid_s)) o.valid_to)) too_far_ahead

escrow_status : Order → ℕ → Checked OrderStatus
escrow_status o esc =
    if esc == 0
    then passed awaiting_deposit
    else demand (esc == o.sell_amount) escrow_differs >> passed pending

-- No signature: the order waits for its deposit, or has it.
unfoldable pub check_escrow : Lookups → Order → Checked OrderStatus
unfolding escrow_status
check_escrow chain o = do esc ← required chain.escrowed call_failed; escrow_status o esc

-- `canPull`
unfoldable pub can_pull : Lookups → Order → Checked (Unit {0})
can_pull chain o = do
  allowance ← required chain.allowance call_failed
  balance ← required chain.balance call_failed
  demand (leb o.sell_amount balance) balance_too_low
  demand (leb o.sell_amount allowance) allowance_too_low

is_owner : Text → Option Text → Bool
unfolding text_eq
is_owner owner none = false
is_owner owner (some who) = text_eq who owner

-- A contract's signature is left to the contract.
signed_by : Lookups → Order → Checked (Unit {0})
unfolding is_owner
signed_by chain o =
    if is_owner o.owner chain.signer
    then passed tt
    else required chain.has_code call_failed >>= λ code. demand code not_the_owner

unfoldable pub check_signature : Lookups → Order → Text → Checked OrderStatus
unfolding is_hex_of signed_by can_pull
check_signature chain o signature = do
  demand (is_hex_of 130 signature) signature_length
  signed_by chain o
  can_pull chain o
  passed pending

abbrev pub is_deposited : Text → Bool
is_deposited signature = text_eq signature [] || text_eq signature (codes "0x")

-- `orders.set(hash, ...)`
unfoldable pub enter : Text → Order → Text → ℕ → OrderStatus → Book → Book
unfolding put
enter hash o signature now_ms status st =
    let deposited = is_deposited signature in
    record st {
      orders =
          put hash
            (record {
              order = o;
              signature = if deposited then codes "0x" else signature;
              deposited = deposited;
              received_at = now_ms;
              attempts = 0;
              status = status;
            })
            st.orders;
      stats = record st.stats { received = st.stats.received + 1 };
    }

-- The answer to the request: the hash and the status, and the book after it.
pub record Accepted : Type 0 where
  pub hash : Text
  pub status : OrderStatus
  pub book : Book

module _ (order_hash : Order → Text) (chain : Lookups) (now now_ms max_valid_s : ℕ) where
  -- What follows for an order that is not in the book.
  unfoldable pub take_new : Order → Text → Book → Checked Accepted
  unfolding check_escrow check_signature enter
  take_new o signature st = do
    used ← required chain.nonce_used_answer call_failed
    demand (not used) nonce_used
    status ←
        (if is_deposited signature then check_escrow chain o else check_signature chain o signature)
    passed (record {
      hash = order_hash o;
      status = status;
      book = enter (order_hash o) o signature now_ms status st;
    })

  on_existing : Option Pending → Order → Text → Book → Checked Accepted
  unfolding take_new
  on_existing none o signature st = take_new o signature st
  on_existing (some p) o signature st =
      passed (record { hash = order_hash o; status = p.status; book = st })

  -- `intake`, with `none` for a body without an order.
  unfoldable pub intake : Option RawOrder → Text → Book → Checked Accepted
  unfolding parse_order check_terms hashable on_existing get
  intake body signature st = do
    raw ← required body order_required
    parsed ← parse_order raw
    check_terms now max_valid_s parsed
    o ← hashable parsed
    on_existing (get (order_hash o) st.orders) o signature st
