-- ===== src/Auction/Receipts.antt =====
-- The checks that a receipt passes, packages/core/src/receipt.ts, and what the auctioneer publishes,
-- apps/auction/src/receipts.ts.
--
-- Signatures are the section parameter `Crypto`: the auctioneer's key is used by a library. `none` is
-- an exception: `BigInt` of a malformed amount, or a recovery that fails.
pub mod Honest
use ordofi.Base.{
  ℕ, List, [], ◌∷◌, Bool, true, false, not, ◌||◌, Option, none, some, or_else, ◌>>=◌, if◌then◌else◌,
  map,
}
use ordofi.Base.Int.{ℤ, pos, eqb_ℤ}
use ordofi.Base.Text.{Text, codes, text_eq, to_lower_case, big_int}
use ordofi.Base.Text.Decimal.{to_string}
use ordofi.Auction.Ranking.{second_price}
use ordofi.Auction.Auctioneer.{Bid, Outcome}

abbrev pub zero_address : Text
zero_address = codes "0x0000000000000000000000000000000000000000"

pub record ReceiptBid : Type 0 where
  pub searcher : Text
  pub bid_wei : Text
  pub received_at : ℕ
  pub bid_sig : Option Text

pub record BidAck : Type 0 where
  pub opportunity_id : Text
  pub searcher : Text
  pub bid_wei : Text
  pub received_at : ℕ
  pub signature : Text

pub record AuctionReceipt : Type 0 where
  pub opportunity_id : Text
  pub bids : List ReceiptBid
  pub winner : Option Text
  pub clearing_price_wei : Text
  pub closed_at : ℕ
  pub signature : Option Text

pub data Reason : Type 0 where
  different_opportunity signature_malformed not_by_auctioneer ack_not_by_auctioneer : Reason
  bid_missing bid_altered no_bid_signature bid_signature_malformed wrong_signer : Reason
  winner_without_bids no_winner not_highest wrong_price : Reason

pub data AuditFinding : Type 0 where
  ok : AuditFinding
  bad : Reason → AuditFinding

-- The amounts of the bids, in order; `none` if one does not convert.
unfoldable pub amounts_of : List ReceiptBid → Option (List (ReceiptBid × ℤ))
amounts_of [] = some []
amounts_of (b ∷ bids) = do n ← big_int b.bid_wei; rest ← amounts_of bids; some ((b, n) ∷ rest)

-- `!receipt.winner || receipt.winner === ZERO_ADDRESS`
unfoldable pub no_winner_in : Option Text → Bool
no_winner_in none = true
no_winner_in (some w) = text_eq w [] || text_eq w zero_address

check_price : Option ℤ → ℤ → Option AuditFinding
check_price none expected = none
check_price (some charged) expected = some (if eqb_ℤ charged expected then ok else bad wrong_price)

-- The checks against the highest bid and the price that it should pay.
check_winner : AuctionReceipt → ReceiptBid → ℤ → Option AuditFinding
check_winner r highest expected =
    if no_winner_in r.winner
    then some (bad no_winner)
    else if not (text_eq (to_lower_case (or_else r.winner [])) (to_lower_case highest.searcher))
    then some (bad not_highest)
    else check_price (big_int r.clearing_price_wei) expected

abbrev pub amount_of : ReceiptBid × ℤ → ℤ
amount_of (b, n) = n

check_outcome : AuctionReceipt → Option ((ReceiptBid × ℤ) × ℤ) → Option AuditFinding
check_outcome r none = some (if no_winner_in r.winner then ok else bad winner_without_bids)
check_outcome r (some ((highest, _), expected)) = check_winner r highest expected

-- `auditClearingPrice`
unfoldable pub audit_clearing_price : AuctionReceipt → Option AuditFinding
unfolding amounts_of check_outcome check_winner no_winner_in check_price
audit_clearing_price r = do bids ← amounts_of r.bids; check_outcome r (second_price amount_of bids)

-- What the libraries do: recovery of the signer of a receipt, of an acknowledgement, and of a bid on an
-- opportunity. `none` is an exception.
pub record Crypto : Type 0 where
  pub receipt_signer : AuctionReceipt → Option Text
  pub ack_signer : BidAck → Option Text
  pub bid_signer : Text → ReceiptBid → Option Text

abbrev pub same_address : Text → Text → Bool
same_address a b = text_eq (to_lower_case a) (to_lower_case b)

module _ (crypto : Crypto) where
  check_signer : ReceiptBid → Option Text → AuditFinding
  check_signer b none = bad bid_signature_malformed
  check_signer b (some signer) = if same_address signer b.searcher then ok else bad wrong_signer

  -- One round of `auditBidAuthenticity`.
  check_bid : Text → ReceiptBid → Option Text → AuditFinding
  unfolding check_signer
  check_bid id b none = bad no_bid_signature
  check_bid id b (some sig) =
      if text_eq sig [] then bad no_bid_signature else check_signer b (crypto.bid_signer id b)

  -- `if (!finding.ok) return finding; …`
  abbrev and_then : AuditFinding → AuditFinding → AuditFinding
  and_then ok next = next
  and_then (bad reason) next = bad reason

  -- `auditBidAuthenticity`
  unfoldable pub audit_bid_authenticity : Text → List ReceiptBid → AuditFinding
  unfolding check_bid
  audit_bid_authenticity id [] = ok
  audit_bid_authenticity id (b ∷ bids) =
      and_then (check_bid id b b.bid_sig) (audit_bid_authenticity id bids)

  -- `receipt.bids.find((b) => lower(b.searcher) === lower(ack.searcher))`
  find_bid : Text → List ReceiptBid → Option ReceiptBid
  find_bid s [] = none
  find_bid s (b ∷ bids) = if same_address b.searcher s then some b else find_bid s bids

  -- The last steps of `auditReceipt`: the settlement signatures, if asked for, and the arithmetic.
  audit_rest : AuctionReceipt → Bool → Option AuditFinding
  unfolding audit_bid_authenticity audit_clearing_price
  audit_rest r settlement =
      elim (if settlement then audit_bid_authenticity r.opportunity_id r.bids else ok) [
        | ok ↦ audit_clearing_price r
        | bad reason ↦ some (bad reason)
      ]

  -- The acknowledged bid against the receipt's.
  audit_mine : AuctionReceipt → BidAck → Bool → Option ReceiptBid → Option AuditFinding
  unfolding audit_rest
  audit_mine r ack settlement none = some (bad bid_missing)
  audit_mine r ack settlement (some mine) = do
    listed ← big_int mine.bid_wei
    acked ← big_int ack.bid_wei
    if eqb_ℤ listed acked then audit_rest r settlement else some (bad bid_altered)

  audit_signers :
      AuctionReceipt → BidAck → Text → Bool → Option Text → Option Text → Option AuditFinding
  unfolding audit_mine find_bid
  audit_signers r ack auctioneer settlement (some receipt_by) (some ack_by) =
      if not (same_address receipt_by auctioneer)
      then some (bad not_by_auctioneer)
      else if not (same_address ack_by auctioneer)
      then some (bad ack_not_by_auctioneer)
      else audit_mine r ack settlement (find_bid ack.searcher r.bids)
  audit_signers r ack auctioneer settlement _ _ = some (bad signature_malformed)

  -- `auditReceipt`; `settlement` says whether the settlement contract is given.
  unfoldable pub audit_receipt : AuctionReceipt → BidAck → Text → Bool → Option AuditFinding
  unfolding audit_signers
  audit_receipt r ack auctioneer settlement =
      if not (same_address r.opportunity_id ack.opportunity_id)
      then some (bad different_opportunity)
      else audit_signers r ack auctioneer settlement (crypto.receipt_signer r)
          (crypto.ack_signer ack)

-- The bids of a receipt, as `publishReceipt` lists them.
unfoldable pub receipt_bid : Bid → ReceiptBid
receipt_bid b = record {
  searcher = b.searcher;
  bid_wei = b.bid_wei;
  received_at = b.received_at;
  bid_sig = b.bid_sig;
}

winner_name : Option Bid → Option Text
winner_name none = none
winner_name (some w) = some w.searcher

-- The receipt that `handleSubmit` has published for an outcome, before it is signed.
unfoldable pub receipt_of : Text → List Bid → Outcome → ℕ → AuctionReceipt
unfolding receipt_bid winner_name to_string
receipt_of id bids o now = record {
  opportunity_id = id;
  bids = map receipt_bid bids;
  winner = winner_name o.winner;
  clearing_price_wei = to_string o.clearing_price_wei;
  closed_at = now;
  signature = none;
}
