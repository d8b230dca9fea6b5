-- ===== src/Auction/Tests.antt =====
-- Runs of the auction at concrete bids, and the theorems applied to them.
use ordofi.Base.{ℕ, ◌+◌, ◌*◌, List, [], ◌∷◌, true, none, some, ◌≡◌, refl, All}
use ordofi.Base.Text.{Text, codes, big_int}
use ordofi.Auction.Auctioneer.{
  Bid, Outcome, Auction, Event, bid_arrives, window_end, open_auction, submit_bid, has_backrun,
  outcome_of_bids, close, step, run,
}
use ordofi.Auction.Auctioneer.Invariant.{IsSealed, auction-IsSealed, run_closed}
use ordofi.Auction.Auctioneer.Result.{IsResolved, closed_auction-IsResolved}
use ordofi.Auction.Merkle.{merkle_proof, merkle_root, verify_merkle_proof}
use ordofi.Auction.Merkle.Proofs.{merkle_proof-verifies}
use ordofi.Auction.Receipts.{AuctionReceipt, audit_clearing_price, receipt_of, ok}
use ordofi.Auction.Receipts.Honest.{
  IsNamed, IsSound, honest_receipt_passes, audit_clearing_price-IsSound,
}

abbrev bid_at : Text → Text → Bid
bid_at who wei = record {
  opportunity_id = codes "op";
  searcher = who;
  bid_wei = wei;
  backrun_raw_tx = some (codes "0x02");
  bid_sig = none;
  received_at = 1;
}

-- Two bids, one that is refused, the end of the window, and a bid that comes too late.
abbrev busy_window : List Event
busy_window =
    bid_arrives (bid_at (codes "0xa") (codes "5"))
    ∷ bid_arrives (bid_at (codes "0xb") (codes "9"))
    ∷ bid_arrives (bid_at (codes "0xc") (codes "-3"))
    ∷ window_end
    ∷ bid_arrives (bid_at (codes "0xd") (codes "90"))
    ∷ []

abbrev busy : Auction
busy = run (open_auction (codes "op")) busy_window

busy_closed : busy.closed ≡ true
unfolding run step open_auction submit_bid close has_backrun big_int
busy_closed = refl

busy_bids : busy.bids ≡ bid_at (codes "0xa") (codes "5") ∷ bid_at (codes "0xb") (codes "9") ∷ []
unfolding run step open_auction submit_bid close has_backrun big_int
busy_bids = refl

auction-IsSealed_example : IsSealed (run (open_auction (codes "op")) busy_window)
auction-IsSealed_example = auction-IsSealed (codes "op") busy_window

run_closed_example : run busy busy_window ≡ busy
run_closed_example = run_closed busy busy_window busy_closed

closed_auction-IsResolved_example : (o : Outcome) × (busy.settled ≡ some o) × IsResolved busy.bids o
closed_auction-IsResolved_example = closed_auction-IsResolved (codes "op") busy_window busy_closed

busy-IsNamed : All IsNamed busy.bids
busy-IsNamed = rw busy_bids ((λ e. cc, λ e. cc), ((λ e. cc, λ e. cc), tt))

abbrev busy_receipt : AuctionReceipt
busy_receipt = receipt_of (codes "op") busy.bids (outcome_of_bids busy.bids) 7

honest_receipt_passes_example : audit_clearing_price busy_receipt ≡ some ok
honest_receipt_passes_example = honest_receipt_passes (codes "op") busy_window 7 busy-IsNamed

audit_clearing_price-IsSound_example : IsSound busy_receipt
audit_clearing_price-IsSound_example =
    audit_clearing_price-IsSound busy_receipt honest_receipt_passes_example

-- Three leaves under a toy hash.
abbrev toy_hash : ℕ → ℕ → ℕ
toy_hash a b = 100 * a + b + 1

merkle_proof-verifies_example :
    (proof : List ℕ) × (root : ℕ) × (merkle_proof toy_hash (5 ∷ 3 ∷ 9 ∷ []) 1 ≡ some proof)
    × (merkle_root toy_hash (5 ∷ 3 ∷ 9 ∷ []) ≡ some root)
    × (verify_merkle_proof toy_hash 3 proof root ≡ true)
merkle_proof-verifies_example = merkle_proof-verifies toy_hash (5 ∷ 3 ∷ 9 ∷ []) 1 3 refl
