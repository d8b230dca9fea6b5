-- ===== src/Auction/Auctioneer.antt =====
-- The class `Auction` of apps/auction/src/auctioneer.ts.
--
-- A stored bid has passed `submitBid`, so its amount converts (Auction/Auctioneer/Invariant); `wei_of`
-- has 0 where `BigInt` would throw. `settled` is the promise: `none` while it is pending.
pub mod Invariant
pub mod Result
use ordofi.Base.{
  ℕ, zero, suc, List, [], ◌∷◌, ◌++◌, Bool, true, false, Option, none, some, or_else, if◌then◌else◌,
}
use ordofi.Base.Int.{ℤ, pos, ltb_ℤ}
use ordofi.Base.Text.{Text, big_int, starts_with_0x}
use ordofi.Auction.Ranking.{second_price}

pub record Bid : Type 0 where
  pub opportunity_id : Text
  pub searcher : Text
  pub bid_wei : Text
  pub backrun_raw_tx : Option Text
  pub bid_sig : Option Text
  pub received_at : ℕ

-- What the promise resolves to.
pub record Outcome : Type 0 where
  pub winner : Option Bid
  pub clearing_price_wei : ℤ

pub record Auction : Type 0 where
  pub opportunity_id : Text
  pub bids : List Bid
  pub closed : Bool
  pub settled : Option Outcome

pub data Refusal : Type 0 where
  auction_closed invalid_bid_wei bid_not_positive missing_backrun : Refusal

pub data Reply : Type 0 where
  accepted : Reply
  refused : Refusal → Reply

-- The constructor; closing the window is the event `window_end`.
unfoldable pub open_auction : Text → Auction
open_auction id = record { opportunity_id = id; bids = []; closed = false; settled = none }

abbrev pub wei_of : Bid → ℤ
wei_of b = or_else (big_int b.bid_wei) (pos 0)

-- `bid.backrunRawTx?.startsWith("0x")`
unfoldable pub has_backrun : Option Text → Bool
unfolding starts_with_0x
has_backrun none = false
has_backrun (some tx) = starts_with_0x tx

-- What `submitBid` does with the converted amount, if it converts.
admit : Bid → Auction → Option ℤ → Auction × Reply
admit bid a none = (a, refused invalid_bid_wei)
admit bid a (some wei) =
    if ltb_ℤ wei (pos 1)
    then (a, refused bid_not_positive)
    else if has_backrun bid.backrun_raw_tx
    then (record a { bids = a.bids ++ bid ∷ [] }, accepted)
    else (a, refused missing_backrun)

-- `submitBid`
unfoldable pub submit_bid : Bid → Auction → Auction × Reply
unfolding admit
submit_bid bid a =
    if a.closed then (a, refused auction_closed) else admit bid a (big_int bid.bid_wei)

-- What the sealed bids resolve to.
outcome_from : Option (Bid × ℤ) → Outcome
outcome_from none = record { winner = none; clearing_price_wei = pos 0 }
outcome_from (some (w, price)) = record { winner = some w; clearing_price_wei = price }

unfoldable pub outcome_of_bids : List Bid → Outcome
unfolding outcome_from
outcome_of_bids bids = outcome_from (second_price wei_of bids)

-- `close`
unfoldable pub close : Auction → Auction
close a =
    if a.closed then a else record a { closed = true; settled = some (outcome_of_bids a.bids) }

-- What reaches an auction: bids in any order, and the timer of its window.
pub data Event : Type 0 where
  bid_arrives : Bid → Event
  window_end : Event

unfoldable pub step : Auction → Event → Auction
unfolding submit_bid close
step a (bid_arrives b) = (submit_bid b a).0
step a window_end = close a

unfoldable pub run : Auction → List Event → Auction
run a [] = a
run a (e ∷ es) = run (step a e) es
