-- ===== src/Auction/Auctioneer/Result.antt =====
-- The outcome of a closed auction.
use ordofi.Base.{
  List, [], true, false, none, some, ◌≡◌, refl, All, All-map, ◌⊎◌, inl, inr, Option-cases,
}
use ordofi.Base.Int.{ℤ, pos, ◌≤ℤ◌}
use ordofi.Base.Text.{Text}
use ordofi.Auction.Ranking.{second_price}
use ordofi.Auction.Ranking.SecondPrice.{
  IsSecondPrice, second_price-IsSecondPrice, second_price-bounds, second_price-none,
}
use ordofi.Auction.Auctioneer.{
  Bid, Outcome, Auction, Event, open_auction, wei_of, outcome_from, outcome_of_bids, run,
}
use ordofi.Auction.Auctioneer.Invariant.{IsCollectable, auction-IsSealed}

-- No bids and no winner, or a second-price winner with a positive price within its own bid.
abbrev pub IsResolved : List Bid → Outcome → Type 0
IsResolved bids o =
    ((bids ≡ []) × (o.winner ≡ none) × (o.clearing_price_wei ≡ pos 0))
    ⊎ ((w : Bid) × (o.winner ≡ some w)
        × IsSecondPrice wei_of bids w o.clearing_price_wei
        × (pos 1 ≤ℤ o.clearing_price_wei)
        × (o.clearing_price_wei ≤ℤ wei_of w))

pub outcome_of_bids-IsResolved :
    (bids : List Bid) → All IsCollectable bids → IsResolved bids (outcome_of_bids bids)
unfolding outcome_of_bids outcome_from
outcome_of_bids-IsResolved bids h = elim (Option-cases (second_price wei_of bids)) [
  | inl e ↦ rw e (inl (second_price-none wei_of bids e, refl, refl))
  | inr ((w, price), e) ↦
      let (low, high) =
        second_price-bounds wei_of (pos 1) bids w price (All-map (λ b c. c.positive) bids h) e in
      rw e (inr (w, refl, second_price-IsSecondPrice wei_of bids w price e, low, high))
]

-- When an auction is closed, whatever bids and timer events led there, its promise holds the outcome
-- of a sealed-bid second-price auction over the bids that it accepted: no winner and no charge if there
-- is none; otherwise a highest bidder, charged the highest of the other bids (its own if there is no
-- other), which is positive and at most what it bid.
pub closed_auction-IsResolved :
    (id : Text) (es : List Event)
    → (run (open_auction id) es).closed ≡ true
    → (o : Outcome) × ((run (open_auction id) es).settled ≡ some o)
      × IsResolved (run (open_auction id) es).bids o
closed_auction-IsResolved id es c = resolve (auction-IsSealed id es).promise
  where
    a : Auction
    a = run (open_auction id) es

    resolve :
        ((a.closed ≡ false) × (a.settled ≡ none))
          ⊎ ((a.closed ≡ true) × (a.settled ≡ some (outcome_of_bids a.bids)))
        → (o : Outcome) × (a.settled ≡ some o) × IsResolved a.bids o
    resolve (inl (pending, _)) = cc (c, pending)
    resolve (inr (_, s)) = (
      outcome_of_bids a.bids,
      s,
      outcome_of_bids-IsResolved a.bids (auction-IsSealed id es).collectable,
    )

pub outcome_of_bids-none :
    (bids : List Bid)
    → second_price wei_of bids ≡ none
    → outcome_of_bids bids ≡ record { winner = none; clearing_price_wei = pos 0 }
unfolding outcome_of_bids outcome_from
outcome_of_bids-none bids e = rw e

pub outcome_of_bids-some :
    (bids : List Bid) (w : Bid) (price : ℤ)
    → second_price wei_of bids ≡ some (w, price)
    → outcome_of_bids bids ≡ record { winner = some w; clearing_price_wei = price }
unfolding outcome_of_bids outcome_from
outcome_of_bids-some bids w price e = rw e
