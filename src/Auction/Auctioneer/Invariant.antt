-- ===== src/Auction/Auctioneer/Invariant.antt =====
-- What holds of an auction after any bids and timer events.
use ordofi.Base.{
  List, [], ◌∷◌, Bool, true, false, Option, none, some, ◌≡◌, refl, arith, All, All-append, ◌⊎◌, inl,
  inr, if_elim,
}
use ordofi.Base.Int.{ℤ, pos, ltb_ℤ, ◌≤ℤ◌}
use ordofi.Base.Text.{Text, big_int}
use ordofi.Auction.Auctioneer.{
  Bid, Auction, Reply, Event, bid_arrives, window_end, open_auction, wei_of, has_backrun, admit,
  submit_bid, outcome_of_bids, close, step, run,
}

-- The amount converts to a positive integer, and there is a transaction to run.
pub record IsCollectable (b : Bid) : Type 0 where
  pub converts : big_int b.bid_wei ≡ some (wei_of b)
  pub positive : pos 1 ≤ℤ wei_of b
  pub backrun : has_backrun b.backrun_raw_tx ≡ true

pub record IsSealed (a : Auction) : Type 0 where
  pub collectable : All IsCollectable a.bids
  pub promise :
      ((a.closed ≡ false) × (a.settled ≡ none))
      ⊎ ((a.closed ≡ true) × (a.settled ≡ some (outcome_of_bids a.bids)))

admit-IsSealed :
    (b : Bid) (a : Auction) (wei : Option ℤ)
    → big_int b.bid_wei ≡ wei
    → a.closed ≡ false
    → IsSealed a
    → IsSealed (admit b a wei).0
unfolding admit
admit-IsSealed b a none e o h = h
admit-IsSealed b a (some wei) e o h =
    if_elim (λ (r : Auction × Reply). IsSealed r.0) (ltb_ℤ wei (pos 1)) (λ _. h)
      λ positive.
        if_elim (λ (r : Auction × Reply). IsSealed r.0) (has_backrun b.backrun_raw_tx)
          (λ backed. record {
            collectable =
                All-append IsCollectable a.bids (b ∷ []) h.collectable (
                  record { converts = rw e; positive = rw e (ground arith); backrun = backed },
                  tt,
                );
            promise = inl (o, pending a.closed o h.promise);
          })
          (λ _. h)
  where
    pending :
        (c : Bool)
        → c ≡ false
        → ((c ≡ false) × (a.settled ≡ none))
          ⊎ ((c ≡ true) × (a.settled ≡ some (outcome_of_bids a.bids)))
        → a.settled ≡ none
    pending c q (inl (_, s)) = s
    pending c q (inr (t, s)) = cc

submit_bid-IsSealed : (b : Bid) (a : Auction) → IsSealed a → IsSealed (submit_bid b a).0
unfolding submit_bid
submit_bid-IsSealed b a h =
    if_elim (λ (r : Auction × Reply). IsSealed r.0) a.closed (λ _. h)
      (λ o. admit-IsSealed b a (big_int b.bid_wei) refl o h)

close-IsSealed : (a : Auction) → IsSealed a → IsSealed (close a)
unfolding close
close-IsSealed a h =
    if_elim IsSealed a.closed (λ _. h)
      (λ _. record { collectable = h.collectable; promise = inr (refl, refl) })

run-IsSealed : (a : Auction) (es : List Event) → IsSealed a → IsSealed (run a es)
unfolding run step
run-IsSealed a [] h = h
run-IsSealed a (bid_arrives b ∷ es) h =
    run-IsSealed (submit_bid b a).0 es (submit_bid-IsSealed b a h)
run-IsSealed a (window_end ∷ es) h = run-IsSealed (close a) es (close-IsSealed a h)

-- Whatever bids arrive, before and after its window ends, an auction holds only bids whose amount
-- converts to a positive number and which carry a transaction, and its promise is pending while it is
-- open and holds the outcome of its bids once it is closed.
pub auction-IsSealed : (id : Text) (es : List Event) → IsSealed (run (open_auction id) es)
unfolding open_auction
auction-IsSealed id es =
    run-IsSealed (open_auction id) es (record { collectable = tt; promise = inl (refl, refl) })

submit_bid_closed : (b : Bid) (a : Auction) → a.closed ≡ true → (submit_bid b a).0 ≡ a
unfolding submit_bid
submit_bid_closed b a e = if_elim (λ (r : Auction × Reply). r.0 ≡ a) a.closed (λ _. refl) (λ o. cc)

close_closed : (a : Auction) → a.closed ≡ true → close a ≡ a
unfolding close
close_closed a e = if_elim (λ r. r ≡ a) a.closed (λ _. refl) (λ o. cc)

-- The bids are sealed at the end of the window: after it no event changes an auction in any way.
pub run_closed : (a : Auction) (es : List Event) → a.closed ≡ true → run a es ≡ a
unfolding run step
run_closed a [] e = refl
run_closed a (bid_arrives b ∷ es) e = rw (submit_bid_closed b a e) (run_closed a es e)
run_closed a (window_end ∷ es) e = rw (close_closed a e) (run_closed a es e)
