-- ===== src/Auction/Receipts/Honest.antt =====
-- The audit of the price against the auctioneer: complete for what it publishes, and sound.
use mathlib.Core.List.{mem-cons_self}
use mathlib.Core.List.Perm
use mathlib.Core.Option
use ordofi.Base.{
  ℕ, List, [], ◌∷◌, true, false, Option, none, some, or_else, ◌≡◌, ◌≢◌, refl, arith, ◌+◌, ==_refl,
  All, All-map, All-mem, ◌⊎◌, inl, inr, Option-cases, map, if◌then◌else◌,
}
use ordofi.Base.Int.{eq_of_parts, ℤ, pos, negsuc, ◌≤ℤ◌}
use ordofi.Base.Text.{Text, text_eq_iff, text_eq_refl, to_lower_case, big_int}
use ordofi.Base.Text.Decimal.{to_string, big_int-to_string}
use ordofi.Auction.Ranking.{second_price}
use ordofi.Auction.Ranking.SecondPrice.{
  IsSecondPrice, second_price-IsSecondPrice, second_price-bounds, second_price-map,
  second_price-none, carried,
}
use ordofi.Auction.Auctioneer.{Bid, Event, open_auction, wei_of, outcome_of_bids, run}
use ordofi.Auction.Auctioneer.Invariant.{IsCollectable, auction-IsSealed}
use ordofi.Auction.Auctioneer.Result.{outcome_of_bids-none, outcome_of_bids-some}
use ordofi.Auction.Receipts.{
  zero_address, ReceiptBid, AuctionReceipt, ok, bad, amounts_of, amount_of, no_winner_in,
  check_price, check_winner, check_outcome, winner_without_bids, audit_clearing_price, receipt_bid,
  receipt_of, winner_name, same_address,
}

abbrev listed : Bid → ReceiptBid × ℤ
listed b = (receipt_bid b, wei_of b)

amounts_of_published :
    (bids : List Bid)
    → All IsCollectable bids
    → amounts_of (map receipt_bid bids) ≡ some (map listed bids)
unfolding amounts_of
amounts_of_published [] h = refl
amounts_of_published (b ∷ bids) (h, hs) =
    rw (bid_wei-receipt_bid b, h.converts, amounts_of_published bids hs)
  where
    bid_wei-receipt_bid : (b : Bid) → (receipt_bid b).bid_wei ≡ b.bid_wei
    bid_wei-receipt_bid b = unfold receipt_bid in refl

-- A searcher that is named: not the empty text and not the zero address.
abbrev pub IsNamed : Bid → Type 0
IsNamed b = (b.searcher ≢ []) × (b.searcher ≢ zero_address)

IsNamed-prop : (b : Bid) → IsProp (IsNamed b)
IsNamed-prop b = hlevel

named_winner : (w : Bid) → IsNamed w → no_winner_in (some w.searcher) ≡ false
unfolding no_winner_in
named_winner w (h, k) =
    ground (arith, text_eq_iff w.searcher [], text_eq_iff w.searcher zero_address)

winner-IsNamed :
    (bids : List Bid) (w : Bid) (price : ℤ)
    → All IsNamed bids
    → IsSecondPrice wei_of bids w price
    → IsNamed w
winner-IsNamed bids w price h s =
    All-mem IsNamed IsNamed-prop bids h ((Perm.mem_iff s.bidders).0 mem-cons_self)

check_price_self :
    (price : ℤ) → pos 1 ≤ℤ price → check_price (big_int (to_string price)) price ≡ some ok
unfolding check_price
check_price_self (pos n) h = rw (big_int-to_string n) (rw (==_refl (n + 0)))
check_price_self (negsuc n) h = absurd (omega arith)

check_outcome_published :
    (id : Text) (bids : List Bid) (now : ℕ)
    → All IsCollectable bids
    → All IsNamed bids
    → check_outcome
        (receipt_of id bids (outcome_of_bids bids) now)
        (second_price amount_of (map listed bids))
      ≡ some ok
unfolding check_outcome check_winner receipt_of winner_name
check_outcome_published id bids now h named = elim (Option-cases (second_price wei_of bids)) [
  | inl e ↦ rw (carried_over, e, outcome_of_bids-none bids e) (unfold no_winner_in in refl)
  | inr ((w, price), e) ↦
      let s = second_price-IsSecondPrice wei_of bids w price e in
      let (low, _) =
        second_price-bounds wei_of (pos 1) bids w price (All-map (λ b c. c.positive) bids h) e in
      rw
        (
          carried_over,
          e,
          outcome_of_bids-some bids w price e,
          named_winner w (winner-IsNamed bids w price named s),
        )
        (rw (text_eq_refl (to_lower_case w.searcher)) (check_price_self price low))
]
  where
    carried_over :
        second_price amount_of (map listed bids)
        ≡ Option.map (carried wei_of amount_of listed (λ b. refl)) (second_price wei_of bids)
    carried_over = second_price-map wei_of amount_of listed (λ b. refl) bids

published-accepted :
    (id : Text) (bids : List Bid) (now : ℕ)
    → All IsCollectable bids
    → All IsNamed bids
    → audit_clearing_price (receipt_of id bids (outcome_of_bids bids) now) ≡ some ok
unfolding audit_clearing_price
published-accepted id bids now h named =
    rw (bids-receipt_of, amounts_of_published bids h) (check_outcome_published id bids now h named)
  where
    bids-receipt_of : (receipt_of id bids (outcome_of_bids bids) now).bids ≡ map receipt_bid bids
    bids-receipt_of = unfold receipt_of in refl

-- The audit of the price accepts every receipt that the auctioneer publishes for its own outcome,
-- after any bids and timer events, if each accepted bid names a searcher other than the empty text and
-- the zero address. The price passes through its decimal text.
pub honest_receipt_passes :
    (id : Text) (es : List Event) (now : ℕ)
    → All IsNamed (run (open_auction id) es).bids
    → audit_clearing_price (
        receipt_of id
          (run (open_auction id) es).bids
          (outcome_of_bids (run (open_auction id) es).bids)
          now)
      ≡ some ok
honest_receipt_passes id es now named =
    published-accepted id (run (open_auction id) es).bids now (auction-IsSealed id es).collectable
      named

-- What an accepted receipt shows: no bids and no named winner, or a second-price outcome over the
-- amounts that it lists, whose winner is named up to the case of letters.
pub record IsSound (r : AuctionReceipt) : Type 0 where
  pub amounts : List (ReceiptBid × ℤ)
  pub listed_amounts : amounts_of r.bids ≡ some amounts
  pub outcome :
      ((amounts ≡ []) × (no_winner_in r.winner ≡ true))
      ⊎ ((highest : ReceiptBid × ℤ) × (price : ℤ) × IsSecondPrice amount_of amounts highest price
          × (big_int r.clearing_price_wei ≡ some price)
          × (no_winner_in r.winner ≡ false)
          × (same_address (or_else r.winner []) highest.0.searcher ≡ true))

check_price_sound :
    (charged : Option ℤ) (expected : ℤ)
    → check_price charged expected ≡ some ok
    → charged ≡ some expected
unfolding check_price
check_price_sound none expected e = cc
check_price_sound (some n) expected e = ground (arith, eq_of_parts n expected)

check_winner_sound :
    (r : AuctionReceipt) (highest : ReceiptBid) (expected : ℤ)
    → check_winner r highest expected ≡ some ok
    → (no_winner_in r.winner ≡ false)
      × (same_address (or_else r.winner []) highest.searcher ≡ true)
      × (big_int r.clearing_price_wei ≡ some expected)
unfolding check_winner
check_winner_sound r highest expected e =
    ground (arith, check_price_sound (big_int r.clearing_price_wei) expected)

check_outcome-IsSound :
    (r : AuctionReceipt) (amounts : List (ReceiptBid × ℤ))
    → amounts_of r.bids ≡ some amounts
    → check_outcome r (second_price amount_of amounts) ≡ some ok
    → IsSound r
unfolding check_outcome
check_outcome-IsSound r amounts e f = elim (Option-cases (second_price amount_of amounts)) [
  | inl q ↦ record {
    amounts = amounts;
    listed_amounts = e;
    outcome = inl (second_price-none amount_of amounts q, unnamed r.winner (rw q at f));
  }
  | inr ((highest, price), q) ↦
      let (named, same, charged) = check_winner_sound r highest.0 price (rw q at f) in
      record {
        amounts = amounts;
        listed_amounts = e;
        outcome = inr (
          highest,
          price,
          second_price-IsSecondPrice amount_of amounts highest price q,
          charged,
          named,
          same,
        );
      }
]
  where
    unnamed :
        (w : Option Text)
        → some (if no_winner_in w then ok else bad winner_without_bids) ≡ some ok
        → no_winner_in w ≡ true
    unnamed w g = ground arith

-- A receipt that the audit of the price accepts lists amounts that all convert, and it names no winner
-- where it lists no bid; otherwise it names a highest bidder, up to the case of letters, and charges
-- the second price of the bids that it lists.
pub audit_clearing_price-IsSound :
    (r : AuctionReceipt) → audit_clearing_price r ≡ some ok → IsSound r
unfolding audit_clearing_price
audit_clearing_price-IsSound r f = elim (Option-cases (amounts_of r.bids)) [
  | inl e ↦ cc (rw e at f)
  | inr (amounts, e) ↦ check_outcome-IsSound r amounts e (rw e at f)
]
