-- ===== src/Auction/Anchor/Tests.antt =====
-- A log that commits every two receipts, and the theorem applied to it.
use ordofi.Base.{ℕ, List, [], ◌∷◌, true, false, some, ◌≡◌, refl}
use ordofi.Base.Text.{Text, codes}
use ordofi.Auction.Anchor.{
  Published, ReceiptLog, World, sync_anchor_state, Event, publishes, settles, run,
}

abbrev receipt_at : Text → ℕ → Published
receipt_at id n = record { opportunity_id = id; hash = n }

-- One receipt was anchored before the restart, and two are read from the file.
abbrev log : ReceiptLog
log = record {
  keep_receipts = 2;
  commit_every = 2;
  has_account = true;
  configured = true;
  by_id = [];
  leaves = 9 ∷ 10 ∷ [];
  last_committed = 0;
  committing = false;
}

abbrev start : World
start = record { log = sync_anchor_state (some (1, 1)) log; calls = []; chain = 1 }

abbrev season : List Event
season =
    publishes (receipt_at (codes "0x1") 11)
    ∷ publishes (receipt_at (codes "0x2") 12)
    ∷ settles 0 true
    ∷ publishes (receipt_at (codes "0x3") 13)
    ∷ publishes (receipt_at (codes "0x4") 14)
    ∷ settles 0 false
    ∷ publishes (receipt_at (codes "0x5") 15)
    ∷ []

-- The commit over three is anchored, that over five fails and is made again over seven.
season_end : ((run start season).chain ≡ 3) × ((run start season).calls ≡ 7 ∷ [])
unfolding run sync_anchor_state
season_end = (refl, refl)
