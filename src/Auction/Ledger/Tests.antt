-- ===== src/Auction/Ledger/Tests.antt =====
-- Two results of the ledger, and the theorems applied to them.
use ordofi.Base.{List, [], ◌∷◌, none, some, ◌≡◌}
use ordofi.Base.Text.{codes}
use ordofi.Auction.Ledger.{RebateSplit, open_ledger}
use ordofi.Auction.Ledger.Replay.{Settled, record_all, open_ledger-record_all}

abbrev split : RebateSplit
split = record { user = 900; app = 50 }

abbrev results : List Settled
results =
    record {
      total = 12345;
      opportunity_id = codes "op1";
      searcher = codes "0xa";
      app_rebate_address = some (codes "0xAPP");
      now = 1;
    }
    ∷ record {
      total = 99;
      opportunity_id = codes "op2";
      searcher = codes "0xb";
      app_rebate_address = none;
      now = 2;
    }
    ∷ []

open_ledger-record_all_example :
    let l = record_all split results (open_ledger []) in (open_ledger l.file).owed ≡ l.owed
open_ledger-record_all_example = open_ledger-record_all split results
