-- ===== src/Auction/Bonds/Tests.antt =====
-- A re-bid against a bond, and the theorem applied to it.
use ordofi.Base.{◌≤◌, [], true, some, refl, arith}
use ordofi.Base.Text.{codes, big_int, to_lower_case, text_eq, starts_with_0x}
use ordofi.Base.Assoc.{get, put}
use ordofi.Auction.Bonds.{
  Config, Bonds, collateral_of, has_expired, live_holds, held_in, held_by, hold, free_collateral,
  wei_held, check_bond,
}
use ordofi.Auction.Bonds.Cover.{check_bond_covers}

abbrev cfg : Config
cfg = record { settlement = true; cache_ttl_ms = 5000; hold_ttl_ms = 60000 }

-- One bid of 30 held at time 100.
abbrev bonds : Bonds
bonds = hold 100 (codes "0xA") (codes "op") 30 (record { cache = []; holds = [] })

check_bond_covers_example :
    held_in cfg 200
      (codes "0xa")
      (hold 200
        (codes "0xA")
        (codes "op")
        50
        (check_bond cfg 200 (some 50) (codes "0xA") (codes "50") (codes "op") bonds).0).holds
    ≤ (collateral_of cfg 200 (some 50) (codes "0xA") bonds).1
unfolding check_bond collateral_of held_in held_by has_expired live_holds free_collateral wei_held
    hold big_int to_lower_case text_eq starts_with_0x get put
check_bond_covers_example =
    check_bond_covers cfg 200 (some 50) (codes "0xA") (codes "50") (codes "op") 50 bonds refl refl
      (refl, refl) (ground arith) refl
