-- ===== src/Auction/Bonds.antt =====
-- Bond gating, apps/auction/src/bonds.ts.
--
-- The clock is an argument, `read` is what the contract answers (`none` if the call fails), and a held
-- amount is a natural number: only amounts of accepted bids are held.
pub mod Cover
mod Tests
use ordofi.Base.{
  ℕ, ◌+◌, ◌-◌, List, [], ◌∷◌, ◌++◌, Bool, true, false, not, ◌&&◌, Option, none, some, or_else, ltb,
  leb, if◌then◌else◌,
}
use ordofi.Base.Int.{ℤ, pos, negsuc}
use ordofi.Base.Text.{Text, codes, text_eq, to_lower_case, starts_with_0x, big_int}
use ordofi.Base.Assoc.{TextMap, get, put, remove}

-- The environment: whether a settlement contract is configured, and the two times to live.
pub record Config : Type 0 where
  pub settlement : Bool
  pub cache_ttl_ms : ℕ
  pub hold_ttl_ms : ℕ

pub record Cached : Type 0 where
  pub value : ℕ
  pub at : ℕ

pub record Hold : Type 0 where
  pub searcher : Text
  pub wei : ℕ
  pub at : ℕ

pub record Bonds : Type 0 where
  pub cache : TextMap Cached
  pub holds : TextMap Hold

-- `${searcher.toLowerCase()}:${opportunityId}`
abbrev pub hold_key : Text → Text → Text
hold_key searcher opportunity_id = to_lower_case searcher ++ (codes ":" ++ opportunity_id)

remember_read : Text → ℕ → Option ℕ → Bonds → Bonds × ℕ
remember_read key now none b = (b, 0)
remember_read key now (some value) b =
    (record b { cache = put key (record { value = value; at = now }) b.cache }, value)

is_fresh : Config → ℕ → Option Cached → Bool
is_fresh cfg now none = false
is_fresh cfg now (some hit) = ltb (now - hit.at) cfg.cache_ttl_ms

cached_value : Option Cached → ℕ
cached_value none = 0
cached_value (some hit) = hit.value

-- `collateralOf`
unfoldable pub collateral_of : Config → ℕ → Option ℕ → Text → Bonds → Bonds × ℕ
unfolding remember_read is_fresh cached_value
collateral_of cfg now read searcher b =
    let key = to_lower_case searcher in
    let hit = get key b.cache in
    if not cfg.settlement
    then (b, 0)
    else if is_fresh cfg now hit
    then (b, cached_value hit)
    else remember_read key now read b

-- `now - h.at > HOLD_TTL_MS`
unfoldable pub has_expired : Config → ℕ → Hold → Bool
has_expired cfg now h = ltb cfg.hold_ttl_ms (now - h.at)

-- The holds that the loop of `heldBy` leaves, and its sum.
unfoldable pub live_holds : Config → ℕ → TextMap Hold → TextMap Hold
live_holds cfg now [] = []
live_holds cfg now ((k, h) ∷ m) =
    let rest = live_holds cfg now m in if has_expired cfg now h then rest else (k, h) ∷ rest

unfoldable pub held_in : Config → ℕ → Text → TextMap Hold → ℕ
held_in cfg now s [] = 0
held_in cfg now s ((k, h) ∷ m) =
    let rest = held_in cfg now s m in
    if not (has_expired cfg now h) && text_eq h.searcher s then h.wei + rest else rest

-- `heldBy`
unfoldable pub held_by : Config → ℕ → Text → Bonds → Bonds × ℕ
unfolding live_holds held_in
held_by cfg now searcher b = (
  record b { holds = live_holds cfg now b.holds },
  held_in cfg now (to_lower_case searcher) b.holds,
)

-- `hold`
unfoldable pub hold : ℕ → Text → Text → ℕ → Bonds → Bonds
hold now searcher opportunity_id wei b = record b {
  holds =
      put (hold_key searcher opportunity_id)
        (record { searcher = to_lower_case searcher; wei = wei; at = now }) b.holds;
}

-- `release`
unfoldable pub release_hold : Text → Text → Bonds → Bonds
release_hold searcher opportunity_id b = record b {
  holds = remove (hold_key searcher opportunity_id) b.holds;
}

-- `freeCollateral`; subtraction stops at 0, as `c > h ? c - h : 0n` does.
unfoldable pub free_collateral : Config → ℕ → Option ℕ → Text → Bonds → Bonds × ℕ
unfolding collateral_of held_by
free_collateral cfg now read searcher b =
    let (b1, c) = collateral_of cfg now read searcher b in
    let (b2, h) = held_by cfg now searcher b1 in (b2, c - h)

pub data Verdict : Type 0 where
  collectable not_an_address invalid_bid_wei insufficient_collateral : Verdict

unfoldable pub wei_held : Option Hold → ℕ
wei_held none = 0
wei_held (some h) = h.wei

-- `free < needed`
falls_short : ℕ → ℤ → Bool
falls_short free (pos needed) = ltb free needed
falls_short free (negsuc needed) = false

-- That a refusal reads both again for its message is left out.
check_amount : Config → ℕ → Option ℕ → Text → Text → Option ℤ → Bonds → Bonds × Verdict
unfolding free_collateral wei_held falls_short
check_amount cfg now read searcher opportunity_id none b = (b, invalid_bid_wei)
check_amount cfg now read searcher opportunity_id (some needed) b =
    let own = wei_held (get (hold_key searcher opportunity_id) b.holds) in
    let (b1, free) = free_collateral cfg now read searcher b in
    if falls_short (free + own) needed then (b1, insufficient_collateral) else (b1, collectable)

-- `checkBond`, asked for an opportunity.
unfoldable pub check_bond : Config → ℕ → Option ℕ → Text → Text → Text → Bonds → Bonds × Verdict
unfolding check_amount
check_bond cfg now read searcher bid_wei opportunity_id b =
    if not cfg.settlement
    then (b, collectable)
    else if not (starts_with_0x searcher)
    then (b, not_an_address)
    else check_amount cfg now read searcher opportunity_id (big_int bid_wei) b
