-- ===== src/Batch/Types.antt =====
-- apps/batcher/src/types.ts, and the tokens of apps/batcher/src/solver.ts. Amounts that the contract
-- hashes as uint256 are numbers; `delta`, an int256, is an integer.
use ordofi.Base.{ℕ, Bool, List, if◌then◌else◌}
use ordofi.Base.Int.{ℤ}
use ordofi.Base.Text.{Text, codes, text_eq, to_lower_case}

abbrev pub zero_token : Text
zero_token = codes "0x0000000000000000000000000000000000000000"

abbrev pub weth : Text
weth = codes "0x0bd7d308f8e1639fab988df18a8011f41eacad73"

pub record Order : Type 0 where
  pub owner : Text
  pub receiver : Text
  pub sell_token : Text
  pub buy_token : Text
  pub sell_amount : ℕ
  pub min_buy_amount : ℕ
  pub valid_to : ℕ
  pub nonce : ℕ
  pub app_data : Text

pub record PoolKey : Type 0 where
  pub currency0 : Text
  pub currency1 : Text
  pub fee : ℕ
  pub tick_spacing : ℤ
  pub hooks : Text

-- A hop on one venue.
pub record Leg : Type 0 where
  pub venue : ℕ
  pub path : Text
  pub key : PoolKey
  pub zero_for_one : Bool

pub record Interaction : Type 0 where
  pub legs : List Leg
  pub amount_in : ℕ

pub record Price : Type 0 where
  pub token : Text
  pub price : ℕ

-- One entry of the arrays `tokens`, `delta` and `owed`, which have one length.
pub record SimToken : Type 0 where
  pub token : Text
  pub delta : ℤ
  pub owed : ℕ

-- Ether out is address zero on the order; in the pool it is WETH.
unfoldable pub as_token : Text → Text
as_token t = let l = to_lower_case t in if text_eq l zero_token then weth else l
