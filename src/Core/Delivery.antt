-- ===== src/Core/Delivery.antt =====
-- What is asked of a delivery and what is proved of it: the types of packages/core/src/guard.ts.
use ordofi.Base.{ℕ, List, [], ◌∷◌, Bool, Option}
use ordofi.Base.Int.{ℤ}
use ordofi.Base.Text.{Text, codes}

-- An asset is `eth` or the address of a token.
pub record Expectation : Type 0 where
  pub asset : Text
  pub min : ℤ

pub record Payment : Type 0 where
  pub asset : Text
  pub max : ℤ

pub record Approval : Type 0 where
  pub token : Text
  pub spender : Text
  pub amount : ℕ

pub record Holding : Type 0 where
  pub holder : Text
  pub asset : Text

pub record AllowedLeak : Type 0 where
  pub to : Text
  pub asset : Text
  pub max : ℤ

pub record DeliveryRequest : Type 0 where
  pub from : Text
  pub tx_to : Text
  pub tx_data : Text
  pub tx_value : ℕ
  pub approval : Option Approval
  pub expect : List Expectation
  pub pay : List Payment
  pub must_not_retain : List Holding
  pub allow_leaks : List AllowedLeak

pub record Leak : Type 0 where
  pub to : Text
  pub asset : Text
  pub amount : ℤ

-- `received` and `paid`: an amount with its bound.
pub record Measured : Type 0 where
  pub asset : Text
  pub amount : ℤ
  pub bound : ℤ

pub data Reason : Type 0 where
  unavailable would_revert : Text → Reason
  approval_reverts funds_lost too_little too_much funds_stuck : Reason

pub record DeliveryProof : Type 0 where
  pub ok : Bool
  pub reason : Option Reason
  pub received : List Measured
  pub paid : List Measured
  pub leaks : List Leak
  pub retained : List Leak
  pub gas_used : ℤ
  pub via : Option Text

pub record Log : Type 0 where
  pub address : Text
  pub topics : List Text
  pub log_data : Text

pub record CallResult : Type 0 where
  pub status : Text
  pub gas_used : Text
  pub error_message : Option Text
  pub return_data : Text
  pub logs : List Log

pub record SimCall : Type 0 where
  pub from : Option Text
  pub to : Text
  pub call_data : Text
  pub value : Option Text

-- What one upstream does: it throws or reports an error, or answers calls (`none`: no list of them).
pub data Attempt : Type 0 where
  failed : Text → Attempt
  answered : Option (List CallResult) → Attempt

abbrev pub blackholes : List Text
blackholes =
    codes "0x0000000000000000000000000000000000000000"
    ∷ codes "0x0000000000000000000000000000000000000001"
    ∷ codes "0x0000000000000000000000000000000000000002"
    ∷ codes "0x0000000000000000000000000000000000000003"
    ∷ codes "0x0000000000000000000000000000000000000004"
    ∷ codes "0x0000000000000000000000000000000000000005"
    ∷ codes "0x0000000000000000000000000000000000000006"
    ∷ codes "0x0000000000000000000000000000000000000007"
    ∷ codes "0x0000000000000000000000000000000000000008"
    ∷ codes "0x0000000000000000000000000000000000000009"
    ∷ codes "0x000000000000000000000000000000000000000a"
    ∷ codes "0x000000000000000000000000000000000000dead"
    ∷ []
