-- ===== src/Core/Tests.antt =====
-- A delivery at concrete balances, and the theorem applied to it.
use ordofi.Base.{ℕ, zero, suc, List, [], ◌∷◌, true, none, some}
use ordofi.Base.Int.{pos}
use ordofi.Base.Text.{Text, codes}
use ordofi.Core.Delivery.{DeliveryRequest, DeliveryProof, CallResult, SimCall, Attempt}
use ordofi.Core.Delivery.Attempt.{answered}

abbrev trader : Text
trader = codes "0x5555555555555555555555555555555555555555"

abbrev usdg : Text
usdg = codes "0x1111111111111111111111111111111111111111"

-- The trader swaps at most 5 of ether for at least 9 of a token.
abbrev swap : DeliveryRequest
swap = record {
  from = trader;
  tx_to = codes "0x3333333333333333333333333333333333333333";
  tx_data = codes "0x12";
  tx_value = 3;
  approval = none;
  expect = record { asset = usdg; min = pos 9 } ∷ [];
  pay = record { asset = codes "eth"; max = pos 5 } ∷ [];
  must_not_retain = [];
  allow_leaks = [];
}

abbrev answers_word : Text → CallResult
answers_word w = record {
  status = codes "0x1";
  gas_used = codes "0x5208";
  error_message = none;
  return_data = w;
  logs = [];
}

abbrev quiet : ℕ → List CallResult → List CallResult
quiet zero rs = rs
quiet (suc n) rs = answers_word (codes "0x") ∷ quiet n rs

abbrev results : List CallResult
results =
    answers_word (codes "0x1")
    ∷ answers_word (codes "0x9")
    ∷ quiet 13 (answers_word (codes "0xb") ∷ answers_word (codes "0x6") ∷ quiet 12 [])

abbrev upstreams : List SimCall → List (Text × Attempt)
upstreams calls = (codes "rpc", answered (some results)) ∷ []

abbrev proof : DeliveryProof
proof = record {
  ok = true;
  reason = none;
  received = record { asset = usdg; amount = pos 10; bound = pos 9 } ∷ [];
  paid = record { asset = codes "eth"; amount = pos 3; bound = pos 5 } ∷ [];
  leaks = [];
  retained = [];
  gas_used = pos 21000;
  via = some (codes "rpc");
}
