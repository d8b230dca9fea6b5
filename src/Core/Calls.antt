-- ===== src/Core/Calls.antt =====
-- The calls that `proveDelivery` of packages/core/src/guard.ts simulates, and the upstreams it asks.
use mathlib.Core.List.{map}
use ordofi.Base.{
  ℕ, zero, suc, ◌+◌, ◌-◌, ◌/◌, ◌%◌, List, [], ◌∷◌, ◌++◌, Bool, Option, none, some, is_some, ltb,
  ◌==◌, if◌then◌else◌, length, drop,
}
use ordofi.Base.Text.{Text, codes, text_eq, to_lower_case, starts_with_0x}
use ordofi.Base.Assoc.{TextMap, get, put}
use ordofi.Core.Delivery.{
  Approval, Holding, DeliveryRequest, CallResult, SimCall, Attempt, blackholes,
}
use ordofi.Core.Delivery.Attempt.{failed, answered}

abbrev pub zero_address : Text
zero_address = codes "0x0000000000000000000000000000000000000000"

abbrev balance_reader : Text
balance_reader = codes "0x00000000000000000000000000000000000ba1a0"

abbrev pub eth : Text
eth = codes "eth"

abbrev pub is_eth : Text → Bool
is_eth a = text_eq a eth

-- `sameAddr`
unfoldable pub same_addr : Text → Text → Bool
unfolding to_lower_case text_eq
same_addr a b = text_eq (to_lower_case a) (to_lower_case b)

-- `n.toString(16)`, a digit in each round, of which there are at most n + 1.
hex_from : ℕ → ℕ → Text
hex_from zero n = []
hex_from (suc f) n =
    let front = hex_from f (n / 16) in
    let digit = n % 16 in
    (if ltb n 16 then [] else front)
    ++ (if ltb digit 10 then digit + b'0' else digit - 10 + b'a') ∷ []

-- `padStart(64, "0")`
pad_start : ℕ → Text → Text
pad_start zero t = t
pad_start (suc n) t = b'0' ∷ pad_start n t

pad_to : Text → Text
unfolding pad_start
pad_to t = pad_start (64 - length t) t

-- `pad`, of a text and of a number.
pad : Text → Text
unfolding pad_to to_lower_case starts_with_0x
pad t = let l = to_lower_case t in pad_to (if starts_with_0x l then drop 2 l else l)

pad_number : ℕ → Text
unfolding pad_to hex_from
pad_number n = pad_to (hex_from (suc n) n)

-- `balanceRead`
unfoldable pub balance_read : Text → Text → SimCall
unfolding pad text_eq
balance_read holder asset =
    if is_eth asset
    then record {
      from = none;
      to = balance_reader;
      call_data = codes "0x00000000" ++ pad holder;
      value = none;
    }
    else record {
      from = none;
      to = asset;
      call_data = codes "0x70a08231" ++ pad holder;
      value = none;
    }

-- The key of `track`.
unfoldable pub track_key : Text → Text → Text
unfolding to_lower_case text_eq
track_key holder asset =
    to_lower_case holder ++ codes ":" ++ (if is_eth asset then eth else to_lower_case asset)

unfoldable pub track : Text → Text → TextMap Holding → TextMap Holding
unfolding track_key get put
track holder asset m =
    let key = track_key holder asset in
    if is_some (get key m) then m else put key (record { holder = holder; asset = asset }) m

unfoldable pub track_all : List Holding → TextMap Holding → TextMap Holding
unfolding track
track_all [] m = m
track_all (h ∷ hs) m = track_all hs (track h.holder h.asset m)

-- Every pair that is read before and after, in the order in which it is asked for first.
unfoldable pub wanted : DeliveryRequest → List Holding
wanted req =
    map (λ e. record { holder = req.from; asset = e.asset }) req.expect
    ++ map (λ p. record { holder = req.from; asset = p.asset }) req.pay
    ++ req.must_not_retain
    ++ map (λ h. record { holder = h; asset = eth }) blackholes

unfoldable pub tracked : DeliveryRequest → TextMap Holding
unfolding wanted track_all
tracked req = track_all (wanted req) []

abbrev approve_call : DeliveryRequest → Approval → SimCall
approve_call req a = record {
  from = some req.from;
  to = a.token;
  call_data = codes "0x095ea7b3" ++ (pad a.spender ++ pad_number a.amount);
  value = none;
}

pub approve_calls : DeliveryRequest → Option Approval → List SimCall
unfolding pad pad_number
approve_calls req none = []
approve_calls req (some a) = approve_call req a ∷ []

abbrev pub reads_of : DeliveryRequest → List SimCall
reads_of req = map (λ e. balance_read (e.1).holder (e.1).asset) (tracked req)

-- `calls.length` before the transaction.
unfoldable pub tx_index : DeliveryRequest → ℕ
unfolding approve_calls balance_read tracked
tx_index req = length (reads_of req ++ approve_calls req req.approval)

unfoldable pub calls_of : DeliveryRequest → List SimCall
unfolding approve_calls balance_read tracked hex_from
calls_of req =
    reads_of req
    ++ approve_calls req req.approval
    ++ record {
      from = some req.from;
      to = req.tx_to;
      call_data = req.tx_data;
      value =
          if ltb 0 req.tx_value
          then some (codes "0x" ++ hex_from (suc req.tx_value) req.tx_value)
          else none;
    }
      ∷ reads_of req

-- The loop over the upstreams, with the last error so far.
pub data Simulated : Type 0 where
  simulated_by : Text → List CallResult → Simulated
  not_simulated : Text → Simulated

abbrev malformed : Text
malformed = codes "malformed simulation result"

unfoldable pub ask : ℕ → Text → List (Text × Attempt) → Simulated
ask n last_err [] = not_simulated last_err
ask n last_err ((host, failed message) ∷ urls) = ask n message urls
ask n last_err ((host, answered none) ∷ urls) = ask n malformed urls
ask n last_err ((host, answered (some calls)) ∷ urls) =
    let rest = ask n malformed urls in if length calls == n then simulated_by host calls else rest
