-- ===== src/Core/Guard/Proven.antt =====
-- What a proof of delivery, packages/core/src/guard.ts, has established.
use ordofi.Base.{or_else, suc, ◌-◌, List, true, none, some, length, drop, get_elem?, ◌≡◌, All, ◌⊎◌}
use ordofi.Base.Int.{ℤ, pos, ◌-ℤ◌, ◌≤ℤ◌}
use ordofi.Base.Text.{Text, codes}
use ordofi.Base.Assoc.{TextMap, get}
use ordofi.Core.Delivery.{DeliveryRequest, CallResult, SimCall, Attempt, blackholes}
use ordofi.Core.Calls.{eth, track_key, tracked, tx_index, calls_of, Simulated, ask}
use ordofi.Core.Calls.Simulated.{simulated_by}
use ordofi.Core.Guard.Readings.{IsTransaction, WatchesAll, AreRead}
use ordofi.Core.Guard.Leaks.{IsHarmless}
use ordofi.Core.Guard.{Readings, has_status}

-- What a holder gained of an asset between the readings.
abbrev pub gain : Readings → Text → Text → ℤ
gain (before, after) holder asset =
    let key = track_key holder asset in
    or_else (get key after) (pos 0) -ℤ or_else (get key before) (pos 0)

-- What the readings say when nothing is objected to.
record IsDelivered (req : DeliveryRequest) (rs : Readings) : Type 0 where
  delivered : All (λ e. e.min ≤ℤ gain rs req.from e.asset) req.expect
  not_overpaid : All (λ p. pos 0 -ℤ gain rs req.from p.asset ≤ℤ p.max) req.pay
  not_retained : All (λ h. gain rs h.holder h.asset ≤ℤ pos 0) req.must_not_retain
  no_ether_lost : All (λ h. gain rs h eth ≤ℤ pos 0) blackholes

-- What was established: of which run, between which readings, and with which outcome.
pub record IsProven (req : DeliveryRequest) (upstreams : List SimCall → List (Text × Attempt))
    : Type 0 where
  pub host : Text
  pub calls : List CallResult
  pub tx : CallResult
  pub before : TextMap ℤ
  pub after : TextMap ℤ
  pub asked :
      ask (length (calls_of req)) (codes "no upstream") (upstreams (calls_of req))
      ≡ simulated_by host calls
  pub asked_tx :
      (call : SimCall) × (get_elem? (calls_of req) (tx_index req) ≡ some call)
      × IsTransaction req call
  pub tx_at : get_elem? calls (tx_index req) ≡ some tx
  pub tx_succeeded : tx.status ≡ codes "0x1"
  pub approved :
      (req.approval ≡ none) ⊎ (has_status (codes "0x1") (get_elem? calls (tx_index req - 1)) ≡ true)
  pub watched : WatchesAll req
  pub before_read : AreRead (tracked req) calls before
  pub after_read : AreRead (tracked req) (drop (suc (tx_index req)) calls) after
  pub delivered : All (λ e. e.min ≤ℤ gain (before, after) req.from e.asset) req.expect
  pub not_overpaid : All (λ p. pos 0 -ℤ gain (before, after) req.from p.asset ≤ℤ p.max) req.pay
  pub not_retained : All (λ h. gain (before, after) h.holder h.asset ≤ℤ pos 0) req.must_not_retain
  pub no_ether_lost : All (λ h. gain (before, after) h eth ≤ℤ pos 0) blackholes
  pub no_tokens_lost : All (IsHarmless req.allow_leaks) tx.logs
