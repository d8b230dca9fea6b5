-- ===== src/Core/Guard.antt =====
-- `proveDelivery` of packages/core/src/guard.ts: a transaction is simulated between two readings of the
-- balances that matter, and the proof says what went where.
--
-- The upstreams are a list of attempts: what each answers to the simulation. A word or an amount that
-- `BigInt` does not read is an exception, `none`. Texts of reasons stand without their numbers.
pub mod Readings
pub mod Leaks
pub mod Proven
use mathlib.Core.List.{map}
use ordofi.Base.{
  ℕ, zero, suc, ◌+◌, ◌-◌, ◌/◌, ◌%◌, List, [], ◌∷◌, ◌++◌, Bool, true, false, not, ◌&&◌, ◌||◌, Option,
  none, some, or_else, is_some, ltb, leb, ◌==◌, if◌then◌else◌, length, take, drop, get_elem?, keep,
  any, ◌>>=◌,
}
use ordofi.Base.Int.{ℤ, pos, negsuc, ◌-ℤ◌, ltb_ℤ, eqb_ℤ}
use ordofi.Base.Text.{Text, codes, text_eq, to_lower_case, big_int, starts_with_0x}
use ordofi.Base.Assoc.{TextMap, get, put}
use ordofi.Core.Delivery.{
  Expectation, Payment, Approval, Holding, AllowedLeak, DeliveryRequest, Leak, Measured, Reason,
  DeliveryProof, Log, CallResult, SimCall, Attempt, blackholes,
}
use ordofi.Core.Delivery.Reason.{
  unavailable, would_revert, approval_reverts, funds_lost, too_little, too_much, funds_stuck,
}
use ordofi.Core.Calls.{
  zero_address, eth, same_addr, track_key, tracked, tx_index, calls_of, Simulated, ask,
}
use ordofi.Core.Calls.Simulated.{simulated_by, not_simulated}

abbrev pub transfer_topic : Text
transfer_topic = codes "0xddf252ad1be2c89b69c2b068fc378daa952ba7f163c4a11628f55a4df523b3ef"

-- `readWord`
unfoldable pub read_word : Option CallResult → Option ℤ
unfolding text_eq big_int
read_word none = some (pos 0)
read_word (some r) =
    if text_eq r.return_data [] || text_eq r.return_data (codes "0x")
    then some (pos 0)
    else big_int (take 66 r.return_data)

-- `before` and `after`: the words of the tracked keys, read from where the results start.
unfoldable pub read_all : TextMap Holding → List CallResult → TextMap ℤ → Option (TextMap ℤ)
unfolding read_word put
read_all [] rs m = some m
read_all ((key, h) ∷ es) [] m = read_all es [] (put key (pos 0) m)
read_all ((key, h) ∷ es) (r ∷ rs) m = read_word (some r) >>= λ w. read_all es rs (put key w m)

abbrev pub Readings : Type 0
Readings = TextMap ℤ × TextMap ℤ

-- `delta`
unfoldable pub delta : Readings → Text → ℤ
unfolding get ◌-ℤ◌
delta (before, after) key = or_else (get key after) (pos 0) -ℤ or_else (get key before) (pos 0)

unfoldable pub received_by : DeliveryRequest → Readings → List Measured
unfolding delta track_key
received_by req rs =
    map
      (λ e. record {
        asset = e.asset;
        amount = delta rs (track_key req.from e.asset);
        bound = e.min;
      })
      req.expect

unfoldable pub paid_by : DeliveryRequest → Readings → List Measured
unfolding delta track_key ◌-ℤ◌
paid_by req rs =
    map
      (λ p. record {
        asset = p.asset;
        amount = pos 0 -ℤ delta rs (track_key req.from p.asset);
        bound = p.max;
      })
      req.pay

abbrev pub has_amount : Leak → Bool
has_amount l = ltb_ℤ (pos 0) l.amount

abbrev pub gain_of : Readings → Holding → Leak
gain_of rs h = record {
  to = h.holder;
  asset = h.asset;
  amount = delta rs (track_key h.holder h.asset);
}

unfoldable pub retained_by : DeliveryRequest → Readings → List Leak
unfolding keep delta track_key
retained_by req rs = keep has_amount (map (gain_of rs) req.must_not_retain)

unfoldable pub eth_leaks : Readings → List Leak
unfolding keep delta track_key
eth_leaks rs =
    keep has_amount (map (λ h. gain_of rs (record { holder = h; asset = eth })) blackholes)

-- `"0x" + String(topic).slice(-40)`
unfoldable pub address_in : Text → Text
address_in topic = codes "0x" ++ drop (length topic - 40) topic

unfoldable pub is_allowed : List AllowedLeak → Leak → Bool
unfolding same_addr
is_allowed allowed l =
    any (λ a. same_addr a.to l.to && same_addr a.asset l.asset && not (ltb_ℤ a.max l.amount))
      allowed

pub amount_in_log : Text → Option ℤ
unfolding text_eq big_int
amount_in_log d = if text_eq d [] || text_eq d (codes "0x") then some (pos 0) else big_int d

-- Burns to address zero, and mints from it, are no leaks.
unfoldable pub is_leak_between : Text → Text → Bool
unfolding same_addr
is_leak_between from to =
    not (same_addr to zero_address)
    && any (λ h. same_addr h to) blackholes
    && not (same_addr from zero_address)

pub leak_of_amount : List AllowedLeak → Leak → List Leak
unfolding is_allowed
leak_of_amount allowed l = if eqb_ℤ l.amount (pos 0) || is_allowed allowed l then [] else l ∷ []

abbrev pub of_log : Text → Log → ℤ → Leak
of_log to log amount = record { to = to; asset = log.address; amount = amount }

pub transfer_leak : List AllowedLeak → Log → Text → Text → Option (List Leak)
unfolding amount_in_log leak_of_amount is_leak_between address_in
transfer_leak allowed log from_topic to_topic =
    let to = address_in to_topic in
    if is_leak_between (address_in from_topic) to
    then (amount_in_log log.log_data >>= λ amount.
        some (leak_of_amount allowed (of_log to log amount)))
    else some []

-- One round of the loop over the logs of the transaction.
unfoldable pub log_leak : List AllowedLeak → Log → Option (List Leak)
unfolding transfer_leak text_eq to_lower_case
log_leak allowed log = on_topics log.topics
  where
    on_topics : List Text → Option (List Leak)
    on_topics (topic ∷ from_topic ∷ to_topic ∷ more) =
        if text_eq (to_lower_case topic) transfer_topic
        then transfer_leak allowed log from_topic to_topic
        else some []
    on_topics _ = some []

unfoldable pub log_leaks : List AllowedLeak → List Log → Option (List Leak)
unfolding log_leak
log_leaks allowed [] = some []
log_leaks allowed (log ∷ logs) =
    log_leak allowed log >>= λ here. log_leaks allowed logs >>= λ later. some (here ++ later)

abbrev pub is_short : Measured → Bool
is_short r = ltb_ℤ r.amount r.bound

abbrev pub is_over : Measured → Bool
is_over p = ltb_ℤ p.bound p.amount

abbrev pub no_leaks : List Leak → Bool
no_leaks [] = true
no_leaks (l ∷ ls) = false

-- The first reason that holds.
unfoldable pub objection : List Leak → List Measured → List Measured → List Leak → Option Reason
objection leaks received paid retained =
    if not (no_leaks leaks)
    then some funds_lost
    else if any is_short received
    then some too_little
    else if any is_over paid
    then some too_much
    else if not (no_leaks retained)
    then some funds_stuck
    else none

abbrev empty_proof : Reason → ℤ → Option Text → DeliveryProof
empty_proof reason gas via = record {
  ok = false;
  reason = some reason;
  received = [];
  paid = [];
  leaks = [];
  retained = [];
  gas_used = gas;
  via = via;
}

unfoldable pub judge_readings : DeliveryRequest → Readings → List Leak → ℤ → Text → DeliveryProof
unfolding objection received_by paid_by retained_by eth_leaks
judge_readings req rs token_leaks gas host =
    let leaks = eth_leaks rs ++ token_leaks in
    let received = received_by req rs in
    let paid = paid_by req rs in
    let retained = retained_by req rs in
    let reason = objection leaks received paid retained in
    record {
      ok = not (is_some reason);
      reason = reason;
      received = received;
      paid = paid;
      leaks = leaks;
      retained = retained;
      gas_used = gas;
      via = some host;
    }

-- From the balances on.
unfoldable pub on_success :
    DeliveryRequest → Text → List CallResult → CallResult → ℤ → Option DeliveryProof
unfolding judge_readings read_all log_leaks tracked tx_index
on_success req host calls tx gas = do
  before ← read_all (tracked req) calls []
  after ← read_all (tracked req) (drop (suc (tx_index req)) calls) []
  token_leaks ← log_leaks req.allow_leaks tx.logs
  some (judge_readings req (before, after) token_leaks gas host)

abbrev pub has_status : Text → Option CallResult → Bool
has_status s none = false
has_status s (some r) = text_eq r.status s

abbrev succeeded : Option CallResult → Bool
succeeded r = has_status (codes "0x1") r

why_reverted : CallResult → Text
unfolding text_eq
why_reverted tx = or_else tx.error_message (
    if text_eq tx.return_data [] || text_eq tx.return_data (codes "0x")
    then codes "reverted"
    else tx.return_data)

gas_text : Text → Text
unfolding text_eq
gas_text g = if text_eq g [] then codes "0x0" else g

on_status : DeliveryRequest → Text → List CallResult → CallResult → ℤ → Option DeliveryProof
unfolding on_success why_reverted text_eq tx_index
on_status req host calls tx gas =
    if not (succeeded (some tx))
    then some (empty_proof (would_revert (why_reverted tx)) gas (some host))
    else if is_some req.approval && not (succeeded (get_elem? calls (tx_index req - 1)))
    then some (empty_proof approval_reverts gas (some host))
    else on_success req host calls tx gas

-- From the result of the transaction on; the source reads an undefined result as one that failed.
unfoldable pub on_transaction :
    DeliveryRequest → Text → List CallResult → Option CallResult → Option DeliveryProof
unfolding on_status gas_text big_int
on_transaction req host calls none =
    some (empty_proof (would_revert (codes "reverted")) (pos 0) (some host))
on_transaction req host calls (some tx) =
    big_int (gas_text tx.gas_used) >>= λ gas. on_status req host calls tx gas

on_simulated : DeliveryRequest → Simulated → Option DeliveryProof
unfolding on_transaction tx_index
on_simulated req (not_simulated last_err) = some (empty_proof (unavailable last_err) (pos 0) none)
on_simulated req (simulated_by host calls) =
    on_transaction req host calls (get_elem? calls (tx_index req))

-- `proveDelivery`, given what the upstreams answer to the calls.
unfoldable pub prove_delivery :
    DeliveryRequest → (List SimCall → List (Text × Attempt)) → Option DeliveryProof
unfolding on_simulated ask calls_of
prove_delivery req upstreams =
    on_simulated req (ask (length (calls_of req)) (codes "no upstream") (upstreams (calls_of req)))
