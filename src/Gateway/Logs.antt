-- ===== src/Gateway/Logs.antt =====
-- `eth_getLogs` over a wide range: apps/gateway/src/getlogs.ts.
--
-- The upstream is a parameter: what it answers may depend on how many requests this query spent before,
-- and is a list of logs, a value that is no list (`none`), or an error with a message. Block numbers are
-- naturals, and the tags of a filter stand as the source's `tag` reads them, `head` or a number.
pub mod Complete
pub mod Budget
pub mod Served
use ordofi.Base.{
  ℕ, zero, suc, ◌+◌, ◌-◌, ◌/◌, List, [], ◌∷◌, ◌++◌, Bool, true, false, ◌||◌, Option, none, some,
  length, ltb, leb, if◌then◌else◌,
}
use ordofi.Base.Int.{ℤ, pos, negsuc}
use ordofi.Base.Text.{Text, codes, text_eq, to_lower_case, includes, big_int}

-- The errors: the upstream's own, passed on, and the four `RpcError`s.
pub data Failure : Type 0 where
  upstream : Text → Failure
  reversed_range : Failure
  over_calls : ℕ → Failure
  over_logs : ℕ → Failure
  crowded_block : ℕ → Failure

pub data Answer {ℓ} (A : Type ℓ) : Type ℓ where
  answered : A → Answer A
  refused : Text → Answer A

unfoldable pub is_range_refusal : Text → Bool
is_range_refusal message =
    let m = to_lower_case message in
    includes m (codes "block range")
    || includes m (codes "range limit")
    || includes m (codes "exceeds limit")
    || includes m (codes "query returned more than")
    || includes m (codes "too many results")
    || includes m (codes "log response size exceeded")
    || includes m (codes "range too large")

-- What `tag` reads: a tag of the head, or a number.
pub data Tag : Type 0 where
  head : Tag
  number : ℕ → Tag

at_head : ℕ → Tag → ℕ
at_head h head = h
at_head h (number n) = n

-- The range of two tags, given what `eth_blockNumber` answers (`none` for no finite number).
unfoldable pub resolve_range : Tag → Tag → Answer (Option ℕ) → Answer (Option (ℕ × ℕ))
unfolding at_head
resolve_range (number a) (number b) answer = answered (some (a, b))
resolve_range a b (refused message) = refused message
resolve_range a b (answered none) = answered none
resolve_range a b (answered (some h)) = answered (some (at_head h a, at_head h b))

pub data Status : Type 0 where
  complete : Status
  failed : Failure → Status
  out_of_fuel : Status

-- What `getLogsWide` returns or throws; `unfinished` stands for a walk without fuel, which does not
-- occur.
pub data Reply {ℓ} (L : Type ℓ) : Type ℓ where
  reply : Option (List L) → Reply L
  thrown : Failure → Reply L
  unfinished : Reply L

-- The requests spent, the logs gathered, and how the walk ended.
pub record Walk {ℓ} (L : Type ℓ) : Type ℓ where
  pub calls : ℕ
  pub out : List L
  pub status : Status

module _ {ℓ} {L : Type ℓ} where
  -- Logs that came back, added to the ones gathered before.
  unfoldable pub gather : ℕ → Option (List L) → ℕ → List L → Walk L
  gather max_logs none calls out = record { calls = calls; out = out; status = complete }
  gather max_logs (some logs) calls out =
      if ltb max_logs (length out + length logs)
      then record { calls = calls; out = out; status = failed (over_logs max_logs) }
      else record { calls = calls; out = out ++ logs; status = complete }

  -- The second half follows a first one that is complete.
  then_on : Status → Walk L → (ℕ → List L → Walk L) → Walk L
  then_on complete w k = k w.calls w.out
  then_on (failed f) w k = w
  then_on out_of_fuel w k = w

  unfoldable pub then_walk : Walk L → (ℕ → List L → Walk L) → Walk L
  unfolding then_on
  then_walk w k = then_on w.status w k

  -- `out` once the walk is complete, or what it threw.
  reply_of : Status → Walk L → Reply L
  reply_of complete w = reply (some w.out)
  reply_of (failed f) w = thrown f
  reply_of out_of_fuel w = unfinished

  passed_on : Answer (Option (List L)) → Reply L
  passed_on (answered logs) = reply logs
  passed_on (refused message) = thrown (upstream message)

module _ {ℓ} {L : Type ℓ} (rpc : ℕ → ℕ → ℕ → Answer (Option (List L)))
    (max_calls max_logs : ℕ) where
  -- What the upstream answered about a range, given the walk over narrower ranges.
  unfoldable pub on_answer :
      (ℕ → ℕ → ℕ → List L → Walk L) → Answer (Option (List L)) → ℕ → ℕ → ℕ → List L → Walk L
  unfolding gather then_walk
  on_answer walk_on (answered logs) lo hi calls out = gather max_logs logs calls out
  on_answer walk_on (refused message) lo hi calls out =
      if is_range_refusal message
      then if leb hi lo
        then record { calls = calls; out = out; status = failed (crowded_block lo) }
        else (let mid = lo + (hi - lo) / 2 in
            then_walk (walk_on lo mid calls out) (walk_on (mid + 1) hi))
      else record { calls = calls; out = out; status = failed (upstream message) }

  -- `walk`, on fuel.
  unfoldable pub walk : ℕ → ℕ → ℕ → ℕ → List L → Walk L
  unfolding on_answer
  walk zero lo hi calls out = record { calls = calls; out = out; status = out_of_fuel }
  walk (suc fuel) lo hi calls out =
      if leb max_calls calls
      then record { calls = calls; out = out; status = failed (over_calls max_calls) }
      else on_answer (walk fuel) (rpc calls lo hi) lo hi (calls + 1) out

  -- The rest of `getLogsWide` once the query as asked was refused, given the range.
  unfoldable pub over_range : Answer (Option (ℕ × ℕ)) → Reply L
  unfolding walk reply_of
  over_range (refused message) = thrown (upstream message)
  over_range (answered none) = thrown reversed_range
  over_range (answered (some (lo, hi))) =
      if ltb hi lo
      then thrown reversed_range
      else let w = walk (hi - lo + 1) lo hi 1 [] in reply_of w.status w

  after_first : Answer (Option (List L)) → Answer (Option (ℕ × ℕ)) → Reply L
  unfolding over_range
  after_first (answered logs) range = reply logs
  after_first (refused message) range =
      if is_range_refusal message then over_range range else thrown (upstream message)

  -- `getLogsWide`, given whether the filter has a block hash, the answer to the query as asked, the two
  -- tags, and the answer to `eth_blockNumber`.
  unfoldable pub get_logs_wide :
      Bool → Answer (Option (List L)) → Tag → Tag → Answer (Option ℕ) → Reply L
  unfolding passed_on after_first
  get_logs_wide by_hash first from_block to_block head_block =
      if by_hash
      then passed_on first
      else after_first first (resolve_range from_block to_block head_block)
