-- ===== src/Auction/Anchor.antt =====
-- The log of receipts and its anchoring, apps/auction/src/receipts.ts.
--
-- A receipt is known by its id, and its hash is a number. `World` has the log, the calls of the
-- contract that have not settled, each by its count, and the count that the contract has; a call
-- settles by an event, in any order, and fails or is the contract's from then on. `syncAnchorState`
-- has ended before the first event.
pub mod Growth
mod Tests
use ordofi.Base.{
  ℕ, zero, suc, ◌==◌, ◌+◌, List, [], ◌∷◌, ◌++◌, Bool, true, false, not, ◌||◌, Option, none, some,
  is_some, length, ltb, if◌then◌else◌,
}
use ordofi.Base.Text.{Text, to_lower_case}
use ordofi.Base.Assoc.{TextMap, put, remove}

pub record Published : Type 0 where
  pub opportunity_id : Text
  pub hash : ℕ

pub record ReceiptLog : Type 0 where
  pub keep_receipts : ℕ
  pub commit_every : ℕ
  pub has_account : Bool
  pub configured : Bool
  pub by_id : TextMap Published
  pub leaves : List ℕ
  pub last_committed : ℕ
  pub committing : Bool

-- `byId.delete(byId.keys().next().value)`
forget_oldest : TextMap Published → TextMap Published
forget_oldest [] = []
forget_oldest ((k, r) ∷ m) = remove k ((k, r) ∷ m)

-- `remember`
unfoldable pub remember : Published → ReceiptLog → ReceiptLog
unfolding forget_oldest
remember r l =
    let by_id = put (to_lower_case r.opportunity_id) r l.by_id in
    record l {
      by_id = if ltb l.keep_receipts (length by_id) then forget_oldest by_id else by_id;
      leaves = l.leaves ++ r.hash ∷ [];
    }

-- `hydrate`, over the lines that parse.
unfoldable pub hydrate : List Published → ReceiptLog → ReceiptLog
unfolding remember
hydrate [] l = l
hydrate (r ∷ rs) l = hydrate rs (remember r l)

-- `syncAnchorState`, given what `total` and the count of `latest` are, `none` where a call throws.
unfoldable pub sync_anchor_state : Option (ℕ × ℕ) → ReceiptLog → ReceiptLog
sync_anchor_state none l = l
sync_anchor_state (some (total, count)) l =
    if not l.configured || total == 0 then l else record l { last_committed = count }

-- How `maybeCommitRoot` goes on: not at all, with its refusal, or with a commit over that many leaves.
pub data Decision : Type 0 where
  waits refuses : Decision
  commits : ℕ → Decision

unfoldable pub decide_commit : ReceiptLog → Decision
decide_commit l =
    if not l.has_account || not l.configured || l.committing
    then waits
    else if ltb (length l.leaves) (l.last_committed + l.commit_every)
    then waits
    else if ltb (length l.leaves) l.last_committed
    then refuses
    else commits (length l.leaves)

-- The rest of `maybeCommitRoot`, once the call succeeded or failed.
settle_commit : Bool → ℕ → ReceiptLog → ReceiptLog
settle_commit ok count l =
    if ok
    then record l { last_committed = count; committing = false }
    else record l { committing = false }

pub record World : Type 0 where
  pub log : ReceiptLog
  pub calls : List ℕ
  pub chain : ℕ

begin_commit : Decision → World → World
begin_commit (commits count) w = record w {
  log = record w.log { committing = true };
  calls = w.calls ++ count ∷ [];
}
begin_commit _ w = w

-- `maybeCommitRoot`, up to the call of the contract.
unfoldable pub maybe_commit_root : World → World
unfolding begin_commit decide_commit
maybe_commit_root w = begin_commit (decide_commit w.log) w

-- The call at this place, and the calls without it.
take_call : ℕ → List ℕ → Option (ℕ × List ℕ)
take_call i [] = none
take_call zero (c ∷ cs) = some (c, cs)
take_call (suc i) (c ∷ cs) = elim (take_call i cs) [ none ↦ none | some (d, ds) ↦ some (d, c ∷ ds) ]

settle_call : Bool → Option (ℕ × List ℕ) → World → World
unfolding settle_commit
settle_call ok none w = w
settle_call ok (some (count, calls)) w = record w {
  log = settle_commit ok count w.log;
  calls = calls;
  chain = if ok then count else w.chain;
}

pub data Event : Type 0 where
  publishes : Published → Event
  settles : ℕ → Bool → Event

unfoldable pub step : World → Event → World
unfolding remember maybe_commit_root settle_call take_call
step w (publishes r) = maybe_commit_root (record w { log = remember r w.log })
step w (settles i ok) = settle_call ok (take_call i w.calls) w

unfoldable pub run : World → List Event → World
unfolding step
run w [] = w
run w (e ∷ es) = run (step w e) es
