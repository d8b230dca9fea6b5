-- ===== src/Gateway/Race.antt =====
-- `hedged` of apps/gateway/src/fastpath.ts: a primary request raced against a hedge.
--
-- The events are the settling of the two requests and the timer. Each request settles once, the hedge
-- only after it was fired, and the timer not after it fired or was cleared: other events do nothing.
-- `primary` and `hedge` record what the requests answered.
pub mod Answers
pub mod Settled
use ordofi.Base.{
  ℕ, List, [], ◌∷◌, ◌++◌, Bool, true, false, not, ◌&&◌, ◌||◌, Option, none, some, is_some,
  if◌then◌else◌,
}

pub data Answer {ℓ} (T : Type ℓ) : Type ℓ where
  value : T → Answer T
  failure : ℕ → Answer T

pub data Notice : Type 0 where
  fired won withheld : Notice

pub record Race {ℓ} (T : Type ℓ) : Type ℓ where
  pub settled : Option (Answer T)
  pub primary_error : Option ℕ
  pub hedge_started : Bool
  pub hedge_done : Bool
  pub timer_set : Bool
  pub notices : List Notice
  pub primary : Option (Answer T)
  pub hedge : Option (Answer T)

pub data Event {ℓ} (T : Type ℓ) : Type ℓ where
  -- The timer, with what `mayHedge` answers.
  timer : Bool → Event T
  primary_settles : Answer T → Event T
  hedge_settles : Answer T → Event T

module _ {ℓ} {T : Type ℓ} where
  unfoldable pub start : Race T
  start = record {
    settled = none;
    primary_error = none;
    hedge_started = false;
    hedge_done = false;
    timer_set = true;
    notices = [];
    primary = none;
    hedge = none;
  }

  -- The callback of the timer.
  on_timer : Bool → Race T → Race T
  on_timer may_hedge r =
      if is_some r.settled
      then record r { timer_set = false }
      else if not may_hedge
      then record r { timer_set = false; notices = r.notices ++ withheld ∷ [] }
      else record r { timer_set = false; hedge_started = true; notices = r.notices ++ fired ∷ [] }

  -- The two callbacks of the primary.
  on_primary : Answer T → Race T → Race T
  on_primary (value v) r =
      if is_some r.settled
      then record r { timer_set = false; primary = some (value v) }
      else record r { timer_set = false; primary = some (value v); settled = some (value v) }
  on_primary (failure e) r =
      if is_some r.settled
      then record r { timer_set = false; primary = some (failure e); primary_error = some e }
      else if not r.hedge_started || r.hedge_done
      then record r {
        timer_set = false;
        primary = some (failure e);
        primary_error = some e;
        settled = some (failure e);
      }
      else record r { timer_set = false; primary = some (failure e); primary_error = some e }

  -- `if (!settled && primaryError !== undefined) { settled = true; reject(primaryError); }`
  reject_primary : Option ℕ → Race T → Race T
  reject_primary none r = r
  reject_primary (some e) r =
      if is_some r.settled then r else record r { settled = some (failure e) }

  -- The two callbacks of the hedge.
  on_hedge : Answer T → Race T → Race T
  unfolding reject_primary
  on_hedge (value v) r =
      if is_some r.settled
      then record r { hedge_done = true; hedge = some (value v) }
      else record r {
        hedge_done = true;
        hedge = some (value v);
        settled = some (value v);
        notices = r.notices ++ won ∷ [];
      }
  on_hedge (failure e) r =
      reject_primary r.primary_error (record r { hedge_done = true; hedge = some (failure e) })

  unfoldable pub step : Race T → Event T → Race T
  unfolding on_timer on_primary on_hedge
  step r (timer may_hedge) = if r.timer_set then on_timer may_hedge r else r
  step r (primary_settles a) = if is_some r.primary then r else on_primary a r
  step r (hedge_settles a) = if r.hedge_started && not r.hedge_done then on_hedge a r else r

  unfoldable pub run : Race T → List (Event T) → Race T
  unfolding step
  run r [] = r
  run r (e ∷ es) = run (step r e) es
