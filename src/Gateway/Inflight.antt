-- ===== src/Gateway/Inflight.antt =====
-- The class `InflightCap` of apps/gateway/src/fastpath.ts.
--
-- A waiter is known by a number, for its closure `wake`. `slots` holds the releasers that were handed
-- out and not called yet, so that a second call of one finds nothing: the flag `released`. A timer
-- that fires after its waiter was woken finds nothing too; the source clears it.
pub mod Settings
pub mod Bounds
pub mod Release
use ordofi.Base.{
  ℕ, zero, suc, ◌+◌, ◌-◌, List, [], ◌∷◌, ◌++◌, Bool, true, false, Option, none, some, or_else, ltb,
  leb, ◌==◌, if◌then◌else◌,
}
use ordofi.Base.Text.{Text, text_eq}
use ordofi.Base.Assoc.{TextMap, get, put, remove}

pub record InflightCap : Type 0 where
  pub max : ℕ
  pub counts : TextMap ℕ
  pub waiters : TextMap (List ℕ)

pub data Acquired : Type 0 where
  unlimited taken waiting : Acquired

-- `this.counts.get(key) ?? 0`
unfoldable pub inflight : InflightCap → Text → ℕ
inflight c key = or_else (get key c.counts) 0

-- `this.waiters.get(key) ?? []`
unfoldable pub queue : InflightCap → Text → List ℕ
queue c key = or_else (get key c.waiters) []

-- `acquire`, up to the wait.
unfoldable pub acquire : Text → ℕ → InflightCap → InflightCap × Acquired
unfolding inflight queue
acquire key wake c =
    if c.max == 0
    then (c, unlimited)
    else if ltb (inflight c key) c.max
    then (record c { counts = put key (inflight c key + 1) c.counts }, taken)
    else (record c { waiters = put key (queue c key ++ wake ∷ []) c.waiters }, waiting)

-- `const i = list.indexOf(wake); if (i >= 0) list.splice(i, 1);`
splice : ℕ → List ℕ → List ℕ
splice wake [] = []
splice wake (x ∷ xs) = if x == wake then xs else x ∷ splice wake xs

-- `if (!list.length) this.waiters.delete(key)`, the list being the one in the map.
keep_queue : Text → List ℕ → InflightCap → InflightCap
keep_queue key [] c = record c { waiters = remove key c.waiters }
keep_queue key (x ∷ xs) c = record c { waiters = put key (x ∷ xs) c.waiters }

expire_in : Text → ℕ → Option (List ℕ) → InflightCap → InflightCap
unfolding splice keep_queue
expire_in key wake none c = c
expire_in key wake (some list) c = keep_queue key (splice wake list) c

-- The timer of a waiter.
unfoldable pub expire : Text → ℕ → InflightCap → InflightCap
unfolding expire_in
expire key wake c = expire_in key wake (get key c.waiters) c

-- `(this.counts.get(key) ?? 1) - 1`, and what it does to the count.
free_slot : Text → InflightCap → InflightCap
free_slot key c =
    let m = or_else (get key c.counts) 1 - 1 in
    if m == 0
    then record c { counts = remove key c.counts }
    else record c { counts = put key m c.counts }

release_to : Text → Option (List ℕ) → InflightCap → InflightCap × Option ℕ
unfolding keep_queue free_slot
release_to key none c = (free_slot key c, none)
release_to key (some []) c = (free_slot key (keep_queue key [] c), none)
release_to key (some (next ∷ rest)) c = (keep_queue key rest c, some next)

-- The first call of a releaser: the new state, and the waiter that the slot passes to.
unfoldable pub release : Text → InflightCap → InflightCap × Option ℕ
unfolding release_to
release key c = release_to key (get key c.waiters) c

-- The cap and the slots that are held.
pub record World : Type 0 where
  pub cap : InflightCap
  pub slots : List (ℕ × Text)

pub data Event : Type 0 where
  request : Text → ℕ → Event
  timer : Text → ℕ → Event
  finish : ℕ → Event

granted : Text → ℕ → InflightCap × Acquired → List (ℕ × Text) → World
granted key id (c, taken) slots = record { cap = c; slots = (id, key) ∷ slots }
granted key id (c, _) slots = record { cap = c; slots = slots }

-- The slot of a releaser, and the slots without it.
find_slot : ℕ → List (ℕ × Text) → Option (Text × List (ℕ × Text))
find_slot id [] = none
find_slot id ((i, k) ∷ slots) = elim (i == id) [
  | true ↦ some (k, slots)
  | false ↦ elim (find_slot id slots) [ none ↦ none | some (key, rest) ↦ some (key, (i, k) ∷ rest) ]
]

passed : Text → InflightCap × Option ℕ → List (ℕ × Text) → World
passed key (c, none) slots = record { cap = c; slots = slots }
passed key (c, some next) slots = record { cap = c; slots = (next, key) ∷ slots }

finish_slot : Option (Text × List (ℕ × Text)) → World → World
unfolding passed release
finish_slot none w = w
finish_slot (some (key, rest)) w = passed key (release key w.cap) rest

unfoldable pub step : World → Event → World
unfolding granted find_slot finish_slot acquire expire
step w (request key id) = granted key id (acquire key id w.cap) w.slots
step w (timer key id) = record w { cap = expire key id w.cap }
step w (finish id) = finish_slot (find_slot id w.slots) w

unfoldable pub run : World → List Event → World
unfolding step
run w [] = w
run w (e ∷ es) = run (step w e) es

unfoldable pub idle : ℕ → World
idle max = record { cap = record { max = max; counts = []; waiters = [] }; slots = [] }

-- How many slots a key holds.
unfoldable pub held : Text → List (ℕ × Text) → ℕ
held key [] = 0
held key ((i, k) ∷ slots) = if text_eq k key then held key slots + 1 else held key slots
