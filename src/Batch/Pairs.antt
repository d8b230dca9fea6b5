-- ===== src/Batch/Pairs.antt =====
-- `groupByPair` of apps/batcher/src/solver.ts.
pub mod Partition
use mathlib.Core.List.{map, foldl}
use ordofi.Base.{ℕ, List, [], ◌∷◌, ◌++◌, Bool, Option, none, some, or_else, if◌then◌else◌}
use ordofi.Base.Text.{Text, codes, text_eq, text_ltb}
use ordofi.Base.Assoc.{TextMap, get, put}
use ordofi.Batch.Types.{Order, as_token}

-- Sorted tokens a and b, the orders selling a for b, and the orders selling b for a.
pub record PairBatch : Type 0 where
  pub a : Text
  pub b : Text
  pub sell_a : List Order
  pub sell_b : List Order

abbrev pub all_orders : PairBatch → List Order
all_orders pb = pb.sell_a ++ pb.sell_b

-- `[s, bt].sort()`
unfoldable pub sort_pair : Text → Text → Text × Text
sort_pair s t = if text_ltb t s then (t, s) else (s, t)

abbrev pub pair_key : Text → Text → Text
pair_key a b = a ++ (codes ":" ++ b)

-- `pairKey`
pub key_of_order : Order → Text
unfolding sort_pair as_token
key_of_order o =
    let (a, b) = sort_pair (as_token o.sell_token) (as_token o.buy_token) in pair_key a b

abbrev empty_batch : Text → Text → PairBatch
empty_batch a b = record { a = a; b = b; sell_a = []; sell_b = [] }

-- `(s === a ? pb.sellA : pb.sellB).push(o)`
push_order : Order → Text → Text → PairBatch → PairBatch
push_order o s a pb =
    if text_eq s a
    then record pb { sell_a = pb.sell_a ++ o ∷ [] }
    else record pb { sell_b = pb.sell_b ++ o ∷ [] }

-- One round of the loop over the orders, for tokens already sorted.
add_sorted : Order → Text → Text → Text → TextMap PairBatch → TextMap PairBatch
unfolding push_order get put
add_sorted o s a b m =
    let k = pair_key a b in put k (push_order o s a (or_else (get k m) (empty_batch a b))) m

add_order : TextMap PairBatch → Order → TextMap PairBatch
unfolding add_sorted sort_pair as_token
add_order m o =
    let s = as_token o.sell_token in
    let (a, b) = sort_pair s (as_token o.buy_token) in add_sorted o s a b m

group_from : TextMap PairBatch → List Order → TextMap PairBatch
unfolding add_order
group_from m [] = m
group_from m (o ∷ os) = group_from (add_order m o) os

abbrev pub values {ℓ} : {V : Type ℓ} → TextMap V → List V
values [] = []
values ((k, v) ∷ m) = v ∷ values m

unfoldable pub group_by_pair : List Order → List PairBatch
unfolding group_from
group_by_pair os = values (group_from [] os)
