-- ===== src/Gateway/Logs/Budget.antt =====
-- The walk ends, within its budgets, and answers where the budgets allow it.
use ordofi.Base.{
  ℕ, zero, suc, ◌+◌, ◌-◌, ◌≤◌, ◌<◌, ◌/◌, List, [], Option, none, some, length, ltb, leb, if_elim,
  ◌≢◌, arith, length-append,
}
use ordofi.Gateway.Logs.{
  Answer, answered, refused, is_range_refusal, Status, complete, failed, out_of_fuel, Walk, gather,
  then_on, then_walk, on_answer, walk,
}

module _ {ℓ} {L : Type ℓ} (rpc : ℕ → ℕ → ℕ → Answer (Option (List L)))
    (max_calls max_logs : ℕ) where
  -- Within the budgets, and not for want of fuel.
  record IsWithin (w : Walk L) : Type ℓ where
    calls_ok : w.calls ≤ max_calls
    logs_ok : length w.out ≤ max_logs
    ended : w.status ≢ out_of_fuel

  then_on-IsWithin :
      (s : Status) (w : Walk L) (k : ℕ → List L → Walk L)
      → IsWithin w
      → ((calls : ℕ) (out : List L)
          → calls ≤ max_calls
          → length out ≤ max_logs
          → IsWithin (k calls out))
      → IsWithin (then_on s w k)
  unfolding then_on
  then_on-IsWithin complete w k h f = f w.calls w.out h.calls_ok h.logs_ok
  then_on-IsWithin (failed e) w k h f = h
  then_on-IsWithin out_of_fuel w k h f = h

  gather-IsWithin :
      (logs : Option (List L)) (calls : ℕ) (out : List L)
      → calls ≤ max_calls
      → length out ≤ max_logs
      → IsWithin (gather max_logs logs calls out)
  unfolding gather
  gather-IsWithin none calls out c l = record { calls_ok = c; logs_ok = l; ended = λ e. cc }
  gather-IsWithin (some logs) calls out c l =
      if_elim IsWithin (ltb max_logs (length out + length logs))
        (λ _. record { calls_ok = c; logs_ok = l; ended = λ e. cc })
        (λ n. record {
          calls_ok = c;
          logs_ok = rw (length-append out logs) (ground arith);
          ended = λ e. cc;
        })

  module _ (fuel : ℕ)
      (ih : (lo hi calls : ℕ) (out : List L)
        → lo ≤ hi
        → hi - lo < fuel
        → calls ≤ max_calls
        → length out ≤ max_logs
        → IsWithin (walk rpc max_calls max_logs fuel lo hi calls out))
      (lo hi calls : ℕ) (out : List L) (h : lo ≤ hi) (f : hi - lo < suc fuel)
      (c : calls ≤ max_calls) (l : length out ≤ max_logs) where
    on_answer-IsWithin :
        (a : Answer (Option (List L)))
        → IsWithin
            (on_answer rpc max_calls max_logs (walk rpc max_calls max_logs fuel) a lo hi calls out)
    unfolding on_answer then_walk
    on_answer-IsWithin (answered logs) = gather-IsWithin logs calls out c l
    on_answer-IsWithin (refused message) =
        if_elim IsWithin (is_range_refusal message)
          (λ _.
            if_elim IsWithin (leb hi lo)
              (λ _. record { calls_ok = c; logs_ok = l; ended = λ e. cc })
              (λ n.
                let mid_lt : lo + (hi - lo) / 2 < hi = ground arith in
                then_on-IsWithin _ _ _
                  (ih lo (lo + (hi - lo) / 2) calls out (omega arith) (omega arith) c l)
                  (λ calls' out'.
                    ih (lo + (hi - lo) / 2 + 1) hi calls' out' (omega arith) (omega arith))))
          (λ _. record { calls_ok = c; logs_ok = l; ended = λ e. cc })

  walk-IsWithin :
      (fuel lo hi calls : ℕ) (out : List L)
      → lo ≤ hi
      → hi - lo < fuel
      → calls ≤ max_calls
      → length out ≤ max_logs
      → IsWithin (walk rpc max_calls max_logs fuel lo hi calls out)
  unfolding walk
  walk-IsWithin zero lo hi calls out h f c l = absurd (omega arith)
  walk-IsWithin (suc fuel) lo hi calls out h f c l =
      if_elim IsWithin (leb max_calls calls)
        (λ _. record { calls_ok = c; logs_ok = l; ended = λ e. cc })
        (λ n.
          on_answer-IsWithin fuel (walk-IsWithin fuel) lo hi (calls + 1) out h f (ground arith) l
            (rpc calls lo hi))

  -- The walk over a range, on the fuel that the range gets: it ends, having spent no more requests and
  -- gathered no more logs than it may, whatever the upstream answers.
  pub walk_bounds :
      (lo hi : ℕ)
      → lo ≤ hi
      → 1 ≤ max_calls
      → let w = walk rpc max_calls max_logs (hi - lo + 1) lo hi 1 [] in
        (w.calls ≤ max_calls) × (length w.out ≤ max_logs) × (w.status ≢ out_of_fuel)
  walk_bounds lo hi h c =
      let w = walk-IsWithin (hi - lo + 1) lo hi 1 [] h (omega arith) c (omega arith) in
      (w.calls_ok, w.logs_ok, w.ended)
