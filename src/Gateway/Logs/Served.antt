-- ===== src/Gateway/Logs/Served.antt =====
-- A wide query is answered in full where the upstream serves narrow ranges and the budgets allow it.
use mathlib.Core.List.{append_assoc}
use ordofi.Base.{
  ℕ, zero, suc, ◌+◌, ◌-◌, ◌*◌, ◌≤◌, ◌<◌, ◌/◌, List, [], ◌++◌, true, false, Option, some, length,
  ltb, leb, if_elim, ◌≡◌, refl, ◌∙◌, ap, arith, sym, length-append, ◌⊎◌, inl, inr,
}
use ordofi.Base.Text.{Text}
use ordofi.Gateway.Logs.{
  Answer, answered, refused, is_range_refusal, complete, Walk, gather, then_on, then_walk,
  on_answer, walk, reply_of, over_range, reply,
}
use ordofi.Gateway.Logs.Complete.{logs_between, logs_between-split}

-- An upstream that answers every query about one block, and answers a wider one or refuses it as too
-- wide.
abbrev pub Serves {ℓ} :
    {L : Type ℓ} → (ℕ → ℕ → ℕ → Answer (Option (List L))) → (ℕ → List L) → Type ℓ
Serves rpc chain =
    (n lo hi : ℕ)
    → (rpc n lo hi ≡ answered (some (logs_between chain lo hi)))
      ⊎ ((lo < hi) × ((m : Text) × (rpc n lo hi ≡ refused m) × (is_range_refusal m ≡ true)))

module _ {ℓ} {L : Type ℓ} (rpc : ℕ → ℕ → ℕ → Answer (Option (List L))) (max_calls max_logs : ℕ)
    (chain : ℕ → List L) (serves : Serves rpc chain) where
  -- Complete with the logs of the range, for at most `cost` requests.
  record IsServed (lo hi calls cost : ℕ) (out : List L) (w : Walk L) : Type ℓ where
    status_eq : w.status ≡ complete
    out_eq : w.out ≡ out ++ logs_between chain lo hi
    cost_le : w.calls ≤ calls + cost

  gather-IsServed :
      (lo hi calls cost : ℕ) (out : List L)
      → length out + length (logs_between chain lo hi) ≤ max_logs
      → IsServed lo hi calls cost out (gather max_logs (some (logs_between chain lo hi)) calls out)
  unfolding gather
  gather-IsServed lo hi calls cost out l =
      if_elim (IsServed lo hi calls cost out)
        (ltb max_logs (length out + length (logs_between chain lo hi))) (λ t. absurd (ground arith))
        (λ _. record { status_eq = refl; out_eq = refl; cost_le = omega arith })

  then_on-IsServed :
      (lo mid hi calls a b : ℕ) (out : List L) (w : Walk L) (k : ℕ → List L → Walk L)
      → lo ≤ mid
      → mid < hi
      → IsServed lo mid calls a out w
      → IsServed (mid + 1) hi w.calls b w.out (k w.calls w.out)
      → IsServed lo hi calls (a + b) out (then_walk w k)
  unfolding then_walk then_on
  then_on-IsServed lo mid hi calls a b out w k l r p q =
      rw (p.status_eq, then_on)
        record {
          status_eq = q.status_eq;
          out_eq =
              q.out_eq
              ∙ ap (λ o. o ++ logs_between chain (mid + 1) hi) p.out_eq
              ∙ append_assoc out (logs_between chain lo mid) (logs_between chain (mid + 1) hi)
              ∙ ap (λ o. out ++ o) (sym (logs_between-split chain lo mid hi l r));
          cost_le = omega (arith, p.cost_le, q.cost_le);
        }

  length-logs_between-split :
      (lo mid hi : ℕ)
      → lo ≤ mid
      → mid < hi
      → length (logs_between chain lo hi)
        ≡ length (logs_between chain lo mid) + length (logs_between chain (mid + 1) hi)
  length-logs_between-split lo mid hi l r =
      ap length (logs_between-split chain lo mid hi l r)
      ∙ length-append (logs_between chain lo mid) (logs_between chain (mid + 1) hi)

  later :
      (lo hi calls calls' cost cost' : ℕ) (out : List L) (w : Walk L)
      → calls' + cost' ≤ calls + cost
      → IsServed lo hi calls' cost' out w
      → IsServed lo hi calls cost out w
  later lo hi calls calls' cost cost' out w le p = record {
    status_eq = p.status_eq;
    out_eq = p.out_eq;
    cost_le = omega (arith, p.cost_le, le);
  }

  module _ (fuel : ℕ)
      (ih : (lo hi calls : ℕ) (out : List L)
        → lo ≤ hi
        → hi - lo < fuel
        → calls + 2 * (hi - lo) < max_calls
        → length out + length (logs_between chain lo hi) ≤ max_logs
        → IsServed lo hi calls
            (2 * (hi - lo) + 1)
            out
            (walk rpc max_calls max_logs fuel lo hi calls out))
      (lo hi calls : ℕ) (out : List L) (f : hi - lo < suc fuel)
      (c : calls + 2 * (hi - lo) < max_calls)
      (l : length out + length (logs_between chain lo hi) ≤ max_logs) where
    walk_on : ℕ → ℕ → ℕ → List L → Walk L
    walk_on = walk rpc max_calls max_logs fuel

    halves-IsServed :
        (mid : ℕ)
        → lo ≤ mid
        → mid < hi
        → IsServed lo hi calls
            (2 * (hi - lo) + 1)
            out
            (then_walk (walk_on lo mid (calls + 1) out) (walk_on (mid + 1) hi))
    unfolding walk_on
    halves-IsServed mid a b =
        let first = walk rpc max_calls max_logs fuel lo mid (calls + 1) out in
        let total = length-logs_between-split lo mid hi a b in
        let p = ih lo mid (calls + 1) out a (omega arith) (omega arith) (omega arith) in
        let held : length first.out ≡ length out + length (logs_between chain lo mid) =
          ap length p.out_eq ∙ length-append out (logs_between chain lo mid) in
        let q =
          ih (mid + 1) hi first.calls first.out (omega arith) (omega arith)
            (omega (arith, p.cost_le)) (omega arith) in
        later lo hi calls (calls + 1) (2 * (hi - lo) + 1)
          (2 * (mid - lo) + 1 + (2 * (hi - (mid + 1)) + 1)) out _ (omega arith)
          (then_on-IsServed lo mid hi (calls + 1) _ _ out first (walk_on (mid + 1) hi) a b p q)

    on_answer-IsServed :
        IsServed lo hi calls
          (2 * (hi - lo) + 1)
          out
          (on_answer rpc max_calls max_logs walk_on (rpc calls lo hi) lo hi (calls + 1) out)
    unfolding on_answer
    on_answer-IsServed = elim (serves calls lo hi) [
      | inl e ↦ rw e (
          later lo hi calls (calls + 1) (2 * (hi - lo) + 1) 0 out _ (omega arith)
            (gather-IsServed lo hi (calls + 1) 0 out l))
      | inr (wide, (m, e, refusal)) ↦
          rw (e, on_answer, refusal)
            (if_elim (IsServed lo hi calls (2 * (hi - lo) + 1) out) (leb hi lo)
              (λ t. absurd (ground arith))
              (λ _. halves-IsServed (lo + (hi - lo) / 2) (omega arith) (omega arith)))
    ]

  walk-IsServed :
      (fuel lo hi calls : ℕ) (out : List L)
      → lo ≤ hi
      → hi - lo < fuel
      → calls + 2 * (hi - lo) < max_calls
      → length out + length (logs_between chain lo hi) ≤ max_logs
      → IsServed lo hi calls
          (2 * (hi - lo) + 1)
          out
          (walk rpc max_calls max_logs fuel lo hi calls out)
  unfolding walk walk_on
  walk-IsServed zero lo hi calls out h f c l = absurd (omega arith)
  walk-IsServed (suc fuel) lo hi calls out h f c l =
      if_elim (IsServed lo hi calls (2 * (hi - lo) + 1) out) (leb max_calls calls)
        (λ t. absurd (ground arith))
        (λ _. on_answer-IsServed fuel (walk-IsServed fuel) lo hi calls out f c l)

  -- From an upstream that serves each block, and any wider range or refuses it as too wide: a query over
  -- the blocks from `lo` to `hi` whose first attempt was refused returns all their logs in block order,
  -- if one request and two for each block fit the budget of requests and the logs fit theirs.
  pub over_range-served :
      (lo hi : ℕ)
      → lo ≤ hi
      → 1 + 2 * (hi - lo) < max_calls
      → length (logs_between chain lo hi) ≤ max_logs
      → over_range rpc max_calls max_logs (answered (some (lo, hi)))
        ≡ reply (some (logs_between chain lo hi))
  unfolding over_range reply_of
  over_range-served lo hi h c l =
      let p = walk-IsServed (hi - lo + 1) lo hi 1 [] h (omega arith) c (omega arith) in
      let in_order : ltb hi lo ≡ false = ground arith in
      rw (in_order, p.status_eq, reply_of, p.out_eq) refl
