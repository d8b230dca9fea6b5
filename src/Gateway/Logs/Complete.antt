-- ===== src/Gateway/Logs/Complete.antt =====
-- A complete walk has all the logs, in block order.
use ordofi.Base.{
  ℕ, zero, suc, ◌+◌, ◌-◌, ◌≤◌, ◌<◌, ◌/◌, List, [], ◌++◌, Option, some, length, ltb, leb, if_elim,
  ◌≡◌, refl, ◌∙◌, ap, arith, sym,
}
use ordofi.Gateway.Logs.{
  Answer, answered, refused, is_range_refusal, Status, complete, failed, out_of_fuel, Walk, gather,
  then_on, then_walk, on_answer, walk, reply_of, over_range, Reply, reply,
}
use mathlib.Core.List.{append_assoc}

-- The logs of `n` blocks from `lo` on, block after block.
unfoldable pub logs_from {ℓ} : {L : Type ℓ} → (ℕ → List L) → ℕ → ℕ → List L
logs_from chain lo zero = []
logs_from chain lo (suc n) = chain lo ++ logs_from chain (lo + 1) n

-- The logs of the blocks from `lo` to `hi`, both included.
abbrev pub logs_between {ℓ} : {L : Type ℓ} → (ℕ → List L) → ℕ → ℕ → List L
logs_between chain lo hi = logs_from chain lo (hi + 1 - lo)

module _ {ℓ} {L : Type ℓ} (chain : ℕ → List L) where
  zero_add : (n : ℕ) → 0 + n ≡ n
  zero_add n = omega arith

  add_zero : (n : ℕ) → n + 0 ≡ n
  add_zero n = omega arith

  suc_add : (m n : ℕ) → suc m + n ≡ suc (m + n)
  suc_add m n = omega arith

  logs_from-add :
      (lo m n : ℕ) → logs_from chain lo (m + n) ≡ logs_from chain lo m ++ logs_from chain (lo + m) n
  unfolding logs_from
  logs_from-add lo zero n =
      ap (λ (p : ℕ × ℕ). logs_from chain p.0 p.1)
        (ap (λ k. (lo, k)) (zero_add n) ∙ ap (λ k. (k, n)) (sym (add_zero lo)))
  logs_from-add lo (suc m) n =
      ap (λ k. logs_from chain lo k) (suc_add m n)
      ∙ ap (λ l. chain lo ++ l)
          (logs_from-add (lo + 1) m n
            ∙ ap (λ k. logs_from chain (lo + 1) m ++ logs_from chain k n) (omega arith))
      ∙ sym (append_assoc (chain lo) (logs_from chain (lo + 1) m) (logs_from chain (lo + suc m) n))

  pub logs_between-split :
      (lo mid hi : ℕ)
      → lo ≤ mid
      → mid < hi
      → logs_between chain lo hi ≡ logs_between chain lo mid ++ logs_between chain (mid + 1) hi
  logs_between-split lo mid hi h k =
      ap (λ n. logs_from chain lo n) (omega arith)
      ∙ logs_from-add lo (mid + 1 - lo) (hi - mid)
      ∙ ap (λ (p : ℕ × ℕ). logs_from chain lo (mid + 1 - lo) ++ logs_from chain p.0 p.1)
          (ap (λ k. (k, hi - mid)) (omega arith) ∙ ap (λ k. (mid + 1, k)) (omega arith))

-- An upstream that gives a list gives the logs of the range.
abbrev pub IsExact {ℓ} :
    {L : Type ℓ} → (ℕ → ℕ → ℕ → Answer (Option (List L))) → (ℕ → List L) → Type ℓ
IsExact rpc chain =
    (n lo hi : ℕ) (logs : _) → rpc n lo hi ≡ answered logs → logs ≡ some (logs_between chain lo hi)

module _ {ℓ} {L : Type ℓ} (rpc : ℕ → ℕ → ℕ → Answer (Option (List L))) (max_calls max_logs : ℕ)
    (chain : ℕ → List L) (exact : IsExact rpc chain) where
  -- Complete, it added the logs of the range.
  abbrev IsWhole : ℕ → ℕ → List L → Walk L → Type ℓ
  IsWhole lo hi out w = w.status ≡ complete → w.out ≡ out ++ logs_between chain lo hi

  then_on-complete :
      (s : Status) (w : Walk L) (k : ℕ → List L → Walk L)
      → w.status ≡ s
      → (then_on s w k).status ≡ complete
      → (w.status ≡ complete) × (then_on s w k ≡ k w.calls w.out)
  unfolding then_on
  then_on-complete complete w k s e = (s, refl)
  then_on-complete (failed f) w k s e = absurd cc
  then_on-complete out_of_fuel w k s e = absurd cc

  -- The walk over two halves, and over what the upstream answered, if the walks of narrower ranges are
  -- right.
  module _ (walk_on : ℕ → ℕ → ℕ → List L → Walk L)
      (ih : (lo hi calls : ℕ) (out : List L)
        → lo ≤ hi
        → IsWhole lo hi out (walk_on lo hi calls out))
      (lo hi calls : ℕ) (out : List L) where
    halves-IsWhole :
        (mid : ℕ)
        → lo ≤ mid
        → mid < hi
        → IsWhole lo hi out (then_walk (walk_on lo mid calls out) (walk_on (mid + 1) hi))
    unfolding then_walk
    halves-IsWhole mid l r e =
        let first = walk_on lo mid calls out in
        let (done, same) = then_on-complete first.status first (walk_on (mid + 1) hi) refl e in
        ap (λ (w : Walk L). w.out) same
        ∙ ih (mid + 1) hi first.calls first.out (omega arith) (rw same at e)
        ∙ ap (λ l. l ++ logs_between chain (mid + 1) hi) (ih lo mid calls out l done)
        ∙ append_assoc out (logs_between chain lo mid) (logs_between chain (mid + 1) hi)
        ∙ ap (λ l. out ++ l) (sym (logs_between-split chain lo mid hi l r))

    on_answer-IsWhole :
        (a : Answer (Option (List L)))
        → ((logs : Option (List L)) → a ≡ answered logs → logs ≡ some (logs_between chain lo hi))
        → lo ≤ hi
        → IsWhole lo hi out (on_answer rpc max_calls max_logs walk_on a lo hi calls out)
    unfolding on_answer gather
    on_answer-IsWhole (answered logs) right h = rw (right logs refl) (
        if_elim (IsWhole lo hi out) (ltb max_logs (length out + length (logs_between chain lo hi)))
          (λ _ f. absurd cc) (λ _ _. refl))
    on_answer-IsWhole (refused message) right h =
        if_elim (IsWhole lo hi out) (is_range_refusal message)
          (λ _.
            if_elim (IsWhole lo hi out) (leb hi lo) (λ _ f. absurd cc)
              (λ n. halves-IsWhole (lo + (hi - lo) / 2) (omega arith) (ground arith)))
          (λ _ f. absurd cc)

  walk-IsWhole :
      (fuel lo hi calls : ℕ) (out : List L)
      → lo ≤ hi
      → IsWhole lo hi out (walk rpc max_calls max_logs fuel lo hi calls out)
  unfolding walk
  walk-IsWhole zero lo hi calls out h = λ e. absurd cc
  walk-IsWhole (suc fuel) lo hi calls out h =
      if_elim (IsWhole lo hi out) (leb max_calls calls) (λ _ e. absurd cc)
        (λ _.
          on_answer-IsWhole (walk rpc max_calls max_logs fuel) (walk-IsWhole fuel) lo hi (calls + 1)
            out (rpc calls lo hi) (exact calls lo hi) h)

  reply_of-IsWhole :
      (s : Status) (w : Walk L) (lo hi : ℕ) (logs : Option (List L))
      → w.status ≡ s
      → IsWhole lo hi [] w
      → reply_of s w ≡ reply logs
      → logs ≡ some (logs_between chain lo hi)
  unfolding reply_of
  reply_of-IsWhole complete w lo hi logs s whole e =
      let same : some w.out ≡ logs = cc in sym same ∙ ap some (whole s)
  reply_of-IsWhole (failed f) w lo hi logs s whole e = absurd cc
  reply_of-IsWhole out_of_fuel w lo hi logs s whole e = absurd cc

  -- From an upstream whose lists are the logs of the ranges it was asked for: once the query as
  -- asked was refused as too wide, whatever logs the query over the range from `lo` to `hi` returns
  -- are those of all its blocks, in block order, none left out.
  pub over_range-exact :
      (lo hi : ℕ) (logs : Option (List L))
      → over_range rpc max_calls max_logs (answered (some (lo, hi))) ≡ reply logs
      → logs ≡ some (logs_between chain lo hi)
  unfolding over_range
  over_range-exact lo hi logs =
      if_elim (λ (r : Reply L). r ≡ reply logs → logs ≡ some (logs_between chain lo hi)) (ltb hi lo)
        (λ _ e. absurd cc)
        (λ n.
          reply_of-IsWhole _ _ lo hi logs refl
            (walk-IsWhole (hi - lo + 1) lo hi 1 [] (ground arith)))
