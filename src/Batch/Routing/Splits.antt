-- ===== src/Batch/Routing/Splits.antt =====
-- A spread loses nothing, and the grid of candidate splits is complete.
use mathlib.Core.List.{Mem, map, mem-map_of_mem, mem-append_left, mem-append_right, mem-cons_self}
use mathlib.Core.Path.{subst}
use ordofi.Base.{
  ℕ, zero, suc, ◌+◌, ◌-◌, ◌*◌, ◌/◌, ◌≤◌, ◌<◌, List, [], ◌∷◌, ◌≡◌, ◌↔◌, refl, arith, All, All-mem,
  All-append, keep, inl, inr, Bool-cases, length, ltb, ltb→lt, ap,
}
use native.Mathlib.Nat.{div-mul-le_self, mul-le-mul_left}
use ordofi.Batch.Pricing.Balance.{le_of_mul_le}
use ordofi.Base.Sums.{sum, sum-nil, sum-cons}
use ordofi.Batch.Types.{Interaction}
use ordofi.Batch.Routing.{
  Part, Allocation, has_share, with_part, spread_from, spread, first_from, compositions_from,
  compositions,
}

abbrev pub amounts : List Interaction → List ℕ
amounts xs = map (λ x. x.amount_in) xs

abbrev pub shares : List Part → ℕ
shares ps = sum (map (λ p. p.num) ps)

sum-with_part :
    (legs : _) (amt : ℕ) (xs : List Interaction)
    → sum (amounts (with_part legs amt xs)) ≡ amt + sum (amounts xs)
sum-with_part legs amt xs = elim (Bool-cases (ltb 0 amt)) [
  | inl e ↦ rw e (sum-cons amt (amounts xs))
  | inr e ↦ rw e (ground arith)
]

spread_from_total :
    (amount den used : ℕ) (p : Part) (ps : List Part)
    → 0 < den
    → used * den + amount * shares (p ∷ ps) ≤ amount * den
    → used + sum (amounts (spread_from amount den used (p ∷ ps))) ≡ amount
unfolding spread_from
spread_from_total amount den used p [] pos h =
    rw (sum-with_part p.legs (amount - used) [], sum-nil)
      (omega (arith, le_of_mul_le used amount den pos (omega (arith, h))))
spread_from_total amount den used p (q ∷ ps) pos h =
    let ih = spread_from_total amount den (used + amount * p.num / den) q ps pos (
      omega (
        arith,
        div-mul-le_self (amount * p.num) den,
        ap (λ (s : ℕ). amount * s) (sum-cons p.num (map (λ x. x.num) (q ∷ ps))),
      )) in
    rw (sum-with_part p.legs (amount * p.num / den)) (omega (arith, ih))

shares-keep : (ps : List Part) → shares (keep has_share ps) ≡ shares ps
unfolding keep
shares-keep [] = refl
shares-keep (p ∷ ps) = elim (Bool-cases (has_share p)) [
  | inl e ↦ rw e (
      omega (
        arith,
        shares-keep ps,
        sum-cons p.num (map (λ x. x.num) (keep has_share ps)),
        sum-cons p.num (map (λ x. x.num) ps),
      ))
  | inr e ↦ rw e (ground (arith, shares-keep ps, sum-cons p.num (map (λ x. x.num) ps)))
]

spread_from-All_pos :
    (amount den used : ℕ) (ps : List Part)
    → All (λ x. 0 < x.amount_in) (spread_from amount den used ps)
unfolding spread_from
spread_from-All_pos amount den used [] = tt
spread_from-All_pos amount den used (p ∷ []) = ground arith
spread_from-All_pos amount den used (p ∷ q ∷ ps) =
    let ih = spread_from-All_pos amount den (used + amount * p.num / den) (q ∷ ps) in
    elim (Bool-cases (ltb 0 (amount * p.num / den))) [
      | inl e ↦ rw e (ltb→lt 0 (amount * p.num / den) e, ih)
      | inr e ↦ rw e ih
    ]

-- Where the shares are at most the whole and not all zero, the interactions of a spread add up to the
-- amount exactly, and none of them is empty.
pub spread_total :
    (amount : ℕ) (alloc : Allocation)
    → 0 < shares alloc.parts
    → shares alloc.parts ≤ alloc.den
    → (sum (amounts (spread amount alloc)) ≡ amount)
      × All (λ x. 0 < x.amount_in) (spread amount alloc)
unfolding spread
spread_total amount alloc h k = (
  total (keep has_share alloc.parts) (shares-keep alloc.parts),
  spread_from-All_pos amount alloc.den 0 (keep has_share alloc.parts),
)
  where
    total :
        (ps : List Part)
        → shares ps ≡ shares alloc.parts
        → sum (amounts (spread_from amount alloc.den 0 ps)) ≡ amount
    total [] e = absurd (omega (arith, sum-nil))
    total (p ∷ ps) e = omega (
      arith,
      spread_from_total amount alloc.den 0 p ps (omega arith)
          (rw e (omega (arith, mul-le-mul_left amount k))),
    )

-- The lists of one length and one sum.
abbrev pub Splits : ℕ → ℕ → List ℕ → Type 0
Splits n den r = (length r ≡ n) × (sum r ≡ den)

Splits-cons :
    (n first d : ℕ) (rs : List (List ℕ))
    → All (Splits n d) rs
    → All (Splits (suc n) (first + d)) (map (λ r. first ∷ r) rs)
Splits-cons n first d [] _ = tt
Splits-cons n first d (r ∷ rs) ((x, y), h) =
    ((ap suc x, omega (arith, sum-cons first r)), Splits-cons n first d rs h)

module _ (n : ℕ) (rest : ℕ → List (List ℕ)) (sound : (d : ℕ) → All (Splits n d) (rest d))
    (complete : (d : ℕ) (r : List ℕ) → Splits n d r → Mem r (rest d)) where
  first_from_sound :
      (first left : ℕ) → All (Splits (suc n) (first + left)) (first_from rest first left)
  unfolding first_from
  first_from_sound first zero = Splits-cons n first zero (rest zero) (sound zero)
  first_from_sound first (suc left) =
      All-append (Splits (suc n) (first + suc left)) (map (λ r. first ∷ r) (rest (suc left)))
        (first_from rest (suc first) left)
        (Splits-cons n first (suc left) (rest (suc left)) (sound (suc left)))
        (rw shift (first_from_sound (suc first) left))
    where
      shift : first + suc left ≡ suc first + left
      shift = omega arith

  first_from_complete :
      (first left i : ℕ) (r : List ℕ)
      → Splits n (left - i) r
      → i ≤ left
      → Mem ((first + i) ∷ r) (first_from rest first left)
  unfolding first_from
  first_from_complete first zero i r h k =
      let e : first + i ≡ first = omega arith in
      rw e (mem-map_of_mem (λ s. first ∷ s) (complete zero r (h.0, omega arith)))
  first_from_complete first (suc left) zero r h k =
      let e : first + zero ≡ first = omega arith in
      rw e (
        mem-append_left (first_from rest (suc first) left)
          (mem-map_of_mem (λ s. first ∷ s) (complete (suc left) r (h.0, omega arith))))
  first_from_complete first (suc left) (suc i) r h k =
      let e : first + suc i ≡ suc first + i = omega arith in
      rw e (
        mem-append_right (map (λ s. first ∷ s) (rest (suc left)))
          (first_from_complete (suc first) left i r (h.0, omega arith) (omega arith)))

-- Both directions at once, for the recursion.
record IsGrid (k : ℕ) : Type 0 where
  sound : (d : ℕ) → All (Splits (suc k) d) (compositions_from k d)
  complete : (d : ℕ) (r : List ℕ) → Splits (suc k) d r → Mem r (compositions_from k d)

IsGrid-zero : IsGrid zero
unfolding compositions_from
IsGrid-zero = record { sound = λ d. ((refl, sum_one d), tt); complete = one }
  where
    sum_one : (d : ℕ) → sum (d ∷ []) ≡ d
    sum_one d = omega (arith, sum-cons d [], sum-nil)

    one : (d : ℕ) (r : List ℕ) → Splits 1 d r → Mem r ((d ∷ []) ∷ [])
    one d [] (l, e) = absurd (omega arith)
    one d (x ∷ []) (l, e) = let same : x ≡ d = omega (arith, sum_one x) in rw same mem-cons_self
    one d (x ∷ y ∷ r) (l, e) = absurd (omega arith)

IsGrid-suc : (k : ℕ) → IsGrid k → IsGrid (suc k)
unfolding compositions_from
IsGrid-suc k g = record {
  sound = λ d.
      subst (λ n. All (Splits (suc (suc k)) n) (first_from (compositions_from k) 0 d)) (zero_add d)
        (first_from_sound (suc k) (compositions_from k) g.sound g.complete 0 d);
  complete = more;
}
  where
    zero_add : (d : ℕ) → 0 + d ≡ d
    zero_add d = omega arith

    more :
        (d : ℕ) (r : List ℕ)
        → Splits (suc (suc k)) d r
        → Mem r (first_from (compositions_from k) 0 d)
    more d [] (l, e) = absurd (omega arith)
    more d (x ∷ r) (l, e) = rw (← zero_add x) (
        first_from_complete (suc k) (compositions_from k) g.sound g.complete 0 d x r
          (omega arith, omega (arith, sum-cons x r)) (omega (arith, sum-cons x r)))

compositions-IsGrid : (k : ℕ) → IsGrid k
compositions-IsGrid zero = IsGrid-zero
compositions-IsGrid (suc k) = IsGrid-suc k (compositions-IsGrid k)

Splits-prop : (n den : ℕ) (r : List ℕ) → IsProp (Splits n den r)
Splits-prop n den r = hlevel

-- The grid for one or more routes holds exactly the splits of the whole with a share for each route.
pub mem-compositions_iff :
    (k den : ℕ) (r : List ℕ) → Mem r (compositions (suc k) den) ↔ (length r ≡ suc k) × (sum r ≡ den)
unfolding compositions
mem-compositions_iff k den r = (
  All-mem (Splits (suc k) den) (Splits-prop (suc k) den) (compositions_from k den)
      ((compositions-IsGrid k).sound den),
  (compositions-IsGrid k).complete den r,
)
