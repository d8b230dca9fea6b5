-- ===== src/Batch/Pricing/Balance.antt =====
-- The books of one clearing price: what a side sells, what the other side is owed for it, and what
-- goes out to the pools.
use native.Mathlib.Nat.{div-mul-le_self}
use ordofi.Base.{ℕ, ◌+◌, ◌*◌, ◌/◌, ◌≤◌, ◌<◌, List, [], ◌∷◌, ◌≡◌, refl, arith, All, false, ◌⊎◌, some}
use ordofi.Base.Text.{text_eq, text_eq_refl}
use ordofi.Base.Sums.{sum-nil, sum-cons}
use ordofi.Batch.Types.{Order}
use ordofi.Batch.Pairs.{PairBatch}
use ordofi.Batch.Pairs.Partition.{Sells, IsStraight}
use ordofi.Batch.Pricing.{
  Clearing, Residual, buy_amount, sold, owed_to, residual, discovery_clearing,
}

-- Both prices are positive, so that no division is by zero.
pub record IsPriced (c : Clearing) : Type 0 where
  pub priced_a : 0 < c.p_a
  pub priced_b : 0 < c.p_b

-- A straight batch of two different tokens, as intake leaves them.
pub record IsPair (pb : PairBatch) : Type 0 where
  pub straight : IsStraight pb
  pub distinct : text_eq pb.b pb.a ≡ false

module _ (pb : PairBatch) (c : Clearing) where
  buy_amount_a : (o : Order) → Sells pb.a pb.b o → buy_amount o pb c ≡ o.sell_amount * c.p_a / c.p_b
  unfolding buy_amount
  buy_amount_a o h = rw (h.0, text_eq_refl) refl

  buy_amount_b :
      (o : Order)
      → text_eq pb.b pb.a ≡ false
      → Sells pb.b pb.a o
      → buy_amount o pb c ≡ o.sell_amount * c.p_b / c.p_a
  unfolding buy_amount
  buy_amount_b o ne h = rw (h.0, ne) refl

  -- Rounding never pays a side more than its sale is worth.
  pub owed_bound_a :
      (os : List Order) → All (Sells pb.a pb.b) os → owed_to os pb c * c.p_b ≤ sold os * c.p_a
  owed_bound_a [] _ = rw sum-nil (omega arith)
  owed_bound_a (o ∷ os) (h, hs) =
      rw (sum-cons, sum-cons, buy_amount_a o h)
        (omega (arith, div-mul-le_self (o.sell_amount * c.p_a) c.p_b, owed_bound_a os hs))

  pub owed_bound_b :
      (os : List Order)
      → text_eq pb.b pb.a ≡ false
      → All (Sells pb.b pb.a) os
      → owed_to os pb c * c.p_a ≤ sold os * c.p_b
  owed_bound_b [] ne _ = rw sum-nil (omega arith)
  owed_bound_b (o ∷ os) ne (h, hs) =
      rw (sum-cons, sum-cons, buy_amount_b o ne h)
        (omega (arith, div-mul-le_self (o.sell_amount * c.p_b) c.p_a, owed_bound_b os ne hs))

-- If one side is owed more than the other sells, then the other is owed less than the one sells.
cross :
    (s_a s_b owed_a owed_b p_a p_b : ℕ)
    → 0 < p_a
    → 0 < p_b
    → owed_b * p_b ≤ s_a * p_a
    → owed_a * p_a ≤ s_b * p_b
    → s_b < owed_b
    → owed_a < s_a
cross s_a s_b owed_a owed_b p_a p_b ha hb h k lt = grind arith

-- The three ways a batch can net: a goes out, b goes out, or nothing does.
abbrev pub Nets : PairBatch → Clearing → Residual → Type 0
Nets pb c r =
    ((r.b ≡ 0)
      × (0 < r.a)
      × (sold pb.sell_a ≡ owed_to pb.sell_b pb c + r.a)
      × (sold pb.sell_b < owed_to pb.sell_a pb c))
    ⊎ (((r.a ≡ 0)
          × (0 < r.b)
          × (sold pb.sell_b ≡ owed_to pb.sell_a pb c + r.b)
          × (sold pb.sell_a < owed_to pb.sell_b pb c))
        ⊎ ((r.a ≡ 0)
            × (r.b ≡ 0)
            × (owed_to pb.sell_a pb c ≤ sold pb.sell_b)
            × (owed_to pb.sell_b pb c ≤ sold pb.sell_a)))

-- At positive prices and for two different tokens, either the first token goes to the pools, or the
-- second, or neither. The one that goes is exactly what its sellers sell beyond what the other side is
-- owed of it, and then the other side sells less than its buyers are owed; where nothing goes, both
-- sides cover what they owe.
pub residual-Nets :
    (pb : PairBatch) (c : Clearing) → IsPair pb → IsPriced c → Nets pb c (residual pb c)
unfolding residual
residual-Nets pb c p q =
    let bound_a = owed_bound_a pb c pb.sell_a p.straight.side_a in
    let bound_b = owed_bound_b pb c pb.sell_b p.distinct p.straight.side_b in
    ground (
      arith,
      cross (sold pb.sell_a) (sold pb.sell_b) (owed_to pb.sell_b pb c) (owed_to pb.sell_a pb c)
          c.p_a c.p_b q.priced_a q.priced_b bound_a bound_b,
      cross (sold pb.sell_b) (sold pb.sell_a) (owed_to pb.sell_a pb c) (owed_to pb.sell_b pb c)
          c.p_b c.p_a q.priced_b q.priced_a bound_b bound_a,
    )

pub le_of_mul_le : (x y d : ℕ) → 0 < d → x * d ≤ y * d → x ≤ y
le_of_mul_le x y d h k = grind arith

-- The first guess of the price is positive, and promises one of the sides no more than the pools
-- returned for all that the side sells.
pub discovery_solvent :
    (pb : PairBatch) (out_b out_a : ℕ) (c : Clearing)
    → IsPair pb
    → discovery_clearing pb out_b out_a ≡ some c
    → IsPriced c × ((owed_to pb.sell_a pb c ≤ out_b) ⊎ (owed_to pb.sell_b pb c ≤ out_a))
unfolding discovery_clearing
discovery_solvent pb out_b out_a c p e = ground (
  arith,
  owed_bound_a pb c pb.sell_a p.straight.side_a,
  owed_bound_b pb c pb.sell_b p.distinct p.straight.side_b,
  le_of_mul_le (owed_to pb.sell_a pb c) out_b c.p_b,
  le_of_mul_le (owed_to pb.sell_b pb c) out_a c.p_a,
)
