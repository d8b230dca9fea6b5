-- ===== src/Auction/Ranking.antt =====
-- The sort that the auctioneer and the audit share:
-- `[...bids].sort((a, b) => (BigInt(b.bidWei) > BigInt(a.bidWei) ? 1 : -1))`.
--
-- The comparator never answers 0: a bid sorts before those that do not exceed it. The engine's sort
-- inserts each element into the sorted front, so of equal bids the one received last comes first.
pub mod SecondPrice
use ordofi.Base.{List, [], ◌∷◌, Bool, not, Option, none, some, if◌then◌else◌}
use ordofi.Base.Int.{ℤ, ltb_ℤ}

module _ {ℓ} {A : Type ℓ} (wei : A → ℤ) where
  -- The comparator is negative at (x, y): x goes first.
  abbrev pub before : A → A → Bool
  before x y = not (ltb_ℤ (wei x) (wei y))

  unfoldable pub insert : A → List A → List A
  insert x [] = x ∷ []
  insert x (y ∷ ys) = if before x y then x ∷ y ∷ ys else y ∷ insert x ys

  sort_from : List A → List A → List A
  unfolding insert
  sort_from sorted [] = sorted
  sort_from sorted (x ∷ xs) = sort_from (insert x sorted) xs

  unfoldable pub ranked : List A → List A
  unfolding sort_from
  ranked xs = sort_from [] xs

-- The first of the sorted bids and the price it pays: the second amount, or its own if it is alone.
module _ {ℓ} {A : Type ℓ} (wei : A → ℤ) where
  outcome_of : List A → Option (A × ℤ)
  outcome_of [] = none
  outcome_of (x ∷ []) = some (x, wei x)
  outcome_of (x ∷ y ∷ rest) = some (x, wei y)

  unfoldable pub second_price : List A → Option (A × ℤ)
  unfolding outcome_of ranked
  second_price xs = outcome_of (ranked wei xs)
