-- ===== src/Auction/Ranking/SecondPrice.antt =====
-- The sort is a rearrangement in descending order, and so the outcome is that of a second-price
-- auction.
use mathlib.Core.List.{Perm, append-nil, perm_middle}
use mathlib.Core.List.Perm
use mathlib.Core.Path.{subst}
use mathlib.Core.Option
use ordofi.Base.{
  List, [], ◌∷◌, ◌++◌, none, some, ◌≡◌, refl, ap, ◌∙◌, arith, All, All-map, map, Bool-cases, ◌⊎◌,
  inl, inr,
}
use ordofi.Base.Int.{ℤ, ◌≤ℤ◌}
use ordofi.Auction.Ranking.{before, insert, sort_from, ranked, outcome_of, second_price}

module _ {ℓ} {A : Type ℓ} (wei : A → ℤ) where
  insert-perm : (x : A) (ys : List A) → Perm (insert wei x ys) (x ∷ ys)
  unfolding insert
  insert-perm x [] = Perm.refl (x ∷ [])
  insert-perm x (y ∷ ys) = elim (Bool-cases (before wei x y)) [
    | inl e ↦ rw e (Perm.refl (x ∷ y ∷ ys))
    | inr e ↦ rw e (Perm.trans (Perm.cons y (insert-perm x ys)) (Perm.swap x y ys))
  ]

  sort_from-perm : (sorted xs : List A) → Perm (sort_from wei sorted xs) (sorted ++ xs)
  unfolding sort_from
  sort_from-perm sorted [] = rw append-nil (Perm.refl sorted)
  sort_from-perm sorted (x ∷ xs) =
      Perm.trans (sort_from-perm (insert wei x sorted) xs) (
        Perm.trans (Perm.append_right xs (insert-perm x sorted))
          (Perm.symm (perm_middle sorted xs)))

  pub ranked-perm : (xs : List A) → Perm (ranked wei xs) xs
  unfolding ranked
  ranked-perm xs = sort_from-perm [] xs

  -- Every bid of the list is at most `b`.
  abbrev pub AtMost : ℤ → List A → Type 0
  AtMost b xs = All (λ y. wei y ≤ℤ b) xs

  abbrev pub IsDescending : List A → Type 0
  IsDescending [] = Unit
  IsDescending (x ∷ xs) = AtMost (wei x) xs × IsDescending xs

  insert-AtMost :
      (b : ℤ) (x : A) (ys : List A) → wei x ≤ℤ b → AtMost b ys → AtMost b (insert wei x ys)
  unfolding insert
  insert-AtMost b x [] h hs = (h, tt)
  insert-AtMost b x (y ∷ ys) h (k, ks) = elim (Bool-cases (before wei x y)) [
    | inl e ↦ rw e (h, (k, ks))
    | inr e ↦ rw e (k, insert-AtMost b x ys h ks)
  ]

  insert-IsDescending : (x : A) (ys : List A) → IsDescending ys → IsDescending (insert wei x ys)
  unfolding insert
  insert-IsDescending x [] h = (tt, tt)
  insert-IsDescending x (y ∷ ys) (k, ks) = elim (Bool-cases (before wei x y)) [
    | inl e ↦
        let yx : wei y ≤ℤ wei x = ground arith in
        rw e ((yx, All-map (λ z zy. omega arith) ys k), (k, ks))
    | inr e ↦
        let xy : wei x ≤ℤ wei y = ground arith in
        rw e (insert-AtMost (wei y) x ys xy k, insert-IsDescending x ys ks)
  ]

  sort_from-IsDescending :
      (sorted xs : List A) → IsDescending sorted → IsDescending (sort_from wei sorted xs)
  unfolding sort_from
  sort_from-IsDescending sorted [] h = h
  sort_from-IsDescending sorted (x ∷ xs) h =
      sort_from-IsDescending (insert wei x sorted) xs (insert-IsDescending x sorted h)

  pub ranked-IsDescending : (xs : List A) → IsDescending (ranked wei xs)
  unfolding ranked
  ranked-IsDescending xs = sort_from-IsDescending [] xs tt

  -- What a second-price auction promises: the winner is a bidder, no other bid exceeds the winner's,
  -- and the price is the highest of the others, or the winner's own bid where there is no other.
  pub record IsSecondPrice (bids : List A) (winner : A) (price : ℤ) : Type ℓ where
    pub others : List A
    pub bidders : Perm (winner ∷ others) bids
    pub highest : AtMost (wei winner) others
    pub priced :
        ((others ≡ []) × (price ≡ wei winner))
        ⊎ ((runner_up : A) × (rest : List A) × Perm (runner_up ∷ rest) others
            × (price ≡ wei runner_up)
            × AtMost (wei runner_up) rest)

  outcome_of-IsSecondPrice :
      (bids sorted : List A) (winner : A) (price : ℤ)
      → Perm sorted bids
      → IsDescending sorted
      → outcome_of wei sorted ≡ some (winner, price)
      → IsSecondPrice bids winner price
  unfolding outcome_of
  outcome_of-IsSecondPrice bids [] winner price p d e = cc
  outcome_of-IsSecondPrice bids (x ∷ []) winner price p d e =
      let same : ◌≡◌ {A = A × ℤ} (x, wei x) (winner, price) = cc in
      subst (λ o. IsSecondPrice bids o.0 o.1) same
        (record { others = []; bidders = p; highest = tt; priced = inl (refl, refl) })
  outcome_of-IsSecondPrice bids (x ∷ y ∷ rest) winner price p d e =
      let same : ◌≡◌ {A = A × ℤ} (x, wei y) (winner, price) = cc in
      subst (λ o. IsSecondPrice bids o.0 o.1) same
        (record {
          others = y ∷ rest;
          bidders = p;
          highest = d.0;
          priced = inr (y, rest, Perm.refl (y ∷ rest), refl, d.1.0);
        })

  -- Whatever the bids, an outcome is a winner and a price as a second-price auction promises them.
  pub second_price-IsSecondPrice :
      (bids : List A) (winner : A) (price : ℤ)
      → second_price wei bids ≡ some (winner, price)
      → IsSecondPrice bids winner price
  unfolding second_price
  second_price-IsSecondPrice bids winner price e =
      outcome_of-IsSecondPrice bids (ranked wei bids) winner price (ranked-perm bids)
        (ranked-IsDescending bids) e

-- Prices: between a lower bound of all the bids and the winner's own bid.
module _ {ℓ} {A : Type ℓ} (wei : A → ℤ) (low : ℤ) where
  abbrev AtLeast : List A → Type 0
  AtLeast xs = All (λ y. low ≤ℤ wei y) xs

  insert-AtLeast : (x : A) (ys : List A) → low ≤ℤ wei x → AtLeast ys → AtLeast (insert wei x ys)
  unfolding insert
  insert-AtLeast x [] h hs = (h, tt)
  insert-AtLeast x (y ∷ ys) h (k, ks) = elim (Bool-cases (before wei x y)) [
    | inl e ↦ rw e (h, (k, ks))
    | inr e ↦ rw e (k, insert-AtLeast x ys h ks)
  ]

  sort_from-AtLeast :
      (sorted xs : List A) → AtLeast sorted → AtLeast xs → AtLeast (sort_from wei sorted xs)
  unfolding sort_from
  sort_from-AtLeast sorted [] h _ = h
  sort_from-AtLeast sorted (x ∷ xs) h (k, ks) =
      sort_from-AtLeast (insert wei x sorted) xs (insert-AtLeast x sorted k h) ks

  outcome_of-price :
      (sorted : List A) (winner : A) (price : ℤ)
      → AtLeast sorted
      → IsDescending wei sorted
      → outcome_of wei sorted ≡ some (winner, price)
      → (low ≤ℤ price) × (price ≤ℤ wei winner)
  unfolding outcome_of
  outcome_of-price [] winner price h d e = cc
  outcome_of-price (x ∷ []) winner price h d e =
      let same : ◌≡◌ {A = A × ℤ} (x, wei x) (winner, price) = cc in
      subst (λ o. (low ≤ℤ o.1) × (o.1 ≤ℤ wei o.0)) same (h.0, omega arith)
  outcome_of-price (x ∷ y ∷ rest) winner price h d e =
      let same : ◌≡◌ {A = A × ℤ} (x, wei y) (winner, price) = cc in
      subst (λ o. (low ≤ℤ o.1) × (o.1 ≤ℤ wei o.0)) same (h.1.0, d.0.0)

  pub second_price-bounds :
      (bids : List A) (winner : A) (price : ℤ)
      → AtLeast bids
      → second_price wei bids ≡ some (winner, price)
      → (low ≤ℤ price) × (price ≤ℤ wei winner)
  unfolding second_price ranked
  second_price-bounds bids winner price h e =
      outcome_of-price (sort_from wei [] bids) winner price (sort_from-AtLeast [] bids tt h)
        (ranked-IsDescending wei bids) e

-- There is an outcome exactly where there is a bid.
module _ {ℓ} {A : Type ℓ} (wei : A → ℤ) where
  outcome_of-none : (sorted : List A) → outcome_of wei sorted ≡ none → sorted ≡ []
  unfolding outcome_of
  outcome_of-none [] e = refl
  outcome_of-none (x ∷ []) e = cc
  outcome_of-none (x ∷ y ∷ rest) e = cc

  pub second_price-none : (bids : List A) → second_price wei bids ≡ none → bids ≡ []
  unfolding second_price
  second_price-none bids e = Perm.eq-nil (
      Perm.symm
        (subst (λ s. Perm s bids) (outcome_of-none (ranked wei bids) e) (ranked-perm wei bids)))

-- A sort by amounts commutes with a change of the records that keeps the amounts.
module _ {ℓ κ} {A : Type ℓ} {B : Type κ} (wei : A → ℤ) (wei' : B → ℤ) (f : A → B)
    (same : (x : A) → wei' (f x) ≡ wei x) where
  insert-map : (x : A) (ys : List A) → insert wei' (f x) (map f ys) ≡ map f (insert wei x ys)
  unfolding insert
  insert-map x [] = refl
  insert-map x (y ∷ ys) =
      rw (same x, same y)
        (elim (Bool-cases (before wei x y)) [ inl e ↦ rw e | inr e ↦ rw (e, insert-map x ys) ])

  sort_from-map :
      (sorted xs : List A)
      → sort_from wei' (map f sorted) (map f xs) ≡ map f (sort_from wei sorted xs)
  unfolding sort_from
  sort_from-map sorted [] = refl
  sort_from-map sorted (x ∷ xs) =
      ap (λ s. sort_from wei' s (map f xs)) (insert-map x sorted)
      ∙ sort_from-map (insert wei x sorted) xs

  abbrev pub carried : A × ℤ → B × ℤ
  carried (x, p) = (f x, p)

  outcome_of-map :
      (sorted : List A)
      → outcome_of wei' (map f sorted) ≡ Option.map carried (outcome_of wei sorted)
  unfolding outcome_of
  outcome_of-map [] = refl
  outcome_of-map (x ∷ []) = rw (same x)
  outcome_of-map (x ∷ y ∷ rest) = rw (same y)

  pub second_price-map :
      (bids : List A) → second_price wei' (map f bids) ≡ Option.map carried (second_price wei bids)
  unfolding second_price ranked
  second_price-map bids = rw (sort_from-map [] bids) (outcome_of-map (sort_from wei [] bids))
