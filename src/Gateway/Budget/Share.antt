-- ===== src/Gateway/Budget/Share.antt =====
-- The hedges that are granted stay within their share of the reads.
use mathlib.Core.Path.{subst, subst₂}
use ordofi.Base.{
  ℕ, ◌+◌, ◌*◌, ◌/◌, ◌≤◌, ◌<◌, List, [], ◌∷◌, ◌++◌, Bool, true, false, ◌&&◌, ltb, leb, ◌≡◌, refl,
  sym, arith, Bool-cases, inl, inr, ◌⊎◌, if_elim,
}
use ordofi.Gateway.Budget.{
  Bucket, HedgeBudget, is_current, drop_old, current, bump_hedges, reads_in, hedges_in, over_share,
  try_hedge,
}

is_current-append :
    (t : ℕ) (bs : List Bucket) (b : Bucket) → b.at ≡ t → is_current t (bs ++ b ∷ []) ≡ true
unfolding is_current
is_current-append t [] b e = ground arith
is_current-append t (a ∷ []) b e = is_current-append t [] b e
is_current-append t (a ∷ c ∷ bs) b e = is_current-append t (c ∷ bs) b e

is_current-drop_old :
    (t w : ℕ) (bs : List Bucket) (b : Bucket)
    → b.at ≡ t
    → is_current t (drop_old t w (bs ++ b ∷ [])) ≡ true
unfolding drop_old is_current
is_current-drop_old t w [] b e =
    let young : ltb (b.at + w) t ≡ false = ground arith in rw young (ground arith)
is_current-drop_old t w (a ∷ bs) b e = elim (Bool-cases (ltb (a.at + w) t)) [
  | inl q ↦ rw q (is_current-drop_old t w bs b e)
  | inr q ↦ rw q (is_current-append t (a ∷ bs) b e)
]

is_current-current :
    (now : ℕ) (h : HedgeBudget) → is_current (now / 1000 * 1000) (current now h).buckets ≡ true
unfolding current
is_current-current now h =
    if_elim (λ (g : HedgeBudget). is_current (now / 1000 * 1000) g.buckets ≡ true)
      (is_current (now / 1000 * 1000) h.buckets) (λ e. e)
      (λ _. is_current-drop_old (now / 1000 * 1000) h.window_ms h.buckets _ refl)

-- The second call within `tryHedge` finds the bucket of the first.
current-current : (now : ℕ) (h : HedgeBudget) → current now (current now h) ≡ current now h
current-current now h = same (current now h) (is_current-current now h)
  where
    same : (g : HedgeBudget) → is_current (now / 1000 * 1000) g.buckets ≡ true → current now g ≡ g
    same g e = unfold current in rw e refl

settings-current :
    (now : ℕ) (h : HedgeBudget)
    → ((current now h).floor_per_window ≡ h.floor_per_window)
      × ((current now h).ratio_num ≡ h.ratio_num)
      × ((current now h).ratio_den ≡ h.ratio_den)
unfolding current
settings-current now h =
    if_elim
      (λ (g : HedgeBudget).
        (g.floor_per_window ≡ h.floor_per_window)
        × (g.ratio_num ≡ h.ratio_num)
        × (g.ratio_den ≡ h.ratio_den))
      (is_current (now / 1000 * 1000) h.buckets) (λ _. (refl, refl, refl)) (λ _. (refl, refl, refl))

sums-bump_hedges :
    (t : ℕ) (bs : List Bucket)
    → is_current t bs ≡ true
    → (hedges_in (bump_hedges bs) ≡ hedges_in bs + 1) × (reads_in (bump_hedges bs) ≡ reads_in bs)
unfolding bump_hedges hedges_in reads_in is_current
sums-bump_hedges t [] e = absurd cc
sums-bump_hedges t (b ∷ []) e = (omega arith, refl)
sums-bump_hedges t (b ∷ c ∷ bs) e =
    let (x, y) = sums-bump_hedges t (c ∷ bs) e in (omega (arith, x), omega (arith, y))

over_share-false :
    (g : HedgeBudget)
    → over_share g ≡ false
    → (hedges_in g.buckets + 1 ≤ g.floor_per_window)
      ⊎ ((hedges_in g.buckets + 1) * g.ratio_den ≤ reads_in g.buckets * g.ratio_num)
unfolding over_share
over_share-false g =
    within g.floor_per_window (hedges_in g.buckets) (reads_in g.buckets * g.ratio_num)
      ((hedges_in g.buckets + 1) * g.ratio_den)
  where
    within : (f n x y : ℕ) → leb f n && ltb x y ≡ false → (n + 1 ≤ f) ⊎ (y ≤ x)
    within f n x y e = ground arith

carry :
    {x x' y y' f f' n n' d d' : ℕ}
    → x ≡ x'
    → y ≡ y'
    → f ≡ f'
    → n ≡ n'
    → d ≡ d'
    → (x' ≤ f) ⊎ (x' * d ≤ y' * n)
    → (x ≤ f') ⊎ (x * d' ≤ y * n')
carry p q r s t c = rw (p, q, sym r, sym s, sym t) c

over_share-true :
    (g : HedgeBudget)
    → over_share g ≡ true
    → (g.floor_per_window ≤ hedges_in g.buckets)
      × (reads_in g.buckets * g.ratio_num < (hedges_in g.buckets + 1) * g.ratio_den)
unfolding over_share
over_share-true g =
    beyond g.floor_per_window (hedges_in g.buckets) (reads_in g.buckets * g.ratio_num)
      ((hedges_in g.buckets + 1) * g.ratio_den)
  where
    beyond : (f n x y : ℕ) → leb f n && ltb x y ≡ true → (f ≤ n) × (x < y)
    beyond f n x y e = ground arith

-- What a request for a hedge does to the window `w` of the budget `h`, given the budget after it
-- and the answer.
abbrev pub IsShared : HedgeBudget → List Bucket → HedgeBudget × Bool → Type 0
IsShared h w (g, granted) =
    ((granted ≡ true)
      × (hedges_in g.buckets ≡ hedges_in w + 1)
      × (reads_in g.buckets ≡ reads_in w)
      × ((hedges_in g.buckets ≤ h.floor_per_window)
          ⊎ (hedges_in g.buckets * h.ratio_den ≤ reads_in g.buckets * h.ratio_num)))
    ⊎ ((granted ≡ false)
        × (g.buckets ≡ w)
        × (h.floor_per_window ≤ hedges_in w)
        × (reads_in w * h.ratio_num < (hedges_in w + 1) * h.ratio_den))

-- A hedge is granted, and then counted as one more of the window, or refused, and then nothing is
-- counted. When it is granted, the hedges of the window with it are no more than the floor, or than
-- the ratio allows for its reads; when it is refused, the floor is used up and one more would be
-- beyond the ratio.
pub try_hedge_share :
    (now : ℕ) (h : HedgeBudget) → IsShared h (current now h).buckets (try_hedge now h)
unfolding try_hedge
try_hedge_share now h =
    let (f, n, d) = settings-current now h in
    if_elim (IsShared h g.buckets) (over_share g)
      (λ e.
        let (full, beyond) = over_share-true g e in
        inr (
          refl,
          refl,
          subst (λ floor. floor ≤ hedges_in g.buckets) f full,
          subst₂ (λ num den. reads_in g.buckets * num < (hedges_in g.buckets + 1) * den) n d beyond,
        ))
      λ e.
        let (x, y) = sums-bump_hedges (now / 1000 * 1000) g.buckets (is_current-current now h) in
        rw (current-current now h) (inl (refl, x, y, carry x y f n d (over_share-false g e)))
  where
    g : HedgeBudget
    g = current now h
