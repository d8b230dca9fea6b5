-- ===== src/Gateway/Budget.antt =====
-- The class `HedgeBudget` of apps/gateway/src/fastpath.ts.
--
-- The ratio is a fraction of two naturals; one call reads the clock once.
pub mod Share
mod Tests
use ordofi.Base.{
  ℕ, ◌+◌, ◌*◌, ◌/◌, ◌-◌, List, [], ◌∷◌, ◌++◌, Bool, true, false, ◌&&◌, Option, none, some, ltb, leb,
  ◌==◌, if◌then◌else◌,
}

pub record Bucket : Type 0 where
  pub at : ℕ
  pub reads : ℕ
  pub hedges : ℕ

pub record HedgeBudget : Type 0 where
  pub ratio_num : ℕ
  pub ratio_den : ℕ
  pub floor_per_window : ℕ
  pub window_ms : ℕ
  pub buckets : List Bucket

-- Whether the last bucket is of the second `t`.
unfoldable pub is_current : ℕ → List Bucket → Bool
is_current t [] = false
is_current t (b ∷ []) = b.at == t
is_current t (b ∷ c ∷ bs) = is_current t (c ∷ bs)

-- `while (… this.buckets[0].at < cutoff) this.buckets.shift()`, for the cutoff `t - window`.
unfoldable pub drop_old : ℕ → ℕ → List Bucket → List Bucket
drop_old t window [] = []
drop_old t window (b ∷ bs) =
    let rest = drop_old t window bs in if ltb (b.at + window) t then rest else b ∷ bs

-- `current`
unfoldable pub current : ℕ → HedgeBudget → HedgeBudget
unfolding is_current drop_old
current now h =
    let t = now / 1000 * 1000 in
    if is_current t h.buckets then h else record h {
      buckets = drop_old t h.window_ms (h.buckets ++ record { at = t; reads = 0; hedges = 0 } ∷ []);
    }

unfoldable pub bump_reads : List Bucket → List Bucket
bump_reads [] = []
bump_reads (b ∷ []) = record b { reads = b.reads + 1 } ∷ []
bump_reads (b ∷ c ∷ bs) = b ∷ bump_reads (c ∷ bs)

unfoldable pub bump_hedges : List Bucket → List Bucket
bump_hedges [] = []
bump_hedges (b ∷ []) = record b { hedges = b.hedges + 1 } ∷ []
bump_hedges (b ∷ c ∷ bs) = b ∷ bump_hedges (c ∷ bs)

-- `read`
unfoldable pub read : ℕ → HedgeBudget → HedgeBudget
unfolding current bump_reads
read now h = let g = current now h in record g { buckets = bump_reads g.buckets }

unfoldable pub reads_in : List Bucket → ℕ
reads_in [] = 0
reads_in (b ∷ bs) = b.reads + reads_in bs

unfoldable pub hedges_in : List Bucket → ℕ
hedges_in [] = 0
hedges_in (b ∷ bs) = b.hedges + hedges_in bs

-- `hedges >= floor && hedges + 1 > reads * ratio`
unfoldable pub over_share : HedgeBudget → Bool
unfolding reads_in hedges_in
over_share h =
    leb h.floor_per_window (hedges_in h.buckets)
    && ltb (reads_in h.buckets * h.ratio_num) ((hedges_in h.buckets + 1) * h.ratio_den)

-- `tryHedge`
unfoldable pub try_hedge : ℕ → HedgeBudget → HedgeBudget × Bool
unfolding current bump_hedges over_share
try_hedge now h =
    let g = current now h in
    if over_share g
    then (g, false)
    else (let c = current now g in (record c { buckets = bump_hedges c.buckets }, true))
