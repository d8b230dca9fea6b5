-- ===== src/Auction/Anchor/Growth.antt =====
-- The log grows, and what is anchored of it is what the contract has.
use ordofi.Base.{ℕ, ◌≤◌, List, [], ◌∷◌, ◌++◌, true, false, length, ◌≡◌, ◌⊎◌}
use ordofi.Auction.Anchor.{ReceiptLog, Decision, commits, World}

-- The calls under way: none, or the one of the commit, over receipts that the log has.
abbrev pub AreCalls : World → List ℕ → Type 0
AreCalls w [] = w.log.committing ≡ false
AreCalls w (count ∷ []) =
    (w.log.committing ≡ true) × (w.chain ≤ count) × (count ≤ length w.log.leaves)
AreCalls w (c ∷ d ∷ cs) = ⊥

-- What a decision to commit stands for.
abbrev Sensible : ReceiptLog → Decision → Type 0
Sensible l (commits count) =
    (l.committing ≡ false) × (count ≡ length l.leaves) × (l.last_committed ≤ length l.leaves)
Sensible l _ = Unit

-- What became of the world `v`.
record HasGrown (v w : World) : Type 0 where
  tail : List ℕ
  leaves_eq : w.log.leaves ≡ v.log.leaves ++ tail
  in_step : w.log.last_committed ≡ w.chain
  chain_le : v.chain ≤ w.chain
  covered : (w.chain ≡ v.chain) ⊎ (w.chain ≤ length w.log.leaves)
  under_way : AreCalls w w.calls
