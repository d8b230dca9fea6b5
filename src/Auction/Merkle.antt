-- ===== src/Auction/Merkle.antt =====
-- The Merkle tree over receipt hashes, packages/core/src/receipt.ts.
--
-- A `bytes32` is a number, and keccak256 of two packed ones is the parameter `hash`. The loops over
-- levels run on fuel, the number of leaves; `none` is no fuel, or an index out of range.
pub mod Proofs
use ordofi.Base.{
  ℕ, zero, suc, ◌+◌, ◌/◌, List, [], ◌∷◌, ◌++◌, Bool, Option, none, some, length, leb, ◌==◌,
  if◌then◌else◌, ◌>>=◌,
}

module _ (hash : ℕ → ℕ → ℕ) where
  -- `pairHash`
  unfoldable pub pair_hash : ℕ → ℕ → ℕ
  pair_hash a b = if leb a b then hash a b else hash b a

  -- One turn of the loop over levels: an odd node is carried up.
  unfoldable pub next_level : List ℕ → List ℕ
  unfolding pair_hash
  next_level [] = []
  next_level (x ∷ []) = x ∷ []
  next_level (x ∷ y ∷ level) = pair_hash x y ∷ next_level level

  unfoldable pub root_from : ℕ → List ℕ → Option ℕ
  unfolding next_level
  root_from zero level = none
  root_from (suc fuel) [] = none
  root_from (suc fuel) (x ∷ []) = some x
  root_from (suc fuel) (x ∷ y ∷ level) = root_from fuel (next_level (x ∷ y ∷ level))

  -- `merkleRoot`
  unfoldable pub merkle_root : List ℕ → Option ℕ
  unfolding root_from
  merkle_root [] = some 0
  merkle_root (x ∷ leaves) = root_from (length (x ∷ leaves)) (x ∷ leaves)

  -- What the inner loop of `merkleProof` pushes from position `i` on.
  unfoldable pub siblings : ℕ → ℕ → List ℕ → List ℕ
  siblings i idx [] = []
  siblings i idx (x ∷ []) = []
  siblings i idx (x ∷ y ∷ level) =
      let rest = siblings (i + 2) idx level in
      if i == idx then y ∷ rest else if i + 1 == idx then x ∷ rest else rest

  unfoldable pub proof_from : ℕ → List ℕ → ℕ → Option (List ℕ)
  unfolding next_level siblings
  proof_from zero level idx = none
  proof_from (suc fuel) [] idx = none
  proof_from (suc fuel) (x ∷ []) idx = some []
  proof_from (suc fuel) (x ∷ y ∷ level) idx =
      proof_from fuel (next_level (x ∷ y ∷ level)) (idx / 2) >>= λ rest.
      some (siblings 0 idx (x ∷ y ∷ level) ++ rest)

  -- `merkleProof`
  unfoldable pub merkle_proof : List ℕ → ℕ → Option (List ℕ)
  unfolding proof_from
  merkle_proof leaves index =
      if leb (length leaves) index then none else proof_from (length leaves) leaves index

  unfoldable pub climb : ℕ → List ℕ → ℕ
  unfolding pair_hash
  climb computed [] = computed
  climb computed (sibling ∷ proof) = climb (pair_hash computed sibling) proof

  -- `verifyMerkleProof`
  unfoldable pub verify_merkle_proof : ℕ → List ℕ → ℕ → Bool
  unfolding climb
  verify_merkle_proof leaf proof root = climb leaf proof == root
