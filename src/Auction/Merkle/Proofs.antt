-- ===== src/Auction/Merkle/Proofs.antt =====
-- The proof of each leaf verifies against the root.
use ordofi.Base.{
  ℕ, zero, suc, ◌+◌, ◌/◌, ◌≤◌, ◌<◌, List, [], ◌∷◌, ◌++◌, true, false, some, length, leb, ◌==◌,
  ◌>>=◌, get_elem?, ◌≡◌, refl, sym, ap, ◌∙◌, arith, ==_refl,
}
use ordofi.Auction.Merkle.{
  pair_hash, next_level, root_from, merkle_root, siblings, proof_from, merkle_proof, climb,
  verify_merkle_proof,
}

module _ (hash : ℕ → ℕ → ℕ) where
  pair_hash_comm : (a b : ℕ) → pair_hash hash a b ≡ pair_hash hash b a
  unfolding pair_hash
  pair_hash_comm a b = ground arith

  -- Nothing is pushed behind the index.
  siblings_past : (i idx : ℕ) (level : List ℕ) → idx < i → siblings hash i idx level ≡ []
  unfolding siblings
  siblings_past i idx [] h = refl
  siblings_past i idx (x ∷ []) h = refl
  siblings_past i idx (x ∷ y ∷ level) h =
      let rest = siblings_past (i + 2) idx level (omega arith) in
      let a : (i == idx) ≡ false = ground arith in
      let b : (i + 1 == idx) ≡ false = ground arith in rw (a, b) rest

  climb-append : (a : ℕ) (p q : List ℕ) → climb hash a (p ++ q) ≡ climb hash (climb hash a p) q
  unfolding climb
  climb-append a [] q = refl
  climb-append a (s ∷ p) q = climb-append (pair_hash hash a s) p q

  length-next_level : (level : List ℕ) → length (next_level hash level) ≤ length level
  unfolding next_level
  length-next_level [] = omega arith
  length-next_level (x ∷ []) = omega arith
  length-next_level (x ∷ y ∷ level) = omega (arith, length-next_level level)

  -- The node above a node is the hash with what the proof has for its level.
  get_elem?-next_level :
      (i d : ℕ) (level : List ℕ) (leaf : ℕ)
      → get_elem? level d ≡ some leaf
      → get_elem? (next_level hash level) (d / 2)
        ≡ some (climb hash leaf (siblings hash i (i + d) level))
  unfolding next_level siblings climb
  get_elem?-next_level i d [] leaf e = cc
  get_elem?-next_level i zero (x ∷ []) leaf e = e
  get_elem?-next_level i (suc d) (x ∷ []) leaf e = cc
  get_elem?-next_level i zero (x ∷ y ∷ level) leaf e =
      let same : x ≡ leaf = cc in
      let here : (i == i + 0) ≡ true = ground arith in
      rw (here, siblings_past (i + 2) (i + 0) level (omega arith), same) refl
  get_elem?-next_level i (suc zero) (x ∷ y ∷ level) leaf e =
      let same : y ≡ leaf = cc in
      let here : (i == i + 1) ≡ false = ground arith in
      let there : (i + 1 == i + 1) ≡ true = ==_refl (i + 1) in
      rw (here, there, siblings_past (i + 2) (i + 1) level (omega arith), same)
        (ap some (pair_hash_comm x leaf))
  get_elem?-next_level i (suc (suc d)) (x ∷ y ∷ level) leaf e =
      let a : (i == i + suc (suc d)) ≡ false = ground arith in
      let b : (i + 1 == i + suc (suc d)) ≡ false = ground arith in
      let c : i + suc (suc d) ≡ i + 2 + d = omega arith in
      let half : suc (suc d) / 2 ≡ suc (d / 2) = omega arith in
      rw (a, b, c, half) (get_elem?-next_level (i + 2) d level leaf e)

  proof_from-root :
      (fuel : ℕ) (level : List ℕ) (idx leaf : ℕ)
      → length level ≤ fuel
      → get_elem? level idx ≡ some leaf
      → (p : List ℕ) × (proof_from hash fuel level idx ≡ some p)
        × (root_from hash fuel level ≡ some (climb hash leaf p))
  unfolding proof_from root_from climb
  proof_from-root zero [] idx leaf h e = absurd cc
  proof_from-root zero (x ∷ level) idx leaf h e = absurd (omega arith)
  proof_from-root (suc fuel) [] idx leaf h e = absurd cc
  proof_from-root (suc fuel) (x ∷ []) zero leaf h e = ([], refl, e)
  proof_from-root (suc fuel) (x ∷ []) (suc idx) leaf h e = absurd cc
  proof_from-root (suc fuel) (x ∷ y ∷ level) idx leaf h e =
      let all = x ∷ y ∷ level in
      let sibling = siblings hash 0 idx all in
      let zero_add : 0 + idx ≡ idx = omega arith in
      let up : get_elem? (next_level hash all) (idx / 2) ≡ some (climb hash leaf sibling) =
        rw zero_add at (get_elem?-next_level 0 idx all leaf e) in
      let (p, made, root) =
        proof_from-root fuel (next_level hash all) (idx / 2) (climb hash leaf sibling)
          (omega (arith, length-next_level level, h)) up in
      (
        sibling ++ p,
        ap (λ o. o >>= λ rest. some (sibling ++ rest)) made,
        root ∙ ap some (sym (climb-append leaf sibling p)),
      )

  root_from-total :
      (fuel : ℕ) (x : ℕ) (level : List ℕ)
      → length (x ∷ level) ≤ fuel
      → (r : ℕ) × (root_from hash fuel (x ∷ level) ≡ some r)
  unfolding root_from next_level
  root_from-total zero x level h = absurd (omega arith)
  root_from-total (suc fuel) x [] h = (x, refl)
  root_from-total (suc fuel) x (y ∷ level) h =
      root_from-total fuel (pair_hash hash x y) (next_level hash level)
        (omega (arith, length-next_level level, h))

  -- There is a root over any leaves.
  merkle_root-total : (leaves : List ℕ) → (r : ℕ) × (merkle_root hash leaves ≡ some r)
  unfolding merkle_root
  merkle_root-total [] = (0, refl)
  merkle_root-total (x ∷ leaves) = root_from-total (length (x ∷ leaves)) x leaves (omega arith)

  lt-length :
      (leaves : List ℕ) (index leaf : ℕ)
      → get_elem? leaves index ≡ some leaf
      → index < length leaves
  lt-length [] index leaf e = absurd cc
  lt-length (x ∷ leaves) zero leaf e = omega arith
  lt-length (x ∷ leaves) (suc index) leaf e = omega (arith, lt-length leaves index leaf e)

  not_leb : (n i : ℕ) → i < n → leb n i ≡ false
  not_leb n i h = ground arith

  -- For each leaf there is a proof, and there is a root that the proof verifies against.
  pub merkle_proof-verifies :
      (leaves : List ℕ) (index leaf : ℕ)
      → get_elem? leaves index ≡ some leaf
      → (proof : List ℕ) × (root : ℕ) × (merkle_proof hash leaves index ≡ some proof)
        × (merkle_root hash leaves ≡ some root)
        × (verify_merkle_proof hash leaf proof root ≡ true)
  unfolding merkle_proof merkle_root verify_merkle_proof
  merkle_proof-verifies [] index leaf e = absurd cc
  merkle_proof-verifies (x ∷ leaves) index leaf e =
      let all = x ∷ leaves in
      let inside : leb (length all) index ≡ false =
        not_leb (length all) index (lt-length all index leaf e) in
      let (p, made, root) = proof_from-root (length all) all index leaf (omega arith) e in
      (p, climb hash leaf p, rw inside made, root, ==_refl (climb hash leaf p))
