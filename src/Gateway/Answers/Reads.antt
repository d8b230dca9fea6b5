-- ===== src/Gateway/Answers/Reads.antt =====
-- Only reads are cached.
use ordofi.Base.{
  ℕ, ◌≤◌, ◌<◌, ◌*◌, Bool, true, false, Option, ◌||◌, any, if_elim, ◌≡◌, refl, arith, ◌⊎◌, inl, inr,
  or_else, if◌then◌else◌,
}
use ordofi.Base.Text.{Text, codes, text_eq, text_eq_iff, to_lower_case}
use ordofi.Gateway.Answers.{idempotent_reads, in_set, head_tags, cache_ttl_ms}

-- A method that is kept at all is a read, and one without a result is kept for a second at most.
abbrev Careful : Text → Bool → ℕ → Type 0
Careful method has_result ttl =
    (0 < ttl → in_set idempotent_reads method ≡ true) × (has_result ≡ false → ttl ≤ 1000)

or_cases : (a b : Bool) → a || b ≡ true → (a ≡ true) ⊎ (b ≡ true)
or_cases true b h = inl refl
or_cases false b h = inr h

module _ (method : Text) where
  is_read :
      (lit : Text)
      → text_eq method lit ≡ true
      → in_set idempotent_reads lit ≡ true
      → in_set idempotent_reads method ≡ true
  is_read lit e r = rw ((text_eq_iff method lit).0 e) r

  -- A time that depends on there being a result.
  with_result :
      (has_result : Bool) (ttl : ℕ)
      → in_set idempotent_reads method ≡ true
      → Careful method has_result (if has_result then ttl else 0)
  with_result true ttl r = (λ _. r, λ h. absurd cc)
  with_result false ttl r = (λ _. r, λ _. omega arith)

-- A method whose answer is cached for any time is one of the idempotent reads; and an answer without a
-- result is kept for a second at most.
pub cache_ttl_ms_careful :
    (method : Text) (first_param : Option Text) (has_result : Bool)
    → (0 < cache_ttl_ms method first_param has_result → in_set idempotent_reads method ≡ true)
      × (has_result ≡ false → cache_ttl_ms method first_param has_result ≤ 1000)
unfolding cache_ttl_ms in_set any text_eq
cache_ttl_ms_careful method first_param has_result =
    if_elim Fine _ (λ e. (λ _. is_read method (codes "eth_blockNumber") e refl, λ _. omega arith))
      λ _.
        if_elim Fine _ (λ e. (λ _. fees e, λ _. omega arith))
          λ _.
            if_elim Fine _
              (λ e.
                if_elim Fine
                  (in_set head_tags (to_lower_case (or_else first_param (codes "latest"))))
                  (λ _.
                    (λ _. is_read method (codes "eth_getBlockByNumber") e refl, λ _. omega arith))
                  (λ _.
                    with_result method has_result 60000
                      (is_read method (codes "eth_getBlockByNumber") e refl)))
              λ _.
                if_elim Fine _
                  (λ e.
                    with_result method has_result 60000
                      (is_read method (codes "eth_getBlockByHash") e refl))
                  λ _.
                    if_elim Fine _ (λ e. with_result method has_result (10 * 60000) (receipts e))
                      (λ _. (λ p. absurd (omega arith), λ _. omega arith))
  where
    Fine : ℕ → Type 0
    Fine = Careful method has_result

    fees :
        text_eq method (codes "eth_gasPrice")
            || text_eq method (codes "eth_maxPriorityFeePerGas")
            || text_eq method (codes "eth_feeHistory")
          ≡ true
        → in_set idempotent_reads method ≡ true
    fees e = elim (or_cases _ _ e) [
      | inl b ↦ elim (or_cases _ _ b) [
        | inl c ↦ is_read method (codes "eth_gasPrice") c refl
        | inr d ↦ is_read method (codes "eth_maxPriorityFeePerGas") d refl
      ]
      | inr a ↦ is_read method (codes "eth_feeHistory") a refl
    ]

    receipts :
        text_eq method (codes "eth_getTransactionReceipt")
            || text_eq method (codes "eth_getTransactionByHash")
          ≡ true
        → in_set idempotent_reads method ≡ true
    receipts e = elim (or_cases _ _ e) [
      | inl a ↦ is_read method (codes "eth_getTransactionReceipt") a refl
      | inr b ↦ is_read method (codes "eth_getTransactionByHash") b refl
    ]
