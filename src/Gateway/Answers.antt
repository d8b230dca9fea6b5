-- ===== src/Gateway/Answers.antt =====
-- What is answered without an upstream, and for how long: `IDEMPOTENT_READS`, `staticAnswer` and
-- `cacheTtlMs` of apps/gateway/src/fastpath.ts.
--
-- The chain id is given by its two texts, hexadecimal and decimal; of the parameters of a call the first
-- is given as text, and of its result whether there is one.
pub mod Reads
mod Tests
use ordofi.Base.{
  ℕ, ◌*◌, ◌++◌, List, [], ◌∷◌, Bool, Option, none, some, ◌||◌, any, or_else, if◌then◌else◌,
}
use ordofi.Base.Text.{Text, codes, text_eq, to_lower_case}

abbrev pub block_ms : ℕ
block_ms = 100

abbrev pub head_tags : List Text
head_tags = codes "latest" ∷ codes "pending" ∷ codes "safe" ∷ codes "finalized" ∷ []

abbrev pub idempotent_reads : List Text
idempotent_reads =
    codes "eth_blockNumber"
    ∷ codes "eth_chainId"
    ∷ codes "net_version"
    ∷ codes "eth_gasPrice"
    ∷ codes "eth_maxPriorityFeePerGas"
    ∷ codes "eth_feeHistory"
    ∷ codes "eth_getBalance"
    ∷ codes "eth_getCode"
    ∷ codes "eth_getStorageAt"
    ∷ codes "eth_getTransactionCount"
    ∷ codes "eth_call"
    ∷ codes "eth_estimateGas"
    ∷ codes "eth_getLogs"
    ∷ codes "eth_getBlockByNumber"
    ∷ codes "eth_getBlockByHash"
    ∷ codes "eth_getBlockReceipts"
    ∷ codes "eth_getTransactionReceipt"
    ∷ codes "eth_getTransactionByHash"
    ∷ codes "eth_getTransactionByBlockNumberAndIndex"
    ∷ codes "eth_syncing"
    ∷ codes "web3_clientVersion"
    ∷ []

unfoldable pub in_set : List Text → Text → Bool
in_set set t = any (λ s. text_eq s t) set

-- `staticAnswer`
unfoldable pub static_answer : Text → Text → Text → Option Text
static_answer hex_id decimal_id method =
    if text_eq method (codes "eth_chainId")
    then some (codes "0x" ++ hex_id)
    else if text_eq method (codes "net_version")
    then some decimal_id
    else none

-- `cacheTtlMs`
unfoldable pub cache_ttl_ms : Text → Option Text → Bool → ℕ
unfolding in_set
cache_ttl_ms method first_param has_result =
    if text_eq method (codes "eth_blockNumber")
    then block_ms
    else if text_eq method (codes "eth_gasPrice")
        || text_eq method (codes "eth_maxPriorityFeePerGas")
        || text_eq method (codes "eth_feeHistory")
    then 1000
    else if text_eq method (codes "eth_getBlockByNumber")
    then if in_set head_tags (to_lower_case (or_else first_param (codes "latest")))
      then block_ms
      else if has_result
      then 60000
      else 0
    else if text_eq method (codes "eth_getBlockByHash")
    then if has_result then 60000 else 0
    else if text_eq method (codes "eth_getTransactionReceipt")
        || text_eq method (codes "eth_getTransactionByHash")
    then if has_result then 10 * 60000 else 0
    else 0
