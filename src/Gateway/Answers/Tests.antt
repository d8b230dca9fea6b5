-- ===== src/Gateway/Answers/Tests.antt =====
-- A call that is cached, and the theorem applied to it.
use ordofi.Base.{◌≤◌, ◌<◌, false, some, true, ◌≡◌}
use ordofi.Base.Text.{codes}
use ordofi.Gateway.Answers.{cache_ttl_ms, idempotent_reads, in_set}
use ordofi.Gateway.Answers.Reads.{cache_ttl_ms_careful}

cache_ttl_ms_careful_example :
    (0 < cache_ttl_ms (codes "eth_getBlockByNumber") (some (codes "LATEST")) false
      → in_set idempotent_reads (codes "eth_getBlockByNumber") ≡ true)
    × (false ≡ false
        → cache_ttl_ms (codes "eth_getBlockByNumber") (some (codes "LATEST")) false ≤ 1000)
cache_ttl_ms_careful_example =
    cache_ttl_ms_careful (codes "eth_getBlockByNumber") (some (codes "LATEST")) false
