-- ===== src/Lib.antt =====
-- OrdoFi: the order-flow auction, the batcher, the RPC gateway, the delivery guard and the watcher of
-- the repository.
--
-- The gateway takes wallets' requests; a protected order becomes an opportunity that the auction sells
-- to a searcher, who pays the second price out of a bond and is given a signed receipt; the batcher
-- nets signed orders of one pair and routes the rest through pools.
--
-- Base holds what the others share: Boolean tests, lists and sums over native numbers, integers, text as
-- code units with the conversion of `BigInt`, and insertion-ordered maps.
--
-- Auction:
--   Ranking, Auctioneer: apps/auction/src/auctioneer.ts, one opportunity: `submitBid`, `close`, the window.
--   Receipts: packages/core/src/receipt.ts, the audits, and apps/auction/src/receipts.ts, what is published.
--   Merkle: packages/core/src/receipt.ts, roots and proofs over receipt hashes.
--   Anchor: apps/auction/src/receipts.ts, the log of receipts and its commits, with the contract that they
--   settle in; the reading at boot has ended before the first receipt is published.
--   Bonds: apps/auction/src/bonds.ts, collateral and holds.
--   Ledger: apps/auction/src/ledger.ts, the split of the price and its file.
-- Batch:
--   Types, Pairs, Pricing, Routing: apps/batcher/src/types.ts and solver.ts, pairs, clearing prices,
--   residuals, limits and splits over pools.
--   Solve: apps/batcher/src/main.ts, `solve`, the rounds that look for one price.
--   Form, Intake: `parseOrder` and `intake` there, how an order enters the book.
--   Book, Settle, Pause: the orders kept and `settlePair`, from the solution to the receipt.
--   Windows: `tick`, what is done at the end of a window.
-- Core:
--   Delivery, Calls, Guard: packages/core/src/guard.ts, `proveDelivery`, which simulates a transaction
--   between two readings of the balances; the block and overrides it is simulated with are left out.
-- Gateway:
--   Answers, Inflight, Race, Cache, Budget: apps/gateway/src/fastpath.ts, what is cached, the classes
--   `InflightCap`, `MicroCache` and `HedgeBudget`, and `hedged`.
--   Logs: apps/gateway/src/getlogs.ts, wide queries walked by halves.
--   Hub: apps/gateway/src/subscribe.ts, the class `Hub` and log filters.
-- Watch:
--   Swaps: the receipts and logs of apps/watcher/src/detect.ts, and the swaps of a block.
--   Detect: `analyzeBlock` of the same file, the net flows of a sender and the arbitrages by them.
--
-- Conventions:
--   A class is a record of its fields and each method a function from the state to the state and the
--   answer; the events that drive a component (timers, messages, settled promises) are a data type with
--   a `step` and a `run` over a list of them, in any order.
--   A `bigint` that the code keeps from going below zero is a natural number, others are integers. The
--   clock, random ids, and what contracts, upstreams and libraries answer are arguments.
--   Exceptions are `none` or a constructor of the component's own error type.
--   The engine's sort is insertion into the sorted front: the comparator of the ranking never answers
--   that two bids are equal, so that of equal bids the last received comes first.
--   Identity of order objects in `without` is a predicate.
--
-- Fuel: the loops over the levels of a Merkle tree have the number of leaves, each level being shorter
-- than the one before; the walk over a block range has one more than the difference of its ends, each
-- half being narrower; decimal and hexadecimal digits have one more than the number; the rounds of
-- `solve` are the source's own six.
--
-- Not modelled: signatures and hashes (parameters), the contracts, web pages, configuration, metrics,
-- the bots, the store and the client library; of apps/gateway/src, the request handling and the head
-- watcher; of apps/batcher/src/main.ts, the search for the best split (`bestRoute`) and the HTTP routes;
-- of apps/watcher/src, candles and reports; of apps/auction/src, the server of main.ts and settlement.
-- Two settlements of one window are taken one after the other, and an intake as one step.
pub mod Base
pub mod Auction
pub mod Core
pub mod Batch
pub mod Gateway
pub mod Watch
