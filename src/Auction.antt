-- ===== src/Auction.antt =====
pub mod Merkle
pub mod Anchor
pub mod Bonds
pub mod Ledger
-- The backrun auction, apps/auction/src, and the receipts that let a searcher audit it,
-- packages/core/src/receipt.ts.
pub mod Ranking
pub mod Auctioneer
pub mod Receipts
mod Tests
