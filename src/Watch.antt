-- ===== src/Watch.antt =====
-- The watcher, apps/watcher/src: what it finds in a block's receipts.
pub mod Swaps
pub mod Detect
mod Tests
