-- ===== src/Batch.antt =====
-- The batcher, apps/batcher/src: orders of one window are grouped by pair, priced uniformly, and
-- what the two sides do not cover for each other is sent to the pools.
pub mod Types
pub mod Pairs
pub mod Pricing
pub mod Routing
pub mod Solve
pub mod Book
pub mod Pause
pub mod Settle
pub mod Windows
pub mod Form
pub mod Intake
mod Tests
mod ServerTests
