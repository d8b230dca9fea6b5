-- ===== src/Core.antt =====
-- What the services share, packages/core/src: the proof of delivery.
pub mod Delivery
pub mod Calls
pub mod Guard
mod Tests
