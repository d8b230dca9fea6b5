-- ===== src/Gateway.antt =====
pub mod Inflight
pub mod Race
pub mod Logs
pub mod Cache
pub mod Answers
pub mod Budget
pub mod Hub
mod Tests
