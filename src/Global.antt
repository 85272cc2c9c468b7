-- ===== src/Global.antt =====
-- The hub's view of several clusters (internal/global).
pub mod Messages
pub mod Lifecycle
pub mod Hibernation
pub mod Weights
pub mod Predictive
pub mod Snapshot
pub mod Solve
pub mod Hub
pub mod Spoke
mod Tests
