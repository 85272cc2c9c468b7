-- ===== src/Actuator.antt =====
-- Applying an action to a workload (internal/actuator).
pub mod Types
pub mod Guard
pub mod Pipeline
mod Tests
