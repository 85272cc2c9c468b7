-- ===== src/Tuning.antt =====
-- Tuning the parameters of an application (internal/tuning).
pub mod Types
pub mod Grid
pub mod Choice
pub mod Cycle
mod Tests
