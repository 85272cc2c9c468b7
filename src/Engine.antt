-- ===== src/Engine.antt =====
-- The per-service optimizer (internal/engine and internal/cel).
pub mod Types
pub mod Dominance
pub mod Pareto
pub mod Scorer
pub mod Cost
pub mod Candidates
pub mod Constraints
pub mod Solver
pub mod Signals
pub mod Samples
mod Tests
