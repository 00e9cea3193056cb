-- ===== src/Evals.antt =====
-- The release gate.
pub mod Report
pub mod Gate
