-- ===== src/Api.antt =====
-- The HTTP endpoints that change state.
pub mod Decisions
pub mod Guards
pub mod Payment
pub mod Run
pub mod Direct
pub mod Operator
