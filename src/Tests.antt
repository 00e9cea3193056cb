-- ===== src/Tests.antt =====
-- Concrete inputs, and each theorem that has hypotheses at one of them.
pub mod Data
pub mod Approval
pub mod Tool
pub mod Endpoint
pub mod Setting
pub mod Manager
pub mod Person
pub mod Run
pub mod Login
pub mod Observed
pub mod Release
