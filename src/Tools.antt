-- ===== src/Tools.antt =====
-- src/asante_secure_multi_agent/tools: the secured business tools.
pub mod Providers
pub mod Idempotence
pub mod Keys
pub mod Gate
pub mod Operations
pub mod Credit
pub mod Reservation
pub mod ApprovedCredit
pub mod Fence
pub mod Safety
