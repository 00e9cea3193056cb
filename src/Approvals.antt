-- ===== src/Approvals.antt =====
-- src/asante_secure_multi_agent/approvals/store.py: the durable approval requests.
pub mod Table
pub mod Json
pub mod Store
pub mod Requests
pub mod Rows
pub mod Commands
pub mod History
pub mod Audit
pub mod Finality
pub mod Once
