-- ===== src/Identity.antt =====
-- src/asante_secure_multi_agent/identity: workload and human identities.
pub mod Workload
pub mod Static
pub mod Human
pub mod Tokens
pub mod PyJwt
pub mod Verified
pub mod DevToken
