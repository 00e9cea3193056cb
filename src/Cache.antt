-- ===== src/Cache.antt =====
-- src/asante_secure_multi_agent/cache: the TTL cache of the authorized reservation reads.
pub mod Store
pub mod View
