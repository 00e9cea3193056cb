-- ===== src/Reliability.antt =====
-- src/asante_secure_multi_agent/reliability: bounded retries, and the settings that bound them.
pub mod Retry
pub mod Config
pub mod Attempts
