-- ===== src/Security.antt =====
-- The security package: delegation.py and the policy of runtime.py.
pub mod Delegation
pub mod Chains
pub mod Executor
pub mod Paying
pub mod Policy
