-- ===== src/Bpsec.antt =====
-- core/dtn7/src/core/bpsec/: the security policy and its enforcement.
pub mod Config
pub mod Policy
pub mod Statistics
pub mod Enforcement
