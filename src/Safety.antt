-- ===== src/Safety.antt =====
-- The safety package (src/kdive/safety): the registry of known secrets and what masks them.
pub mod SecretRegistry
pub mod Redaction
