-- ===== src/Adapters.antt =====
-- crates/document-adapters: the adapters that need no server, the placeholder scanner and the
-- placeholder validator.
pub mod Verification
