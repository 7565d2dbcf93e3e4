-- ===== src/Domain.antt =====
-- crates/document-domain: the event catalogue, the fold, part geometry and metadata validation.
pub mod Events
pub mod Fold
pub mod Geometry
pub mod Validation
