-- ===== src/Gcp.antt =====
-- The mappers of Google Cloud: conditions in CEL, and IAM bindings.
pub mod Cel
pub mod FromCel
pub mod Bind
