-- ===== src/Cedar.antt =====
-- The mapping of conditions and policies to Cedar.
pub mod Flat
pub mod Comparison
pub mod Conditions
pub mod FromCedar
pub mod Scope
pub mod Policies
