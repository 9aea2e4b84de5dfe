-- ===== src/Policy.antt =====
-- pkg/hexapolicy/hexa_policy.go: IDQL policies, their comparison and their reconciliation.
pub mod Json
pub mod Info
pub mod Equality
pub mod Compare
pub mod Reconcile
