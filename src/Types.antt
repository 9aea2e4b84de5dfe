-- ===== src/Types.antt =====
-- pkg/hexapolicy/types: the entity paths and the values of IDQL.
pub mod Entity
pub mod Platform
pub mod Quote
pub mod Value
