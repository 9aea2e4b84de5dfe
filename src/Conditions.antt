-- ===== src/Conditions.antt =====
-- pkg/hexapolicy/conditions: the condition language of IDQL.
pub mod Ast
pub mod Serialize
pub mod Walk
pub mod Meaning
pub mod Reading
pub mod Shape
