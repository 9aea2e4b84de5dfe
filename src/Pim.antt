-- ===== src/Pim.antt =====
-- The policy information model of an application, and the validation of policies against it.
pub mod Schema
pub mod Entities
pub mod Operands
pub mod Validate
