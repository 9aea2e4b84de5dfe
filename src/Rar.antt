-- ===== src/Rar.antt =====
-- models/rar: the resource, action and roles model of the providers without a policy language.
pub mod Slices
pub mod Roles
pub mod Transform
