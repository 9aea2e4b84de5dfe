-- ===== src/Parser.antt =====
-- pkg/hexapolicy/conditions/parser/parser.go: the reader of conditions.
pub mod Result
pub mod State
pub mod Brackets
pub mod Step
pub mod Loop
