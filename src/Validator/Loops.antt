-- ===== src/Validator/Loops.antt =====
-- shared/definition-validator/validate-loops.ts: loop modifiers, their bodies and their siblings.
pub mod Levels
pub mod Kinds
pub mod Modifiers
