-- ===== src/Validator/Refs.antt =====
-- shared/definition-validator/validate-refs.ts and the variables of validate-tests.ts: what `$ref`
-- names is read from other files and put under the fields of its own.
pub mod Variables
pub mod ItemRefs
pub mod ActionRefs
