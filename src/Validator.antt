-- ===== src/Validator.antt =====
-- shared/definition-validator: the checks that a definition file passes before it is deployed.
pub mod Keys
pub mod Paths
pub mod Where
pub mod Assertions
pub mod Loops
pub mod Blocks
pub mod Screenshots
pub mod Examples
pub mod Items
pub mod Refs
pub mod Ui
pub mod Steps
pub mod Definition
