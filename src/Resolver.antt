-- ===== src/Resolver.antt =====
-- shared/definition-resolver: what a definition's files become before they are sent to be run.
pub mod Substitution
pub mod Leftovers
pub mod Examples
