-- ===== src/Runs.antt =====
-- services/control-tower/src/runs: the runs, their instances, and the operations on them.
pub mod Rows
pub mod Scheduler
pub mod Cleanup
pub mod Races
pub mod Service
mod Examples
