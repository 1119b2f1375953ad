-- ===== src/ControlPlane/Rollout.antt =====
-- The fleet rolling-update orchestrator, apps/control-plane/src/fleet-rollout-orchestrator.ts.
pub mod Tables
pub mod Run
pub mod Start
pub mod Reads
pub mod Frame
pub mod Release
pub mod Rows
pub mod Writes
pub mod Skips
pub mod Ending
pub mod Stops
pub mod Aftermath
pub mod Outcome
pub mod Counts
pub mod Exclusion
mod Tests
