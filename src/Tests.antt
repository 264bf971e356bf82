-- ===== src/Tests.antt =====
-- The theorems at concrete inputs.
pub mod Sample
mod Updates
mod Points
mod Commands
mod Locks
mod Bridge
mod Loading
mod Service
mod Program
mod Main
mod Simulator
