-- ===== src/Outstation.antt =====
-- src/dnp3/OutstationManager.cpp: what an update does to the outstation (Updates, with its
-- proofs in the modules below it).
pub mod Flags
pub mod Updates
pub mod Lifecycle
