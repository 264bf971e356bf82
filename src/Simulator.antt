-- ===== src/Simulator.antt =====
-- tools/dnp3-master-sim, a DNP3 master with a terminal user interface.
pub mod Model
pub mod Names
pub mod Measurements
pub mod Tables
pub mod Keys
pub mod Session
pub mod Screen
pub mod Args
