-- ===== src/Points.antt =====
-- The point database: its configuration (src/config/AppConfig.hpp), and what
-- src/dnp3/OutstationManager.cpp makes of it before the outstation starts.
pub mod Config
pub mod Names
pub mod Validate
pub mod Database
pub mod Summary
