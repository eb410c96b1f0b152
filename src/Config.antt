-- ===== src/Config.antt =====
-- The persistent configuration.
pub mod Rules
pub mod Settings
pub mod Validation
pub mod Compile
