-- ===== src/Config.antt =====
-- config/: the values of the configuration that have a default.
pub mod Json
pub mod Strings
pub mod Flag
pub mod Priority
pub mod Optional
mod Tests
