-- ===== src/Config.antt =====
-- internal/config: the schema of the configuration file, its defaults, its validation, and how it is
-- loaded.
pub mod Schema
pub mod Defaults
pub mod Validate
pub mod Load
