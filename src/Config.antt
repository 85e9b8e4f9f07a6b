-- ===== src/Config.antt =====
-- The settings that the program reads from its configuration file.
pub mod Text
pub mod SinkSettings
pub mod Runtime
pub mod Load
pub mod Settings
pub mod Digits
pub mod Allowlist
