-- ===== src/Collector.antt =====
-- src/collector: what the collector writes to the maps when it starts, and reads back.
pub mod Toggles
pub mod Startup
pub mod Switches
pub mod Guards
pub mod Off
pub mod Counters
