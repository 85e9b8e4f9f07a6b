-- ===== src/Sink.antt =====
-- src/sinks: events as lines of JSON in a file.
pub mod Escape
pub mod Labels
pub mod Body
pub mod Line
pub mod Json
pub mod WellFormed
pub mod Lines
pub mod ReadBack
pub mod File
pub mod Stream
pub mod Rotation
pub mod Texts
pub mod FileHistory
