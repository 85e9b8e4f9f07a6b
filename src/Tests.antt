-- ===== src/Tests.antt =====
-- Concrete maps, circumstances and states, and the properties at them.
mod Setup
mod Runs
mod Sockets
mod Records
mod Model
mod Registry
mod Sink
mod Pipeline
mod Config
mod Collector
