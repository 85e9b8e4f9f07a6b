-- ===== src/Pipeline.antt =====
-- src/main.cpp, src/metrics and src/policy: what happens to the bytes of one record.
pub mod Callback
pub mod Flow
pub mod EndToEnd
