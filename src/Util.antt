-- ===== src/Util.antt =====
-- src/util: reads of /proc.
pub mod Proc
pub mod Stat
