-- ===== src/Kernel.antt =====
-- The BPF programs: their maps, what the kernel gives each invocation, and the handlers.
pub mod State
pub mod Env
pub mod Gate
pub mod Reserve
pub mod Process
pub mod File
pub mod Syscall
pub mod Network
pub mod Call
pub mod Sound
pub mod Pairs
pub mod Guard
pub mod Shut
