-- ===== src/Kernel/Network.antt =====
-- The socket programs: endpoint snapshots, byte counts, flow ids, pairing and handlers.
pub mod Endpoint
pub mod Iovec
pub mod IovecSum
pub mod EndpointForm
pub mod UnixPath
pub mod AbstractName
pub mod Flow
pub mod FlowHash
pub mod Pairing
pub mod Build
pub mod SocketFds
pub mod Finish
pub mod Enter
pub mod Exit
