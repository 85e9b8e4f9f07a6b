-- ===== src/Registry.antt =====
-- src/registry: process entities with a stable identity.
pub mod Entity
pub mod Table
pub mod Ingest
pub mod Consistent
pub mod Changes
pub mod Creation
pub mod Kept
pub mod Resolution
pub mod Evolution
pub mod Resolving
pub mod History
pub mod Subject
pub mod Lifecycle
