-- ===== src/Model.antt =====
-- The canonical event model of src/model/ (in user space).
pub mod Canonical
pub mod Normalizer
pub mod Outcome
pub mod History
