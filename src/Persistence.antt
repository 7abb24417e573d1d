-- ===== src/Persistence.antt =====
-- The store of src/persistence.rs: the file system that it uses, its operations, and their proofs.
pub mod Disk
pub mod Store
pub mod Prune
pub mod Port
mod Examples
