-- ===== src/Profile.antt =====
-- src/profile.rs: profile snapshots and the catalog of profiles.
pub mod Snapshot
pub mod Catalog
mod Examples
