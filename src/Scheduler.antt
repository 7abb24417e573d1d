-- ===== src/Scheduler.antt =====
-- src/scheduler.rs: the refresh schedule of Profiles and the delay probes of the active nodes.
pub mod Clock
pub mod Refresh
pub mod Probe
