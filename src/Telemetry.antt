-- ===== src/Telemetry.antt =====
-- src/telemetry.rs: the retained Core Log, and the live measurements of one Core instance.
pub mod Log
pub mod Store
