-- ===== src/Constants.antt =====
-- src/constants.rs and the domain numbers that several components share. A `Duration` is its
-- whole number of milliseconds.
use ratash.Common.{ℕ, ◌*◌}

abbrev pub profile_refresh_interval : ℕ
profile_refresh_interval = 6 * 60 * 60 * 1000

abbrev pub profile_refresh_concurrency : ℕ
profile_refresh_concurrency = 2

abbrev pub profile_count_max : ℕ
profile_count_max = 1000

abbrev pub probe_worker_count : ℕ
probe_worker_count = 16

abbrev pub probe_interval : ℕ
probe_interval = 5 * 60 * 1000

abbrev pub probe_timeout : ℕ
probe_timeout = 5 * 1000

abbrev pub latency_freshness : ℕ
latency_freshness = 10 * 60 * 1000

abbrev pub max_active_nodes : ℕ
max_active_nodes = 10000

abbrev pub log_retention_max_bytes : ℕ
log_retention_max_bytes = 32 * 1024 * 1024

abbrev pub log_tail_max_records : ℕ
log_tail_max_records = 256

abbrev pub log_tail_max_bytes : ℕ
log_tail_max_bytes = 4 * 1024 * 1024

abbrev pub connection_record_capacity : ℕ
connection_record_capacity = 256

abbrev pub effective_configuration_max_bytes : ℕ
effective_configuration_max_bytes = 64 * 1024 * 1024

abbrev pub supervisor_state_max_bytes : ℕ
supervisor_state_max_bytes = 16 * 1024 * 1024
