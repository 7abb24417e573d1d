-- ===== src/Telemetry/Store/Examples.antt =====
-- Runs of the telemetry store, and its theorems at concrete inputs.
use ratash.Common.{ℕ, ◌≡◌, none, List, [], ◌∷◌, arith}
use ratash.Telemetry.Log.{warn, stderr}
use ratash.Telemetry.Store.{TelemetryStore}
use ratash.Telemetry.Store.Histories.{
  Event, reports, replaces, log, log_drop, heeded, observe_all, observe_all-heeded,
  observe_all-IsConsistent, IsConsistent,
}
use ratash.Telemetry.Log.Examples.{full, full-IsValid}

-- A store of the first Core instance, over numbers for connections.
abbrev store : TelemetryStore ℕ
store = record {
  core_generation = 1;
  logs = full;
  traffic_capacity = 2;
  traffic_history = [];
  latest_traffic = none;
  connection_count = none;
  upload_total_bytes = none;
  download_total_bytes = none;
  memory_bytes = none;
  connections = [];
}

store-IsConsistent : IsConsistent store
store-IsConsistent = record {
  logs = full-IsValid;
  positive = omega arith;
  traffic = omega arith;
  connections = omega arith;
}

abbrev events : List (Event ℕ)
events =
    reports 1 (log 100 warn stderr (65 ∷ 66 ∷ []))
    ∷ reports 2 (log_drop 3)
    ∷ replaces 2
    ∷ reports 2 (log_drop 3)
    ∷ []

observe_all-IsConsistent_example : IsConsistent (observe_all events store)
observe_all-IsConsistent_example = observe_all-IsConsistent events store store-IsConsistent

observe_all-heeded_example : observe_all events store ≡ observe_all (heeded 1 events) store
observe_all-heeded_example = observe_all-heeded events store
