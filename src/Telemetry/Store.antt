-- ===== src/Telemetry/Store.antt =====
-- `TelemetryStore` of src/telemetry.rs. A `ConnectionRecord` is passed on whole and never looked
-- into, so its type is a parameter.
pub mod Histories
mod Examples
use ratash.Common.{
  ℕ, suc, ◌+◌, ◌≤◌, ◌<◌, ◌≡◌, ◌≢◌, refl, Bool, true, false, not, Option, none, some, List, [], ◌∷◌,
  ◌++◌, length, length-append, length-take, take, drop, arith, ◌==◌, if◌then◌else◌, Bool-cases, inl,
  inr,
}
use ratash.Common.Result.{Result, ok, err, ◌>>=◌, Result-cases}
use ratash.Constants.{connection_record_capacity}
use ratash.Scheduler.Probe.{SampleState}
use ratash.Telemetry.Log
use ratash.Telemetry.Log.{LogBuffer, LogLevel, LogSource, TelemetryError, invalid_limit}
use ratash.Telemetry.Log.Retention

-- `TrafficSample` of src/domain.rs.
pub record TrafficSample : Type 0 where
  pub upload_bytes_per_second : ℕ
  pub download_bytes_per_second : ℕ
  pub sampled_at_unix_ms : Option ℕ
  pub state : SampleState

module _ (ConnectionRecord : Type 0) where
  pub record TelemetryStore : Type 0 where
    pub core_generation : ℕ
    pub logs : LogBuffer
    pub traffic_capacity : ℕ
    pub traffic_history : List TrafficSample
    pub latest_traffic : Option TrafficSample
    pub connection_count : Option ℕ
    pub upload_total_bytes : Option ℕ
    pub download_total_bytes : Option ℕ
    pub memory_bytes : Option ℕ
    pub connections : List ConnectionRecord

module _ {ConnectionRecord : Type 0} where
  pub new : ℕ → ℕ → ℕ → ℕ → Result TelemetryError (TelemetryStore ConnectionRecord)
  new core_generation log_capacity max_log_line_bytes traffic_capacity =
      if traffic_capacity == 0 then err invalid_limit else (do
        logs ← Log.new log_capacity max_log_line_bytes
        ok (record {
          core_generation = core_generation;
          logs = logs;
          traffic_capacity = traffic_capacity;
          traffic_history = [];
          latest_traffic = none;
          connection_count = none;
          upload_total_bytes = none;
          download_total_bytes = none;
          memory_bytes = none;
          connections = [];
        }))

  pub replace_core : ℕ → TelemetryStore ConnectionRecord → TelemetryStore ConnectionRecord
  replace_core generation s = record s {
    core_generation = generation;
    traffic_history = [];
    latest_traffic = none;
    connection_count = none;
    upload_total_bytes = none;
    download_total_bytes = none;
    memory_bytes = none;
    connections = [];
  }

  pub publish_traffic :
      ℕ → TrafficSample → TelemetryStore ConnectionRecord → Bool × TelemetryStore ConnectionRecord
  publish_traffic generation sample s =
      if not (generation == s.core_generation)
      then (false, s)
      else let history =
          if length s.traffic_history == s.traffic_capacity
          then drop 1 s.traffic_history
          else s.traffic_history in
        (true, record s { traffic_history = history ++ sample ∷ []; latest_traffic = some sample })

  pub publish_connections :
      ℕ
      → ℕ
      → ℕ
      → ℕ
      → Option ℕ
      → List ConnectionRecord
      → TelemetryStore ConnectionRecord
      → Bool × TelemetryStore ConnectionRecord
  publish_connections generation count upload_total_bytes download_total_bytes memory_bytes
        connections s =
      if not (generation == s.core_generation) then (false, s) else (
        true,
        record s {
          connection_count = some count;
          upload_total_bytes = some upload_total_bytes;
          download_total_bytes = some download_total_bytes;
          memory_bytes = memory_bytes;
          connections = take connection_record_capacity connections;
        },
      )

  pub publish_log :
      ℕ
      → ℕ
      → LogLevel
      → LogSource
      → List ℕ
      → TelemetryStore ConnectionRecord
      → Result TelemetryError (Bool × TelemetryStore ConnectionRecord)
  publish_log generation timestamp_unix_ms level source message s =
      if not (generation == s.core_generation) then ok (false, s) else (do
        pushed ← Log.push timestamp_unix_ms level source message s.logs
        ok (true, record s { logs = pushed.1 }))

  pub record_log_drop :
      ℕ
      → ℕ
      → TelemetryStore ConnectionRecord
      → Result TelemetryError (Bool × TelemetryStore ConnectionRecord)
  record_log_drop generation count s =
      if not (generation == s.core_generation)
      then ok (false, s)
      else (do logs ← Log.record_external_drop count s.logs; ok (true, record s { logs = logs }))
