-- ===== src/Telemetry/Store/Histories.antt =====
-- The telemetry store over whole histories of reports (src/telemetry.rs).
use ratash.Common.{
  ℕ, ◌≤◌, ◌<◌, ◌≡◌, ◌≢◌, refl, ap, ◌∙◌, if◌then◌else◌, Bool, not, Option, List, [], ◌∷◌, length,
  length-append, length-take, length-drop, drop, arith, ◌==◌, Bool-cases, inl, inr,
}
use ratash.Common.Result.{Result, ok, err, Result-cases, ok-injective}
use ratash.Constants.{connection_record_capacity}
use ratash.Telemetry.Log
use ratash.Telemetry.Log.{LogBuffer, LogLevel, LogSource, TelemetryError}
use ratash.Telemetry.Log.Retention.{
  IsValid, push-IsValid, record_external_drop-IsValid, new-IsValid,
}
use ratash.Telemetry.Store.{
  TelemetryStore, TrafficSample, new, replace_core, publish_traffic, publish_connections,
  publish_log, record_log_drop,
}

-- The reports of a Core instance.
pub data Report (ConnectionRecord : Type 0) : Type 0 where
  traffic : TrafficSample → Report ConnectionRecord
  connections : ℕ → ℕ → ℕ → Option ℕ → List ConnectionRecord → Report ConnectionRecord
  log : ℕ → LogLevel → LogSource → List ℕ → Report ConnectionRecord
  log_drop : ℕ → Report ConnectionRecord

-- A report with the generation that it speaks for, or the change to another Core instance.
pub data Event (ConnectionRecord : Type 0) : Type 0 where
  reports : ℕ → Report ConnectionRecord → Event ConnectionRecord
  replaces : ℕ → Event ConnectionRecord

pub record IsConsistent {ConnectionRecord : Type 0} (s : TelemetryStore ConnectionRecord)
    : Type 0 where
  pub logs : IsValid s.logs
  pub positive : 0 < s.traffic_capacity
  pub traffic : length s.traffic_history ≤ s.traffic_capacity
  pub connections : length s.connections ≤ connection_record_capacity

module _ {ConnectionRecord : Type 0} where
  -- A refused log line leaves the store as it was.
  abbrev accepted :
      TelemetryStore ConnectionRecord
      → Result TelemetryError (Bool × TelemetryStore ConnectionRecord)
      → TelemetryStore ConnectionRecord
  accepted s (ok (_, s')) = s'
  accepted s (err e) = s

  pub publish :
      ℕ
      → Report ConnectionRecord
      → TelemetryStore ConnectionRecord
      → TelemetryStore ConnectionRecord
  publish g (traffic sample) s = (publish_traffic g sample s).1
  publish g (connections count up down memory records) s =
      (publish_connections g count up down memory records s).1
  publish g (log t level source message) s = accepted s (publish_log g t level source message s)
  publish g (log_drop count) s = accepted s (record_log_drop g count s)

  publish_stale :
      (g : ℕ) (r : Report ConnectionRecord) (s : TelemetryStore ConnectionRecord)
      → g ≢ s.core_generation
      → publish g r s ≡ s
  unfolding publish publish_traffic publish_connections publish_log record_log_drop
  publish_stale g (traffic sample) s h = ground arith
  publish_stale g (connections count up down memory records) s h = ground arith
  publish_stale g (log t level source message) s h = ground arith
  publish_stale g (log_drop count) s h = ground arith

  traffic-IsConsistent :
      (g : ℕ) (sample : TrafficSample) (s : TelemetryStore ConnectionRecord)
      → IsConsistent s
      → IsConsistent (publish_traffic g sample s).1
  unfolding publish_traffic
  traffic-IsConsistent g sample s v = elim (Bool-cases (not (g == s.core_generation))) [
    | inl late ↦ rw late v
    | inr current ↦ rw current (record {
      logs = v.logs;
      positive = v.positive;
      traffic = ground (
        arith,
        v.positive,
        v.traffic,
        length-append (drop 1 s.traffic_history) (sample ∷ []),
        length-append s.traffic_history (sample ∷ []),
        length-drop 1 s.traffic_history,
      );
      connections = v.connections;
    })
  ]

  connections-IsConsistent :
      (g count up down : ℕ) (memory : Option ℕ) (records : List ConnectionRecord)
      (s : TelemetryStore ConnectionRecord)
      → IsConsistent s
      → IsConsistent (publish_connections g count up down memory records s).1
  unfolding publish_connections
  connections-IsConsistent g count up down memory records s v =
      elim (Bool-cases (not (g == s.core_generation))) [
        | inl late ↦ rw late v
        | inr current ↦ rw current (record {
          logs = v.logs;
          positive = v.positive;
          traffic = v.traffic;
          connections = omega (arith, length-take connection_record_capacity records);
        })
      ]

  with_logs :
      (s : TelemetryStore ConnectionRecord) (logs : LogBuffer)
      → IsConsistent s
      → IsValid logs
      → IsConsistent (record s { logs = logs })
  with_logs s logs v l = record {
    logs = l;
    positive = v.positive;
    traffic = v.traffic;
    connections = v.connections;
  }

  log-IsConsistent :
      (g t : ℕ) (level : LogLevel) (source : LogSource) (message : List ℕ)
      (s : TelemetryStore ConnectionRecord)
      → IsConsistent s
      → IsConsistent (accepted s (publish_log g t level source message s))
  unfolding publish_log
  log-IsConsistent g t level source message s v = elim (Bool-cases (not (g == s.core_generation))) [
    | inl late ↦ rw late v
    | inr current ↦ elim (Result-cases (Log.push t level source message s.logs)) [
      | inl ((q, logs), pushed) ↦
          rw (current, pushed)
            (with_logs s logs v (push-IsValid t level source message q s.logs logs v.logs pushed))
      | inr (e, refused) ↦ rw (current, refused) v
    ]
  ]

  log_drop-IsConsistent :
      (g count : ℕ) (s : TelemetryStore ConnectionRecord)
      → IsConsistent s
      → IsConsistent (accepted s (record_log_drop g count s))
  unfolding record_log_drop
  log_drop-IsConsistent g count s v = elim (Bool-cases (not (g == s.core_generation))) [
    | inl late ↦ rw late v
    | inr current ↦ elim (Result-cases (Log.record_external_drop count s.logs)) [
      | inl (logs, counted) ↦
          rw (current, counted)
            (with_logs s logs v (record_external_drop-IsValid count s.logs logs v.logs counted))
      | inr (e, refused) ↦ rw (current, refused) v
    ]
  ]

  publish-IsConsistent :
      (g : ℕ) (r : Report ConnectionRecord) (s : TelemetryStore ConnectionRecord)
      → IsConsistent s
      → IsConsistent (publish g r s)
  unfolding publish
  publish-IsConsistent g (traffic sample) s v = traffic-IsConsistent g sample s v
  publish-IsConsistent g (connections count up down memory records) s v =
      connections-IsConsistent g count up down memory records s v
  publish-IsConsistent g (log t level source message) s v =
      log-IsConsistent g t level source message s v
  publish-IsConsistent g (log_drop count) s v = log_drop-IsConsistent g count s v

  pub observe :
      Event ConnectionRecord → TelemetryStore ConnectionRecord → TelemetryStore ConnectionRecord
  observe (reports g r) s = publish g r s
  observe (replaces g) s = replace_core g s

  observe-IsConsistent :
      (e : Event ConnectionRecord) (s : TelemetryStore ConnectionRecord)
      → IsConsistent s
      → IsConsistent (observe e s)
  unfolding observe replace_core
  observe-IsConsistent (reports g r) s v = publish-IsConsistent g r s v
  observe-IsConsistent (replaces g) s v = record {
    logs = v.logs;
    positive = v.positive;
    traffic = omega arith;
    connections = omega arith;
  }

  pub observe_all :
      List (Event ConnectionRecord)
      → TelemetryStore ConnectionRecord
      → TelemetryStore ConnectionRecord
  observe_all [] s = s
  observe_all (e ∷ es) s = observe_all es (observe e s)

  -- Whatever reports come in, of the current Core instance or another, in range or not, the store
  -- stays within its bounds: the log is valid, the traffic history within its capacity and the
  -- connections within theirs.
  pub observe_all-IsConsistent :
      (es : List (Event ConnectionRecord)) (s : TelemetryStore ConnectionRecord)
      → IsConsistent s
      → IsConsistent (observe_all es s)
  unfolding observe_all
  observe_all-IsConsistent [] s v = v
  observe_all-IsConsistent (e ∷ es) s v =
      observe_all-IsConsistent es (observe e s) (observe-IsConsistent e s v)

  publish-core_generation :
      (g : ℕ) (r : Report ConnectionRecord) (s : TelemetryStore ConnectionRecord)
      → (publish g r s).core_generation ≡ s.core_generation
  unfolding publish publish_traffic publish_connections publish_log record_log_drop
  publish-core_generation g (traffic sample) s = ground arith
  publish-core_generation g (connections count up down memory records) s = ground arith
  publish-core_generation g (log t level source message) s =
      elim (Bool-cases (not (g == s.core_generation))) [
        | inl late ↦ rw late refl
        | inr current ↦ elim (Result-cases (Log.push t level source message s.logs)) [
          | inl ((q, logs), pushed) ↦ rw (current, pushed) refl
          | inr (e, refused) ↦ rw (current, refused) refl
        ]
      ]
  publish-core_generation g (log_drop count) s = elim (Bool-cases (not (g == s.core_generation))) [
    | inl late ↦ rw late refl
    | inr current ↦ elim (Result-cases (Log.record_external_drop count s.logs)) [
      | inl (logs, counted) ↦ rw (current, counted) refl
      | inr (e, refused) ↦ rw (current, refused) refl
    ]
  ]

  -- The history without the reports for another Core instance than the one that the history itself
  -- has made the current one by then.
  pub heeded : ℕ → List (Event ConnectionRecord) → List (Event ConnectionRecord)
  heeded current [] = []
  heeded current (replaces g ∷ es) = replaces g ∷ heeded g es
  heeded current (reports g r ∷ es) =
      let rest = heeded current es in if g == current then reports g r ∷ rest else rest

  -- The store after a history is the one after the same history without its stale reports, those
  -- for another Core instance than the one that the store began with or, from the first replacement
  -- on, that the last replacement named: a report that comes late or early, in between whatever
  -- others, leaves no trace.
  pub observe_all-heeded :
      (es : List (Event ConnectionRecord)) (s : TelemetryStore ConnectionRecord)
      → observe_all es s ≡ observe_all (heeded s.core_generation es) s
  unfolding observe_all observe heeded replace_core
  observe_all-heeded [] s = refl
  observe_all-heeded (replaces g ∷ es) s = observe_all-heeded es (replace_core g s)
  observe_all-heeded (reports g r ∷ es) s = elim (Bool-cases (g == s.core_generation)) [
    | inl current ↦ rw current (
        observe_all-heeded es (publish g r s)
        ∙ ap (λ c. observe_all (heeded c es) (publish g r s)) (publish-core_generation g r s))
    | inr stale ↦
        rw (stale, publish_stale g r s (λ e. ground (arith, e, stale))) (observe_all-heeded es s)
  ]

  -- A new store is within its bounds.
  pub new-IsConsistent :
      (g log_capacity line traffic_capacity : ℕ) (s : TelemetryStore ConnectionRecord)
      → new g log_capacity line traffic_capacity ≡ ok s
      → IsConsistent s
  unfolding new
  new-IsConsistent g log_capacity line traffic_capacity s h =
      elim (Bool-cases (traffic_capacity == 0)) [
        | inl refused ↦ cc (rw refused at h)
        | inr some_room ↦ elim (Result-cases (Log.new log_capacity line)) [
          | inr (e, refused) ↦ cc (rw (some_room, refused) at h)
          | inl (logs, made) ↦
              let same = ok-injective (rw (some_room, made) at h) in
              rw (← same) (record {
                logs = new-IsValid log_capacity line logs made;
                positive = ground (arith, some_room);
                traffic = omega arith;
                connections = omega arith;
              })
        ]
      ]
