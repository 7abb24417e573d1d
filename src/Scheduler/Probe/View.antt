-- ===== src/Scheduler/Probe/View.antt =====
-- What `ProbeScheduler` shows of a node and of itself (src/scheduler.rs).
use ratash.Common.{
  ℕ, ◌+◌, ◌-◌, ◌*◌, ◌/◌, Bool, true, false, not, ◌&&◌, ◌||◌, Option, none, some, List, [], ◌∷◌,
  length, is_none_or, is_some_and, ltb, leb, if◌then◌else◌, u64_max, min,
}
use ratash.Common.Map
use ratash.Common.Map.{Map}
use ratash.Constants.{probe_worker_count, probe_timeout, latency_freshness}
use ratash.Scheduler.Clock.{duration_ms}
use ratash.Scheduler.Probe.{
  ProbeScheduler, ProbeOutcome, success, timed_out, unavailable, StoredProbeSample, ProbeStatus,
  not_sampled, queued, flying, available, probe_timed_out, probe_unavailable, SampleState, fresh,
  stale, sample_unavailable, LatencySample, ProbeNodeSnapshot, ProbeMetrics,
}
use ratash.Scheduler.Probe.Queue.{DueProbe}

pub sample_state : StoredProbeSample → ℕ → SampleState
sample_state sample now_unix_ms = elim sample.outcome [
  | success _ ↦
      if leb (now_unix_ms - sample.sampled_at_unix_ms) (duration_ms latency_freshness)
      then fresh
      else stale
  | timed_out ↦ sample_unavailable
  | unavailable ↦ sample_unavailable
]

delay_of : ProbeOutcome → Option ℕ
delay_of (success delay_ms) = some delay_ms
delay_of timed_out = none
delay_of unavailable = none

pub sample : ℕ → ℕ → ProbeScheduler → Option LatencySample
unfolding delay_of
sample node_id now_unix_ms s = elim (Map.get node_id s.samples) [
  | none ↦ none
  | some stored ↦ some (record {
    node_id = node_id;
    delay_ms = delay_of stored.outcome;
    sampled_at_unix_ms = some stored.sampled_at_unix_ms;
    state = sample_state stored now_unix_ms;
    probe_generation = stored.generation;
  })
]

status_of_outcome : ProbeOutcome → ProbeStatus
status_of_outcome (success _) = available
status_of_outcome timed_out = probe_timed_out
status_of_outcome unavailable = probe_unavailable

unfoldable pub probe_status : ℕ → ProbeScheduler → ProbeStatus
unfolding status_of_outcome
probe_status node_id s =
    if Map.contains node_id s.in_flight then flying else elim (Map.get node_id s.samples) [
      | some stored ↦ status_of_outcome stored.outcome
      | none ↦ if Map.contains node_id s.queued_deadlines then queued else not_sampled
    ]

pub node_snapshot : ℕ → ℕ → ProbeScheduler → Option ProbeNodeSnapshot
node_snapshot node_id now_unix_ms s =
    if Map.contains node_id s.active_nodes
    then some (record {
      node_id = node_id;
      sample = sample node_id now_unix_ms s;
      status = probe_status node_id s;
    })
    else none

pub batches : ℕ → ℕ → ℕ
batches item_count worker_count = (item_count + worker_count - 1) / worker_count

oldest_age : ℕ → List DueProbe → Option ℕ
oldest_age now_unix_ms [] = none
oldest_age now_unix_ms (entry ∷ queue) = some (now_unix_ms - entry.due_at_unix_ms)

is_fresh : SampleState → Bool
is_fresh fresh = true
is_fresh stale = false
is_fresh sample_unavailable = false

-- A node without a sample is stale too.
stale_count : ℕ → Map StoredProbeSample → Map (Unit {0}) → ℕ
unfolding is_fresh
stale_count now_unix_ms samples [] = 0
stale_count now_unix_ms samples ((node_id, _) ∷ nodes) =
    let rest = stale_count now_unix_ms samples nodes in
    if is_none_or (Map.get node_id samples)
      (λ stored. not (is_fresh (sample_state stored now_unix_ms)))
    then rest + 1
    else rest

unfoldable pub metrics : ℕ → ProbeScheduler → ProbeMetrics
unfolding batches oldest_age stale_count
metrics now_unix_ms s =
    let active_node_count = length s.active_nodes in
    let oldest_due_age_ms = oldest_age now_unix_ms s.queue in
    let estimated =
      min (batches active_node_count probe_worker_count * duration_ms probe_timeout) u64_max in
    let freshness_ms = duration_ms latency_freshness in
    record {
      generation = s.generation;
      active_node_count = active_node_count;
      queue_depth = length s.queue;
      in_flight_count = length s.in_flight;
      overloaded =
          ltb 0 active_node_count
          && (ltb freshness_ms estimated
              || is_some_and oldest_due_age_ms (λ age. ltb freshness_ms age));
      oldest_due_age_ms = oldest_due_age_ms;
      estimated_full_pass_duration_ms = estimated;
      stale_node_count = stale_count now_unix_ms s.samples s.active_nodes;
    }
