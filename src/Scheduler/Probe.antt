-- ===== src/Scheduler/Probe.antt =====
-- `ProbeScheduler` of src/scheduler.rs. A `NodeRecordId` is the number that the 64 hexadecimal
-- digits of its text spell: the prefix and the length are fixed, so the order of the texts is
-- the order of these numbers. A `BTreeSet` of nodes is a map without values.
pub mod Queue
pub mod View
pub mod Invariant
pub mod Reset
pub mod Taking
pub mod Histories
mod Examples
use ratash.Common.{
  ℕ, zero, suc, ◌+◌, ◌-◌, ◌*◌, ◌/◌, Bool, true, false, not, ◌&&◌, ◌||◌, Option, none, some, List,
  [], ◌∷◌, length, is_some, is_none_or, is_some_and, same_option, ltb, leb, ◌==◌, if◌then◌else◌,
  saturating_add, u64_max, min,
}
use ratash.Common.Map
use ratash.Common.Map.{Map}
use ratash.Common.Result.{Result, ok, err, ◌>>=◌}
use ratash.Constants.{
  probe_worker_count, probe_interval, probe_timeout, latency_freshness, max_active_nodes,
}
use ratash.Scheduler.Clock.{duration_ms, next_nonzero}
use Queue
use Queue.{DueProbe}

pub record InFlightProbe : Type 0 where
  pub attempt_id : ℕ
  pub generation : ℕ

pub data ProbeOutcome : Type 0 where
  success : ℕ → ProbeOutcome
  timed_out unavailable : ProbeOutcome

pub record StoredProbeSample : Type 0 where
  pub outcome : ProbeOutcome
  pub sampled_at_unix_ms : ℕ
  pub generation : ℕ

pub record ProbeTask : Type 0 where
  pub attempt_id : ℕ
  pub generation : ℕ
  pub node_id : ℕ
  pub due_at_unix_ms : ℕ

pub record ProbeCompletion : Type 0 where
  pub task : ProbeTask
  pub outcome : ProbeOutcome
  pub completed_at_unix_ms : ℕ

pub data ProbeCompletionStatus : Type 0 where
  rescheduled : ℕ → ProbeCompletionStatus
  late_generation unknown_task : ProbeCompletionStatus

pub data ProbeStatus : Type 0 where
  not_sampled queued flying available probe_timed_out probe_unavailable : ProbeStatus

-- `SampleState` and `LatencySample` of src/domain.rs.
pub data SampleState : Type 0 where
  fresh stale sample_unavailable : SampleState

pub record LatencySample : Type 0 where
  pub node_id : ℕ
  pub delay_ms : Option ℕ
  pub sampled_at_unix_ms : Option ℕ
  pub state : SampleState
  pub probe_generation : ℕ

pub record ProbeNodeSnapshot : Type 0 where
  pub node_id : ℕ
  pub sample : Option LatencySample
  pub status : ProbeStatus

-- The floating-point `stale_ratio` is `stale_node_count` over `active_node_count`, rounded, and
-- is left out.
pub record ProbeMetrics : Type 0 where
  pub generation : Option ℕ
  pub active_node_count : ℕ
  pub queue_depth : ℕ
  pub in_flight_count : ℕ
  pub overloaded : Bool
  pub oldest_due_age_ms : Option ℕ
  pub estimated_full_pass_duration_ms : ℕ
  pub stale_node_count : ℕ

pub data ProbeResetError : Type 0 where
  non_increasing_generation : ProbeResetError
  node_limit_exceeded : ℕ → ℕ → ProbeResetError

pub record ProbeScheduler : Type 0 where
  pub generation : Option ℕ
  pub last_generation : Option ℕ
  pub active_nodes : Map (Unit {0})
  pub queue : List DueProbe
  pub queued_deadlines : Map ℕ
  pub in_flight : Map InFlightProbe
  pub samples : Map StoredProbeSample
  pub next_attempt_id : ℕ

abbrev pub new : ProbeScheduler
new = record {
  generation = none;
  last_generation = none;
  active_nodes = [];
  queue = [];
  queued_deadlines = [];
  in_flight = [];
  samples = [];
  next_attempt_id = 1;
}

-- The loop of `reset` over the given nodes, which stops at the first node above the limit.
pub collect_nodes : Map (Unit {0}) → List ℕ → Result ProbeResetError (Map (Unit {0}))
collect_nodes active_nodes [] = ok active_nodes
collect_nodes active_nodes (node_id ∷ nodes) =
    let active_nodes' = Map.insert node_id tt active_nodes in
    let rest = collect_nodes active_nodes' nodes in
    if ltb max_active_nodes (length active_nodes')
    then err (node_limit_exceeded max_active_nodes (length active_nodes'))
    else rest

-- The loop of `reset` that queues every active node at once.
pub queue_nodes : ℕ → Map (Unit {0}) → List DueProbe × Map ℕ → List DueProbe × Map ℕ
queue_nodes now_unix_ms [] queues = queues
queue_nodes now_unix_ms ((node_id, _) ∷ nodes) (queue, queued_deadlines) =
    queue_nodes now_unix_ms nodes (
      Queue.insert (record { due_at_unix_ms = now_unix_ms; node_id = node_id }) queue,
      Map.insert node_id now_unix_ms queued_deadlines,
    )

-- The assignments of `reset` once the nodes are accepted.
pub restart : ℕ → ℕ → ProbeScheduler → Map (Unit {0}) → ProbeScheduler
unfolding queue_nodes
restart generation now_unix_ms s active_nodes =
    let (queue, queued_deadlines) = queue_nodes now_unix_ms active_nodes ([], []) in
    record s {
      generation = some generation;
      last_generation = some generation;
      active_nodes = active_nodes;
      queue = queue;
      queued_deadlines = queued_deadlines;
      in_flight = [];
      samples = [];
    }

pub reset : ℕ → List ℕ → ℕ → ProbeScheduler → Result ProbeResetError ProbeScheduler
unfolding restart
reset generation nodes now_unix_ms s =
    if is_some_and s.last_generation (λ current. leb generation current)
    then err non_increasing_generation
    else (do
      active_nodes ← collect_nodes [] nodes
      ok (restart generation now_unix_ms s active_nodes))

pub deactivate : ProbeScheduler → ProbeScheduler
deactivate s = record s {
  generation = none;
  active_nodes = [];
  queue = [];
  queued_deadlines = [];
  in_flight = [];
  samples = [];
}

pub take_attempt_id : ProbeScheduler → ℕ × ProbeScheduler
take_attempt_id s =
    (s.next_attempt_id, record s { next_attempt_id = next_nonzero s.next_attempt_id })

-- The first queued probe, if it is due.
pub first_due : ℕ → List DueProbe → Option DueProbe
first_due now_unix_ms [] = none
first_due now_unix_ms (entry ∷ queue) =
    if leb entry.due_at_unix_ms now_unix_ms then some entry else none

-- One round of the loop of `take_due`: the entry leaves the queue and is in flight.
pub launch : ℕ → DueProbe → ProbeScheduler → ProbeTask × ProbeScheduler
unfolding take_attempt_id
launch generation entry s =
    let (attempt_id, s') = take_attempt_id (record s {
      queue = Queue.remove entry s.queue;
      queued_deadlines = Map.remove entry.node_id s.queued_deadlines;
    }) in
    (
      record {
        attempt_id = attempt_id;
        generation = generation;
        node_id = entry.node_id;
        due_at_unix_ms = entry.due_at_unix_ms;
      },
      record s' {
        in_flight =
            Map.insert entry.node_id (record { attempt_id = attempt_id; generation = generation })
              s'.in_flight;
      },
    )

-- The loop of `take_due`; the first argument is `available - tasks.len()`, which falls by one in
-- every round.
pub take_tasks : ℕ → ℕ → ℕ → ProbeScheduler → List ProbeTask × ProbeScheduler
take_tasks zero generation now_unix_ms s = ([], s)
take_tasks (suc room) generation now_unix_ms s = elim (first_due now_unix_ms s.queue) [
  | none ↦ ([], s)
  | some entry ↦
      let (task, s') = launch generation entry s in
      let (tasks, s'') = take_tasks room generation now_unix_ms s' in (task ∷ tasks, s'')
]

pub take_due : ℕ → ProbeScheduler → List ProbeTask × ProbeScheduler
take_due now_unix_ms s = elim s.generation [
  | none ↦ ([], s)
  | some generation ↦ take_tasks (probe_worker_count - length s.in_flight) generation now_unix_ms s
]

-- The two debug assertions of `schedule`.
pub schedule_asserts : ℕ → ProbeScheduler → Bool
schedule_asserts node_id s =
    not (Map.contains node_id s.queued_deadlines) && not (Map.contains node_id s.in_flight)

pub schedule : ℕ → ℕ → ProbeScheduler → ProbeScheduler
schedule node_id due_at_unix_ms s = record s {
  queue = Queue.insert (record { due_at_unix_ms = due_at_unix_ms; node_id = node_id }) s.queue;
  queued_deadlines = Map.insert node_id due_at_unix_ms s.queued_deadlines;
}

-- The state that `complete` hands to `schedule`: the task has landed and its sample is stored.
pub record_sample : ProbeCompletion → ProbeScheduler → ProbeScheduler
record_sample completion s = record s {
  in_flight = Map.remove completion.task.node_id s.in_flight;
  samples =
      Map.insert completion.task.node_id
        (record {
          outcome = completion.outcome;
          sampled_at_unix_ms = completion.completed_at_unix_ms;
          generation = completion.task.generation;
        })
        s.samples;
}

pub settle :
    ProbeCompletion → Option InFlightProbe → ProbeScheduler → ProbeCompletionStatus × ProbeScheduler
unfolding record_sample schedule
settle completion none s = (unknown_task, s)
settle completion (some in_flight) s =
    if not (in_flight.attempt_id == completion.task.attempt_id)
      || not (in_flight.generation == completion.task.generation)
    then (unknown_task, s)
    else let next_probe_at_unix_ms =
        saturating_add completion.completed_at_unix_ms (duration_ms probe_interval) in
      (
        rescheduled next_probe_at_unix_ms,
        schedule completion.task.node_id next_probe_at_unix_ms (record_sample completion s),
      )

pub complete : ProbeCompletion → ProbeScheduler → ProbeCompletionStatus × ProbeScheduler
unfolding settle
complete completion s =
    if not (same_option s.generation (some completion.task.generation))
    then (late_generation, s)
    else settle completion (Map.get completion.task.node_id s.in_flight) s
