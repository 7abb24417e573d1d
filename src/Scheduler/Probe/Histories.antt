-- ===== src/Scheduler/Probe/Histories.antt =====
-- The probe scheduler over whole histories of calls (src/scheduler.rs).
use ratash.Common.{
  ℕ, ◌+◌, ◌≤◌, ◌≡◌, ◌≢◌, refl, true, not, ◌||◌, Option, none, some, List, [], ◌∷◌, arith, inl, inr,
  same_option, same_option-eq, ◌==◌, Bool-cases, Option-cases, min, u64_max,
}
use ratash.Common.Map
use ratash.Common.Map.{Map, map_laws, get-remove_self, get-insert_self}
use ratash.Common.Result.{Result, ok, err, Result-cases}
use ratash.Constants.{probe_worker_count, probe_interval}
use ratash.Scheduler.Probe.{
  ProbeScheduler, ProbeCompletion, InFlightProbe, rescheduled, not_sampled, reset, deactivate,
  take_due, complete, settle, record_sample, schedule_asserts,
}
use ratash.Scheduler.Probe.View.{probe_status, metrics}
use ratash.Scheduler.Probe.Invariant.{IsValid, new-IsValid, reschedule-IsValid}
use ratash.Scheduler.Probe.Reset.{reset_lem}
use ratash.Scheduler.Probe.Taking.{take_due_idle, take_due-Takes}

-- The calls that change the scheduler. A refused reset leaves it as it was.
pub data Operation : Type 0 where
  resets : ℕ → List ℕ → ℕ → Operation
  deactivates : Operation
  takes : ℕ → Operation
  completes : ProbeCompletion → Operation

abbrev or_unchanged {ℓ} : {E S : Type ℓ} → S → Result E S → S
or_unchanged s (ok s') = s'
or_unchanged s (err e) = s

pub step : Operation → ProbeScheduler → ProbeScheduler
step (resets g nodes now) s = or_unchanged s (reset g nodes now s)
step deactivates s = deactivate s
step (takes now) s = (take_due now s).1
step (completes c) s = (complete c s).1

pub run : List Operation → ProbeScheduler → ProbeScheduler
run [] s = s
run (o ∷ os) s = run os (step o s)

reset-IsValid :
    (g : ℕ) (nodes : List ℕ) (now : ℕ) (s : ProbeScheduler)
    → IsValid s
    → IsValid (or_unchanged s (reset g nodes now s))
reset-IsValid g nodes now s v = elim (Result-cases (reset g nodes now s)) [
  | inl (s', accepted) ↦ rw accepted (reset_lem g now nodes s s' accepted).1
  | inr (e, refused) ↦ rw refused v
]

deactivate-IsValid : (s : ProbeScheduler) → IsValid s → IsValid (deactivate s)
unfolding deactivate Map.get
deactivate-IsValid s v = record {
  queue_sorted = tt;
  flight_sorted = tt;
  agree = new-IsValid.agree;
  exclusive = new-IsValid.exclusive;
  covered = new-IsValid.covered;
  counted = omega arith;
  workers = omega arith;
  flight_current = λ k f h. cc;
  sample_current = λ k w h. cc;
  last_current = λ g h. cc;
}

take_due-IsValid : (now : ℕ) (s : ProbeScheduler) → IsValid s → IsValid (take_due now s).1
take_due-IsValid now s v = elim (Option-cases s.generation) [
  | inl idle ↦ rw (take_due_idle now s idle) v
  | inr (g, current) ↦ (take_due-Takes g now s v current).valid
]

-- The node of a task that lands: neither debug assertion of `schedule` fails.
asserts_hold :
    (c : ProbeCompletion) (f : InFlightProbe) (s : ProbeScheduler)
    → IsValid s
    → Map.get c.task.node_id s.in_flight ≡ some f
    → schedule_asserts c.task.node_id (record_sample c s) ≡ true
unfolding schedule_asserts record_sample
asserts_hold c f s v found =
    ground (arith, v.exclusive c.task.node_id, found, get-remove_self c.task.node_id s.in_flight)

settle-IsValid :
    (c : ProbeCompletion) (o : Option InFlightProbe) (s : ProbeScheduler)
    → IsValid s
    → s.generation ≡ some c.task.generation
    → Map.get c.task.node_id s.in_flight ≡ o
    → IsValid (settle c o s).1
unfolding settle
settle-IsValid c none s v current e = v
settle-IsValid c (some f) s v current e =
    elim (Bool-cases
      (not (f.attempt_id == c.task.attempt_id) || not (f.generation == c.task.generation))) [
        | inl other ↦ rw other v
        | inr matched ↦ rw matched (reschedule-IsValid _ c f s v current e)
      ]

complete-IsValid : (c : ProbeCompletion) (s : ProbeScheduler) → IsValid s → IsValid (complete c s).1
unfolding complete
complete-IsValid c s v =
    elim (Bool-cases (not (same_option s.generation (some c.task.generation)))) [
      | inl late ↦ rw late v
      | inr current ↦ rw current (
          settle-IsValid c (Map.get c.task.node_id s.in_flight) s v
            (same_option-eq s.generation (some c.task.generation) (ground (arith, current))) refl)
    ]

step-IsValid : (o : Operation) (s : ProbeScheduler) → IsValid s → IsValid (step o s)
unfolding step
step-IsValid (resets g nodes now) s v = reset-IsValid g nodes now s v
step-IsValid deactivates s v = deactivate-IsValid s v
step-IsValid (takes now) s v = take_due-IsValid now s v
step-IsValid (completes c) s v = complete-IsValid c s v

-- From a valid state, and so from the new scheduler, every history of calls leads to a valid
-- state: queue, deadlines and tasks in flight agree, they cover the active nodes without overlap,
-- the counts add up, and at most the worker count is in flight.
pub run-IsValid : (os : List Operation) (s : ProbeScheduler) → IsValid s → IsValid (run os s)
unfolding run
run-IsValid [] s v = v
run-IsValid (o ∷ os) s v = run-IsValid os (step o s) (step-IsValid o s v)

-- In a valid state, a completion whose attempt is in flight in the current generation passes the
-- two debug assertions of `schedule`. It is rescheduled one probe interval after its completion,
-- or at the end of time where that does not fit: the node is queued for then, is no longer in
-- flight, and has the reported outcome as its sample.
pub complete-rescheduled :
    (c : ProbeCompletion) (s : ProbeScheduler)
    → IsValid s
    → s.generation ≡ some c.task.generation
    → Map.get c.task.node_id s.in_flight
      ≡ some (record { attempt_id = c.task.attempt_id; generation = c.task.generation })
    → let next = min (c.completed_at_unix_ms + probe_interval) u64_max in
      (schedule_asserts c.task.node_id (record_sample c s) ≡ true)
      × ((complete c s).0 ≡ rescheduled next)
      × (Map.get c.task.node_id (complete c s).1.queued_deadlines ≡ some next)
      × (Map.get c.task.node_id (complete c s).1.in_flight ≡ none)
      × (Map.get c.task.node_id (complete c s).1.samples
          ≡ some (record {
            outcome = c.outcome;
            sampled_at_unix_ms = c.completed_at_unix_ms;
            generation = c.task.generation;
          }))
unfolding complete
complete-rescheduled c s v current found = (
  asserts_hold c _ s v found,
  ground (arith, current, found),
  grind (arith, map_laws, current, found),
  grind (arith, map_laws, current, found),
  grind (arith, map_laws, current, found),
)

-- In a valid state an active node is never shown as not sampled: it is in flight, has a sample,
-- or is queued.
pub probe_status-active :
    (k : ℕ) (s : ProbeScheduler)
    → IsValid s
    → Map.contains k s.active_nodes ≡ true
    → probe_status k s ≢ not_sampled
unfolding probe_status
probe_status-active k s v active e = ground (arith, v.covered k, active, e)

-- In a valid state the published queue depth and work in flight add up to the active nodes, and
-- the work in flight stays within the worker count.
pub metrics_counted :
    (now : ℕ) (s : ProbeScheduler)
    → IsValid s
    → ((metrics now s).queue_depth + (metrics now s).in_flight_count
        ≡ (metrics now s).active_node_count)
      × ((metrics now s).in_flight_count ≤ probe_worker_count)
unfolding metrics
metrics_counted now s v = (v.counted, v.workers)
