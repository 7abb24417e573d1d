-- ===== src/Scheduler/Probe/Examples.antt =====
-- Runs of the probe scheduler, and the theorems at concrete inputs.
use ratash.Common.{
  ℕ, ◌≤◌, ◌<◌, ◌≡◌, ◌≢◌, refl, true, some, none, List, [], ◌∷◌, length, occurs, if◌then◌else◌,
}
use ratash.Common.Map
use ratash.Common.Result.{ok}
use ratash.Constants.{max_active_nodes, probe_worker_count}
use ratash.Scheduler.Clock.{next_nonzero}
use ratash.Scheduler.Probe.{
  ProbeScheduler, ProbeCompletion, success, rescheduled, late_generation, not_sampled, new, reset,
  collect_nodes, restart, take_due, take_tasks, first_due, launch, complete, record_sample,
  schedule_asserts,
}
use ratash.Scheduler.Probe.Queue
use ratash.Scheduler.Probe.View.{probe_status}
use ratash.Scheduler.Probe.Invariant.{IsValid, new-IsValid}
use ratash.Scheduler.Probe.Reset.{reset_lem, complete-reset}
use ratash.Scheduler.Probe.Taking.{Takes, take_due-Takes}
use ratash.Scheduler.Probe.Histories.{
  Operation, resets, deactivates, takes, completes, run, run-IsValid, complete-rescheduled,
  probe_status-active,
}

-- Nodes 4 and 9 queued at time 10 in generation 1.
abbrev started : ProbeScheduler
started = record new {
  generation = some 1;
  last_generation = some 1;
  active_nodes = (4, tt) ∷ (9, tt) ∷ [];
  queue =
      record { due_at_unix_ms = 10; node_id = 4 }
      ∷ record { due_at_unix_ms = 10; node_id = 9 }
      ∷ [];
  queued_deadlines = (4, 10) ∷ (9, 10) ∷ [];
}

started-reset : reset 1 (9 ∷ 4 ∷ 9 ∷ []) 10 new ≡ ok started
unfolding reset collect_nodes restart Map.insert Queue.insert
started-reset = refl

started-IsValid : IsValid started
started-IsValid = (reset_lem 1 10 (9 ∷ 4 ∷ 9 ∷ []) new started started-reset).1

reset_lem_example :
    ((last : ℕ) → new.last_generation ≡ some last → last < 1)
    × IsValid started
    × (started.generation ≡ some 1)
    × (started.in_flight ≡ [])
    × (length started.active_nodes ≤ max_active_nodes)
    × ((k : ℕ) → Map.contains k started.active_nodes ≡ occurs k (9 ∷ 4 ∷ 9 ∷ []))
    × ((k : ℕ)
        → Map.get k started.queued_deadlines
          ≡ (if occurs k (9 ∷ 4 ∷ 9 ∷ []) then some 10 else none))
reset_lem_example = reset_lem 1 10 (9 ∷ 4 ∷ 9 ∷ []) new started started-reset

-- Both probes out.
abbrev probing : ProbeScheduler
probing = record started {
  queue = [];
  queued_deadlines = [];
  in_flight =
      (4, record { attempt_id = 1; generation = 1 })
      ∷ (9, record { attempt_id = 2; generation = 1 })
      ∷ [];
  next_attempt_id = 3;
}

probing-take_due : (take_due 12 started).1 ≡ probing
unfolding take_due take_tasks first_due launch Map.insert Map.remove Queue.remove next_nonzero
probing-take_due = refl

take_due-Takes_example :
    Takes probe_worker_count 1 12 started (take_due 12 started).0 (take_due 12 started).1
take_due-Takes_example = take_due-Takes 1 12 started started-IsValid refl

probing-IsValid : IsValid probing
probing-IsValid = rw probing-take_due at (take_due-Takes 1 12 started started-IsValid refl).valid

abbrev answer : ProbeCompletion
answer = record {
  task = record { attempt_id = 2; generation = 1; node_id = 9; due_at_unix_ms = 10 };
  outcome = success 35;
  completed_at_unix_ms = 50;
}

complete-rescheduled_example :
    (schedule_asserts 9 (record_sample answer probing) ≡ true)
    × ((complete answer probing).0 ≡ rescheduled 300050)
    × (Map.get 9 (complete answer probing).1.queued_deadlines ≡ some 300050)
    × (Map.get 9 (complete answer probing).1.in_flight ≡ none)
    × (Map.get 9 (complete answer probing).1.samples
        ≡ some (record { outcome = success 35; sampled_at_unix_ms = 50; generation = 1 }))
unfolding Map.get
complete-rescheduled_example = complete-rescheduled answer probing probing-IsValid refl refl

-- A second generation over node 4 alone.
abbrev restarted : ProbeScheduler
restarted = record probing {
  generation = some 2;
  last_generation = some 2;
  active_nodes = (4, tt) ∷ [];
  queue = record { due_at_unix_ms = 60; node_id = 4 } ∷ [];
  queued_deadlines = (4, 60) ∷ [];
  in_flight = [];
}

restarted-reset : reset 2 (4 ∷ []) 60 probing ≡ ok restarted
unfolding reset collect_nodes restart Map.insert Queue.insert
restarted-reset = refl

complete-reset_example : complete answer restarted ≡ (late_generation, restarted)
unfolding Map.get
complete-reset_example =
    complete-reset 2 60 (4 ∷ []) answer probing restarted probing-IsValid refl restarted-reset

abbrev script : List Operation
script = resets 1 (9 ∷ 4 ∷ []) 10 ∷ takes 12 ∷ completes answer ∷ resets 1 [] 70 ∷ deactivates ∷ []

run-IsValid_example : IsValid (run script new)
run-IsValid_example = run-IsValid script new new-IsValid

probe_status-active_example : probe_status 4 started ≢ not_sampled
unfolding Map.get
probe_status-active_example = probe_status-active 4 started started-IsValid refl
