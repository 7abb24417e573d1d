-- ===== src/Scheduler/Probe/Invariant.antt =====
-- The invariant of the probe scheduler, and the operations that keep it (src/scheduler.rs).
use ratash.Common.{
  ℕ, ◌+◌, ◌≤◌, ◌<◌, ◌≡◌, refl, true, false, ◌&&◌, ◌||◌, none, some, List, ◌∷◌, length, arith,
  same_option, same_option-eq, sym, ◌∙◌, ap,
}
use ratash.Common.Map
use ratash.Common.Map.{
  Map, map_laws, length-insert_new, length-insert-le, length-remove-le, length-remove_present,
  insert-IsSorted, remove-IsSorted,
}
use ratash.Constants.{probe_worker_count}
use ratash.Scheduler.Probe.{
  ProbeScheduler, ProbeCompletion, InFlightProbe, StoredProbeSample, new, launch, schedule,
  record_sample,
}
use ratash.Scheduler.Probe.Queue
use ratash.Scheduler.Probe.Queue.{DueProbe, holds, queue_laws}

-- The queue and the deadlines tell the same story, every active node is either queued or in
-- flight and never both, no other node is, at most the worker count is in flight, and tasks
-- and samples belong to the current generation.
pub record IsValid (s : ProbeScheduler) : Type 0 where
  pub queue_sorted : Queue.IsSorted s.queue
  pub flight_sorted : Map.IsSorted s.in_flight
  pub agree :
      (k d : ℕ)
      → holds (record { due_at_unix_ms = d; node_id = k }) s.queue
        ≡ same_option (Map.get k s.queued_deadlines) (some d)
  pub exclusive :
      (k : ℕ) → (Map.contains k s.queued_deadlines && Map.contains k s.in_flight) ≡ false
  pub covered :
      (k : ℕ)
      → Map.contains k s.active_nodes
        ≡ (Map.contains k s.queued_deadlines || Map.contains k s.in_flight)
  pub counted : length s.queue + length s.in_flight ≡ length s.active_nodes
  pub workers : length s.in_flight ≤ probe_worker_count
  pub flight_current :
      (k : ℕ) (f : InFlightProbe)
      → Map.get k s.in_flight ≡ some f
      → s.generation ≡ some f.generation
  pub sample_current :
      (k : ℕ) (v : StoredProbeSample)
      → Map.get k s.samples ≡ some v
      → (Map.contains k s.active_nodes ≡ true) × (s.generation ≡ some v.generation)
  pub last_current : (g : ℕ) → s.generation ≡ some g → s.last_generation ≡ some g

pub new-IsValid : IsValid new
unfolding Map.get holds
new-IsValid = record {
  queue_sorted = tt;
  flight_sorted = tt;
  agree = λ k d. refl;
  exclusive = λ k. refl;
  covered = λ k. refl;
  counted = omega arith;
  workers = omega arith;
  flight_current = λ k f h. cc;
  sample_current = λ k v h. cc;
  last_current = λ g h. cc;
}

-- The first queued probe has its due time as its deadline, and is not in flight.
module _ (e : DueProbe) (rest : List DueProbe) (s : ProbeScheduler) (v : IsValid s)
    (first : s.queue ≡ e ∷ rest) where
  pub head-Above : Queue.Above e rest
  head-Above = rw first at v.queue_sorted

  pub head_queued : Map.get e.node_id s.queued_deadlines ≡ some e.due_at_unix_ms
  head_queued =
      same_option-eq (Map.get e.node_id s.queued_deadlines) (some e.due_at_unix_ms)
        (sym (v.agree e.node_id e.due_at_unix_ms) ∙ rw first (Queue.holds-head e rest))

  pub head_landed : Map.get e.node_id s.in_flight ≡ none
  head_landed = ground (arith, v.exclusive e.node_id, head_queued)

-- The first queued probe goes to a worker.
pub launch-IsValid :
    (g : ℕ) (e : DueProbe) (rest : List DueProbe) (s : ProbeScheduler)
    → IsValid s
    → s.generation ≡ some g
    → s.queue ≡ e ∷ rest
    → length s.in_flight < probe_worker_count
    → IsValid (launch g e s).1
unfolding launch
launch-IsValid g e rest s v now first room = record {
  queue_sorted = rw shorter (Queue.Above-IsSorted e rest (head-Above e rest s v first));
  flight_sorted = insert-IsSorted e.node_id _ s.in_flight v.flight_sorted;
  agree = λ k d.
      simp (map_laws, queue_laws) (ground (arith, v.agree k d, v.agree e.node_id d, deadline));
  exclusive = λ k. simp map_laws (ground (arith, v.exclusive k));
  covered = λ k. simp map_laws (ground (arith, v.covered k, v.covered e.node_id, deadline));
  counted = omega (arith, v.counted, ap length shorter, ap length first, grown);
  workers = omega (arith, grown, room);
  flight_current = λ k f. simp map_laws (ground (arith, now, v.flight_current k f));
  sample_current = v.sample_current;
  last_current = v.last_current;
}
  where
    shorter : Queue.remove e s.queue ≡ rest
    shorter = rw first (Queue.remove-head e rest (head-Above e rest s v first))

    deadline : Map.get e.node_id s.queued_deadlines ≡ some e.due_at_unix_ms
    deadline = head_queued e rest s v first

    grown :
        length (
          Map.insert e.node_id
            (record { attempt_id = s.next_attempt_id; generation = g })
            s.in_flight)
        ≡ length s.in_flight + 1
    grown = length-insert_new e.node_id _ s.in_flight (head_landed e rest s v first)

-- A task that lands is sampled, and its node is queued again.
pub reschedule-IsValid :
    (due : ℕ) (c : ProbeCompletion) (f : InFlightProbe) (s : ProbeScheduler)
    → IsValid s
    → s.generation ≡ some c.task.generation
    → Map.get c.task.node_id s.in_flight ≡ some f
    → IsValid (schedule c.task.node_id due (record_sample c s))
unfolding schedule record_sample
reschedule-IsValid due c f s v now found = record {
  queue_sorted = Queue.insert-IsSorted _ s.queue v.queue_sorted;
  flight_sorted = remove-IsSorted c.task.node_id s.in_flight v.flight_sorted;
  agree = λ k d.
      simp (map_laws, queue_laws) (ground (arith, v.agree k d, v.agree c.task.node_id d, idle));
  exclusive = λ k. simp map_laws (ground (arith, v.exclusive k));
  covered = λ k. simp map_laws (ground (arith, v.covered k, v.covered c.task.node_id, found));
  counted = omega (
    arith,
    v.counted,
    length-remove_present c.task.node_id f s.in_flight v.flight_sorted found,
    Queue.length-insert_new _ s.queue free,
  );
  workers = omega (arith, v.workers, length-remove-le c.task.node_id s.in_flight);
  flight_current = λ k w. simp map_laws (ground (arith, now, v.flight_current k w));
  sample_current = λ k w.
      simp map_laws (ground (arith, now, v.sample_current k w, v.covered c.task.node_id, found));
  last_current = v.last_current;
}
  where
    idle : Map.get c.task.node_id s.queued_deadlines ≡ none
    idle = ground (arith, v.exclusive c.task.node_id, found)

    free : holds (record { due_at_unix_ms = due; node_id = c.task.node_id }) s.queue ≡ false
    free = ground (arith, v.agree c.task.node_id due, idle)
