-- ===== src/Scheduler/Probe/Reset.antt =====
-- What `reset` of the probe scheduler makes of the given nodes (src/scheduler.rs).
use ratash.Common.{
  ℕ, ◌+◌, ◌≤◌, ◌<◌, ◌≡◌, refl, false, ◌&&◌, ◌||◌, none, some, List, [], ◌∷◌, length, ap, arith,
  same_option, is_some_and, leb, ltb, if◌then◌else◌, occurs, Bool-cases, inl, inr,
}
use ratash.Common.Map
use ratash.Common.Map.{
  Map, map_laws, get-nil, get-insert, Above-IsSorted, get_below, insert-IsSorted,
}
use ratash.Common.Result.{ok, Result-cases}
use ratash.Constants.{max_active_nodes}
use ratash.Scheduler.Probe.{
  ProbeScheduler, ProbeCompletion, InFlightProbe, StoredProbeSample, late_generation, collect_nodes,
  queue_nodes, restart, reset, complete,
}
use ratash.Scheduler.Probe.Queue
use ratash.Scheduler.Probe.Queue.{DueProbe, holds, queue_laws}
use ratash.Scheduler.Probe.Invariant.{IsValid}

-- The accepted nodes are the given ones, in order and at most the limit.
pub collect_nodes_lem :
    (nodes : List ℕ) (before after : Map (Unit {0}))
    → Map.IsSorted before
    → length before ≤ max_active_nodes
    → collect_nodes before nodes ≡ ok after
    → Map.IsSorted after
      × (length after ≤ max_active_nodes)
      × ((k : ℕ) → Map.contains k after ≡ (occurs k nodes || Map.contains k before))
unfolding collect_nodes
collect_nodes_lem [] before after o few h =
    let same : before ≡ after = cc in
    (rw same at o, omega (arith, few, ap length same), λ k. rw same)
collect_nodes_lem (n ∷ nodes) before after o few h =
    let grown = Map.insert n tt before in
    elim (Bool-cases (ltb max_active_nodes (length grown))) [
      | inl over ↦ cc (rw over at h)
      | inr fits ↦
          let (sorted, bounded, members) =
            collect_nodes_lem nodes grown after (insert-IsSorted n tt before o)
              (ground (arith, fits)) (rw fits at h) in
          (sorted, bounded, λ k. ground (arith, members k, get-insert n k tt before))
    ]

-- What the queue of `reset` holds after its loop.
abbrev Queues : Type 0
Queues = List DueProbe × Map ℕ

record Agrees (q : Queues) : Type 0 where
  pub sorted : Queue.IsSorted q.0
  pub agree :
      (k d : ℕ)
      → holds (record { due_at_unix_ms = d; node_id = k }) q.0
        ≡ same_option (Map.get k q.1) (some d)

queue_nodes_lem :
    (now : ℕ) (nodes : Map (Unit {0})) (q : Queues)
    → Map.IsSorted nodes
    → ((k : ℕ) → (Map.contains k nodes && Map.contains k q.1) ≡ false)
    → Agrees q
    → Agrees (queue_nodes now nodes q)
      × (length (queue_nodes now nodes q).0 ≡ length nodes + length q.0)
      × ((k : ℕ)
          → Map.get k (queue_nodes now nodes q).1
            ≡ (if Map.contains k nodes then some now else Map.get k q.1))
unfolding queue_nodes Map.get
queue_nodes_lem now [] q o apart a = (a, omega arith, λ k. refl)
queue_nodes_lem now ((n, u) ∷ nodes) (q, m) o apart a =
    let entry : DueProbe = record { due_at_unix_ms = now; node_id = n } in
    let fresh : Map.get n m ≡ none = ground (arith, apart n) in
    let later = get_below n n nodes o (omega arith) in
    let (a', count, found) =
      queue_nodes_lem now nodes (Queue.insert entry q, Map.insert n now m)
        (Above-IsSorted n nodes o) (λ k. ground (arith, apart k, get-insert n k now m, later))
        (record {
          sorted = Queue.insert-IsSorted entry q a.sorted;
          agree =
              λ k d. simp (map_laws, queue_laws) (ground (arith, a.agree k d, a.agree n d, fresh));
        }) in
    (
      a',
      omega (arith, count, Queue.length-insert_new entry q (ground (arith, a.agree n now, fresh))),
      λ k. ground (arith, found k, get-insert n k now m),
    )

-- The state that `reset` leaves: the accepted nodes are all queued at once and due now, and
-- nothing is in flight or sampled.
pub restart-IsValid :
    (g now : ℕ) (s : ProbeScheduler) (nodes : Map (Unit {0}))
    → Map.IsSorted nodes
    → IsValid (restart g now s nodes)
      × ((k : ℕ)
          → Map.get k (restart g now s nodes).queued_deadlines
            ≡ (if Map.contains k nodes then some now else none))
unfolding restart
restart-IsValid g now s nodes o =
    let (a, count, found) =
      queue_nodes_lem now nodes ([], []) o (λ k. ground (arith, get-nil {0} {V = ℕ} k))
        (record { sorted = tt; agree = λ k d. simp (queue_laws, map_laws) }) in
    (
      record {
        queue_sorted = a.sorted;
        flight_sorted = tt;
        agree = a.agree;
        exclusive = λ k. simp map_laws (ground arith);
        covered = λ k. simp map_laws (ground (arith, found k, get-nil {0} {V = ℕ} k));
        counted = omega (arith, count);
        workers = omega arith;
        flight_current = λ k f h. cc (get-nil {0} {V = InFlightProbe} k);
        sample_current = λ k v h. cc (get-nil {0} {V = StoredProbeSample} k);
        last_current = λ g' h. h;
      },
      λ k. ground (arith, found k, get-nil {0} {V = ℕ} k),
    )

-- A reset that is accepted has a generation above the last one, and leaves a valid state of that
-- generation with nothing in flight, in which exactly the given nodes are active, at most the
-- limit of them, and each is queued and due at once.
pub reset_lem :
    (g now : ℕ) (nodes : List ℕ) (s s' : ProbeScheduler)
    → reset g nodes now s ≡ ok s'
    → ((last : ℕ) → s.last_generation ≡ some last → last < g)
      × IsValid s'
      × (s'.generation ≡ some g)
      × (s'.in_flight ≡ [])
      × (length s'.active_nodes ≤ max_active_nodes)
      × ((k : ℕ) → Map.contains k s'.active_nodes ≡ occurs k nodes)
      × ((k : ℕ) → Map.get k s'.queued_deadlines ≡ (if occurs k nodes then some now else none))
unfolding reset restart
reset_lem g now nodes s s' h =
    elim (Bool-cases (is_some_and s.last_generation (λ current. leb g current))) [
      | inl old ↦ cc (rw old at h)
      | inr newer ↦ elim (Result-cases (collect_nodes [] nodes)) [
        | inr (e, refused) ↦ cc (rw (newer, refused) at h)
        | inl (active, accepted) ↦
            let same : restart g now s active ≡ s' = cc (rw (newer, accepted) at h) in
            let (sorted, few, members) =
              collect_nodes_lem nodes [] active tt (omega arith) accepted in
            let (valid, found) = restart-IsValid g now s active sorted in
            (
              λ last e. ground (arith, e, newer),
              rw same at valid,
              rw (← same),
              rw (← same),
              rw (← same) few,
              λ k. rw (← same) (ground (arith, members k, get-nil {0} {V = Unit {0}} k)),
              λ k. rw (← same) (ground (arith, found k, members k, get-nil {0} {V = Unit {0}} k)),
            )
      ]
    ]

-- After an accepted reset every task that was in flight before it is late: its completion
-- changes nothing.
pub complete-reset :
    (g now : ℕ) (nodes : List ℕ) (c : ProbeCompletion) (s s' : ProbeScheduler)
    → IsValid s
    → Map.get c.task.node_id s.in_flight
      ≡ some (record { attempt_id = c.task.attempt_id; generation = c.task.generation })
    → reset g nodes now s ≡ ok s'
    → complete c s' ≡ (late_generation, s')
unfolding complete
complete-reset g now nodes c s s' v flying h =
    let (newer, _, current, _, _, _, _) = reset_lem g now nodes s s' h in
    let was = v.flight_current c.task.node_id _ flying in
    ground (arith, current, newer c.task.generation (v.last_current _ was))
