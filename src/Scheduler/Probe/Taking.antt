-- ===== src/Scheduler/Probe/Taking.antt =====
-- What `take_due` of the probe scheduler hands to the workers (src/scheduler.rs).
use ratash.Common.{
  ℕ, zero, suc, ◌+◌, ◌-◌, ◌≤◌, ◌≡◌, refl, ◌⊎◌, inl, inr, none, some, List, [], ◌∷◌, length, arith,
  leb, All, All_imp, Bool-cases, same_option_refl, ap, ◌∙◌,
}
use ratash.Common.Map
use ratash.Common.Map.{Map, map_laws, get-insert, get-remove, length-insert_new}
use ratash.Constants.{probe_worker_count}
use ratash.Scheduler.Probe.{
  ProbeScheduler, ProbeTask, InFlightProbe, first_due, launch, take_tasks, take_due,
}
use ratash.Scheduler.Probe.Queue
use ratash.Scheduler.Probe.Queue.{DueProbe, holds}
use ratash.Scheduler.Probe.Invariant.{IsValid, launch-IsValid, head-Above, head_queued, head_landed}

-- The task stands for a node that was queued and due.
abbrev pub WasQueued : ℕ → ℕ → ProbeScheduler → ProbeTask → Type 0
WasQueued g now s t =
    (Map.get t.node_id s.queued_deadlines ≡ some t.due_at_unix_ms)
    × (t.due_at_unix_ms ≤ now)
    × (t.generation ≡ g)

abbrev pub IsFlying : ProbeScheduler → ProbeTask → Type 0
IsFlying s t =
    Map.get t.node_id s.in_flight
    ≡ some (record { attempt_id = t.attempt_id; generation = t.generation })

-- What a run of the loop with room for `room` tasks did from `s`.
pub record Takes (room g now : ℕ) (s : ProbeScheduler) (ts : List ProbeTask) (s' : ProbeScheduler)
    : Type 0 where
  pub valid : IsValid s'
  pub generation : s'.generation ≡ some g
  pub queued : All (WasQueued g now s) ts
  pub flying : All (IsFlying s') ts
  pub grown : length s'.in_flight ≡ length s.in_flight + length ts
  pub exhausted : (length ts ≡ room) ⊎ (first_due now s'.queue ≡ none)
  pub kept :
      (k : ℕ) (f : InFlightProbe) → Map.get k s.in_flight ≡ some f → Map.get k s'.in_flight ≡ some f
  pub remaining :
      (k d : ℕ)
      → Map.get k s'.queued_deadlines ≡ some d
      → (Map.get k s.queued_deadlines ≡ some d) × All (λ t. t.due_at_unix_ms ≤ d) ts

Takes-none :
    (room g now : ℕ) (s : ProbeScheduler)
    → IsValid s
    → s.generation ≡ some g
    → (◌≡◌ {A = ℕ} 0 room) ⊎ (first_due now s.queue ≡ none)
    → Takes room g now s [] s
Takes-none room g now s v e stop = record {
  valid = v;
  generation = e;
  queued = tt;
  flying = tt;
  grown = omega arith;
  exhausted = stop;
  kept = λ k f h. h;
  remaining = λ k d h. (h, tt);
}

-- One round in front of a run.
module _ (room g now : ℕ) (e : DueProbe) (rest : List DueProbe) (s : ProbeScheduler) (v : IsValid s)
    (first : s.queue ≡ e ∷ rest) (due : e.due_at_unix_ms ≤ now) where
  in_order : (k d : ℕ) → Map.get k s.queued_deadlines ≡ some d → e.due_at_unix_ms ≤ d
  in_order k d h =
      Queue.head_least e (record { due_at_unix_ms = d; node_id = k }) rest
        (head-Above e rest s v first)
        (rw (← first) (v.agree k d ∙ rw h (same_option_refl (some d))))

  Takes-more :
      (ts : List ProbeTask) (s' : ProbeScheduler)
      → Takes room g now (launch g e s).1 ts s'
      → Takes (suc room) g now s ((launch g e s).0 ∷ ts) s'
  unfolding launch
  Takes-more ts s' r = record {
    valid = r.valid;
    generation = r.generation;
    queued = (
      (head_queued e rest s v first, due, refl),
      All_imp (WasQueued g now (launch g e s).1) (WasQueued g now s) ts
          (λ t (before, due', current). (
            ground (arith, before, get-remove e.node_id t.node_id s.queued_deadlines),
            due',
            current,
          ))
          r.queued,
    );
    flying = (r.kept e.node_id _ (Map.get-insert_self e.node_id _ s.in_flight), r.flying);
    grown = omega (
      arith,
      r.grown,
      length-insert_new e.node_id (record { attempt_id = s.next_attempt_id; generation = g })
          s.in_flight (head_landed e rest s v first),
    );
    exhausted = elim r.exhausted [ inl full ↦ inl (ap suc full) | inr idle ↦ inr idle ];
    kept = λ k f h. r.kept k f (
        ground (
          arith,
          h,
          head_landed e rest s v first,
          get-insert e.node_id k (record { attempt_id = s.next_attempt_id; generation = g })
              s.in_flight,
        ));
    remaining = λ k d h.
        let (before, later) = r.remaining k d h in
        let was : Map.get k s.queued_deadlines ≡ some d =
          ground (arith, before, get-remove e.node_id k s.queued_deadlines) in
        (was, (in_order k d was, later));
  }

current_launch :
    (g : ℕ) (e : DueProbe) (s : ProbeScheduler)
    → s.generation ≡ some g
    → (launch g e s).1.generation ≡ some g
unfolding launch
current_launch g e s h = h

fits_launch :
    (room g : ℕ) (e : DueProbe) (rest : List DueProbe) (s : ProbeScheduler)
    → IsValid s
    → s.queue ≡ e ∷ rest
    → length s.in_flight + suc room ≤ probe_worker_count
    → length (launch g e s).1.in_flight + room ≤ probe_worker_count
unfolding launch
fits_launch room g e rest s v first fits = omega (
  arith,
  length-insert_new e.node_id (record { attempt_id = s.next_attempt_id; generation = g })
      s.in_flight (head_landed e rest s v first),
)

first_due_cases :
    (now : ℕ) (q : List DueProbe)
    → (first_due now q ≡ none)
      ⊎ ((e : DueProbe) × (rest : List DueProbe) × (q ≡ e ∷ rest)
          × (e.due_at_unix_ms ≤ now)
          × (first_due now q ≡ some e))
unfolding first_due
first_due_cases now [] = inl refl
first_due_cases now (e ∷ rest) = elim (Bool-cases (leb e.due_at_unix_ms now)) [
  | inl due ↦ inr (e, rest, refl, ground (arith, due), rw due)
  | inr later ↦ inl (rw later)
]

take_tasks-Takes :
    (room g now : ℕ) (s : ProbeScheduler)
    → IsValid s
    → s.generation ≡ some g
    → length s.in_flight + room ≤ probe_worker_count
    → Takes room g now s (take_tasks room g now s).0 (take_tasks room g now s).1
unfolding take_tasks
take_tasks-Takes zero g now s v current fits = Takes-none zero g now s v current (inl refl)
take_tasks-Takes (suc room) g now s v current fits = elim (first_due_cases now s.queue) [
  | inl idle ↦ rw (idle, take_tasks) (Takes-none (suc room) g now s v current (inr idle))
  | inr (e, rest, first, due, chosen) ↦
      rw (chosen, take_tasks)
        (Takes-more room g now e rest s v first due _ _ (
          take_tasks-Takes room g now (launch g e s).1
            (launch-IsValid g e rest s v current first (omega arith)) (current_launch g e s current)
            (fits_launch room g e rest s v first fits)))
]

take_due_current :
    (g now : ℕ) (s : ProbeScheduler)
    → s.generation ≡ some g
    → take_due now s ≡ take_tasks (probe_worker_count - length s.in_flight) g now s
unfolding take_due
take_due_current g now s current = ground arith

pub take_due_idle : (now : ℕ) (s : ProbeScheduler) → s.generation ≡ none → take_due now s ≡ ([], s)
unfolding take_due
take_due_idle now s idle = ground arith

-- In a valid state of generation `g`, `take_due` leaves a valid state of that generation in
-- which every task is in flight under its attempt, beside all that was in flight before. Each
-- task stands for a node that was queued and due by then, and was due no later than any node
-- that is still queued. Either the tasks fill every free worker, or no node that is due is left.
pub take_due-Takes :
    (g now : ℕ) (s : ProbeScheduler)
    → IsValid s
    → s.generation ≡ some g
    → Takes (probe_worker_count - length s.in_flight) g now s (take_due now s).0 (take_due now s).1
take_due-Takes g now s v current = rw (take_due_current g now s current) (
    take_tasks-Takes (probe_worker_count - length s.in_flight) g now s v current
      (omega (arith, v.workers)))
