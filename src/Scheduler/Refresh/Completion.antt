-- ===== src/Scheduler/Refresh/Completion.antt =====
-- What `complete` of the refresh scheduler does on each of its branches (src/scheduler.rs).
use ratash.Common.{ℕ, ◌+◌, ◌≡◌, ◌≢◌, none, some, arith, u64_max, min}
use ratash.Common.Map
use ratash.Common.Map.{get-remove, map_laws}
use ratash.Constants.{profile_refresh_interval}
use ratash.Scheduler.Refresh.{
  RefreshCompletion, RefreshEntry, ProfileRefreshScheduler, rescheduled, unknown_task, complete,
}

-- Whatever the state, a second report of the same completion is refused as unknown.
pub complete_twice :
    (c : RefreshCompletion) (s : ProfileRefreshScheduler)
    → (complete c (complete c s).1).0 ≡ unknown_task
unfolding complete
complete_twice c s = ground (arith, get-remove c.task.profile_id c.task.profile_id s.in_flight)

-- A completion that is refused as unknown changes nothing.
pub complete-unknown :
    (c : RefreshCompletion) (s : ProfileRefreshScheduler)
    → (complete c s).0 ≡ unknown_task
    → (complete c s).1 ≡ s
unfolding complete
complete-unknown c s h = ground arith

-- The other Profiles keep their entries and their tasks in flight.
pub complete-others :
    (k : ℕ) (c : RefreshCompletion) (s : ProfileRefreshScheduler)
    → k ≢ c.task.profile_id
    → (Map.get k (complete c s).1.entries ≡ Map.get k s.entries)
      × (Map.get k (complete c s).1.in_flight ≡ Map.get k s.in_flight)
unfolding complete
complete-others k c s h = grind (arith, map_laws)

-- A task in flight whose entry has kept its registration and its revision is rescheduled one
-- refresh interval after the completion, or at the end of time where that does not fit: the
-- entry takes the new revision and that due time and keeps its registration, and the Profile is
-- no longer in flight.
pub complete-renewed :
    (c : RefreshCompletion) (e : RefreshEntry) (s : ProfileRefreshScheduler)
    → Map.get c.task.profile_id s.in_flight
      ≡ some (record { attempt_id = c.task.attempt_id; registration_id = c.task.registration_id })
    → Map.get c.task.profile_id s.entries ≡ some e
    → e.registration_id ≡ c.task.registration_id
    → e.profile_revision ≡ c.task.profile_revision
    → let next = min (c.completed_at_unix_ms + profile_refresh_interval) u64_max in
      ((complete c s).0 ≡ rescheduled next)
      × (Map.get c.task.profile_id (complete c s).1.entries
          ≡ some (record {
            profile_revision = c.profile_revision;
            due_at_unix_ms = next;
            registration_id = e.registration_id;
          }))
      × (Map.get c.task.profile_id (complete c s).1.in_flight ≡ none)
unfolding complete
complete-renewed c e s f g r v = grind (arith, map_laws)
