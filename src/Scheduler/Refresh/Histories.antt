-- ===== src/Scheduler/Refresh/Histories.antt =====
-- The refresh scheduler after any history of calls (src/scheduler.rs).
use ratash.Common.{ℕ, suc, ◌+◌, ◌^◌, ◌<◌, ◌≡◌, some, List, [], ◌∷◌, length, arith}
use ratash.Common.Map
use ratash.Common.Map.{
  Map, IsSorted, insert-IsSorted, remove-IsSorted, get-insert_self, get-remove_self,
  length-remove-le, map_laws,
}
use ratash.Scheduler.Refresh.{
  RefreshCompletion, ProfileRefreshScheduler, stale_revision, new, upsert, remove, complete,
  take_registration_id,
}
use ratash.Scheduler.Refresh.Steps.{
  Operation, upserts, removes, takes, completes, step, run, IsValid,
}
use ratash.Scheduler.Refresh.Preserve.{
  IsValid-later, remove-IsValid, upsert-IsValid, complete-IsValid, take_due-IsValid,
}

new-IsValid : IsValid 0 new
unfolding Map.get
new-IsValid = record {
  entries_sorted = tt;
  bounded = omega arith;
  registrations = omega arith;
  attempts = omega arith;
  entry_registered = λ k e h. cc;
  flight_registered = λ k f h. cc;
}

step-IsValid :
    (n : ℕ) (o : Operation) (s : ProfileRefreshScheduler)
    → n < 2 ^ 62
    → IsValid n s
    → IsValid (suc n) (step o s)
unfolding step
step-IsValid n (upserts id revision next) s small v = upsert-IsValid n id revision next s small v
step-IsValid n (removes id) s small v = IsValid-later n _ (remove-IsValid n id s v)
step-IsValid n (takes now) s small v = take_due-IsValid n now s small v
step-IsValid n (completes c) s small v = IsValid-later n _ (complete-IsValid n c s v)

run_new-IsValid_from :
    (n : ℕ) (os : List Operation) (s : ProfileRefreshScheduler)
    → n + length os < 2 ^ 62
    → IsValid n s
    → IsValid (n + length os) (run os s)
unfolding run
run_new-IsValid_from n [] s small v = let same : n + 0 ≡ n = omega arith in rw same v
run_new-IsValid_from n (o ∷ os) s small v =
    let same : n + suc (length os) ≡ suc n + length os = omega arith in
    rw same (
      run_new-IsValid_from (suc n) os (step o s) (omega arith) (step-IsValid n o s (omega arith) v))

-- After any history of fewer than 2 ^ 62 calls from the new scheduler, the entries are in
-- ascending order, at most the concurrency limit is in flight, and every registration and
-- attempt in use is older than the next one to be given out.
pub run-new-IsValid : (os : List Operation) → length os < 2 ^ 62 → IsValid (length os) (run os new)
run-new-IsValid os small =
    let same : 0 + length os ≡ length os = omega arith in
    rw same at (run_new-IsValid_from 0 os new (omega arith) new-IsValid)

-- A Profile is removed and subscribed again while its download is in flight: the completion of
-- the old download is refused as stale, and the new entry stays as it was made. This holds
-- after any history in which identifiers have not wrapped.
pub complete-upsert-remove :
    (n revision next : ℕ) (c : RefreshCompletion) (s : ProfileRefreshScheduler)
    → IsValid n s
    → Map.get c.task.profile_id s.in_flight
      ≡ some (record { attempt_id = c.task.attempt_id; registration_id = c.task.registration_id })
    → let replaced = upsert c.task.profile_id revision next (remove c.task.profile_id s).1 in
      ((complete c replaced).0 ≡ stale_revision)
      × (Map.get c.task.profile_id (complete c replaced).1.entries
          ≡ some (record {
            profile_revision = revision;
            due_at_unix_ms = next;
            registration_id = s.next_registration_id;
          }))
unfolding complete upsert remove take_registration_id
complete-upsert-remove n revision next c s v h = ground (
  arith,
  v.flight_registered c.task.profile_id _ h,
  h,
  get-remove_self c.task.profile_id s.entries,
  get-insert_self c.task.profile_id
      (record {
        profile_revision = revision;
        due_at_unix_ms = next;
        registration_id = s.next_registration_id;
      })
      (Map.remove c.task.profile_id s.entries),
)
