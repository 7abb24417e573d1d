-- ===== src/Scheduler/Refresh/Examples.antt =====
-- Runs of the refresh scheduler, and the theorems at concrete inputs.
use ratash.Common.{◌≤◌, ◌≡◌, refl, some, List, [], ◌∷◌, length, arith, All, map, ◌⊎◌, ◌↔◌, ◌≢◌}
use ratash.Common.Map
use ratash.Common.Sort.{sort, Listed}
use ratash.Scheduler.Clock.{next_nonzero}
use ratash.Scheduler.Refresh.{
  ProfileRefreshScheduler, RefreshTask, RefreshEntry, RefreshCompletion, stale_revision, new,
  upsert, remove, take_due, complete, next_deadline, take_registration_id,
}
use ratash.Scheduler.Refresh.Issue.{due_of, due_of_task}
use ratash.Scheduler.Refresh.Taking.{take_due-urgent}
use ratash.Scheduler.Refresh.Deadline.{AtMost, take_due-next_deadline}
use ratash.Scheduler.Refresh.Steps.{Operation, upserts, removes, takes, completes, run, IsValid}
use ratash.Scheduler.Refresh.Histories.{run-new-IsValid, complete-upsert-remove}

-- Three Profiles, the second of which is due first.
abbrev filled : ProfileRefreshScheduler
filled = record {
  entries =
      (1, record { profile_revision = 1; due_at_unix_ms = 50; registration_id = 1 })
      ∷ (2, record { profile_revision = 4; due_at_unix_ms = 20; registration_id = 2 })
      ∷ (3, record { profile_revision = 1; due_at_unix_ms = 70; registration_id = 3 })
      ∷ [];
  in_flight = [];
  next_attempt_id = 1;
  next_registration_id = 4;
}

filled-upsert : upsert 1 1 50 (upsert 3 1 70 new) ≡ record {
  entries =
      (1, record { profile_revision = 1; due_at_unix_ms = 50; registration_id = 2 })
      ∷ (3, record { profile_revision = 1; due_at_unix_ms = 70; registration_id = 1 })
      ∷ [];
  in_flight = [];
  next_attempt_id = 1;
  next_registration_id = 3;
}
unfolding upsert take_registration_id Map.get Map.insert next_nonzero
filled-upsert = refl

filled_order : map (λ (t : RefreshTask). t.profile_id) (take_due 100 filled).0 ≡ 2 ∷ 1 ∷ []
unfolding take_due sort Map.get Map.insert next_nonzero
filled_order = refl

abbrev first_task : RefreshTask
first_task = record {
  attempt_id = 1;
  profile_id = 2;
  profile_revision = 4;
  due_at_unix_ms = 20;
  registration_id = 2;
}

abbrev finished : RefreshCompletion
finished = record { task = first_task; profile_revision = 5; completed_at_unix_ms = 130 }

-- The state once the first task is out.
abbrev flying : ProfileRefreshScheduler
flying = record filled {
  in_flight = (2, record { attempt_id = 1; registration_id = 2 }) ∷ [];
  next_attempt_id = 2;
}

abbrev last_entry : RefreshEntry
last_entry = record { profile_revision = 1; due_at_unix_ms = 70; registration_id = 3 }

take_due-urgent_example :
    Listed (due_of 3 last_entry) (map due_of_task (take_due 100 filled).0)
    ⊎ ((length (take_due 100 filled).0 ≡ 2)
        × All (λ t. t.due_at_unix_ms ≤ 70) (take_due 100 filled).0)
unfolding Map.get
take_due-urgent_example = take_due-urgent 100 3 last_entry filled refl (omega arith) refl

take_due-next_deadline_example : ((take_due 19 filled).0 ≢ []) ↔ AtMost (next_deadline filled) 19
take_due-next_deadline_example = take_due-next_deadline 19 filled (omega arith) (omega arith)

abbrev script : List Operation
script = upserts 2 4 20 ∷ upserts 1 1 50 ∷ takes 30 ∷ completes finished ∷ removes 1 ∷ []

run-new-IsValid_example : IsValid 5 (run script new)
run-new-IsValid_example = run-new-IsValid script (omega arith)

flying-IsValid : IsValid 4 flying
unfolding Map.get
flying-IsValid = record {
  entries_sorted = omega arith;
  bounded = omega arith;
  registrations = omega arith;
  attempts = omega arith;
  entry_registered = λ k e h. ground arith;
  flight_registered = λ k f h. ground arith;
}

complete-upsert-remove_example :
    let replaced = upsert 2 1 500 (remove 2 flying).1 in
    ((complete finished replaced).0 ≡ stale_revision)
    × (Map.get 2 (complete finished replaced).1.entries
        ≡ some (record { profile_revision = 1; due_at_unix_ms = 500; registration_id = 4 }))
unfolding Map.get
complete-upsert-remove_example = complete-upsert-remove 4 1 500 finished flying flying-IsValid refl
