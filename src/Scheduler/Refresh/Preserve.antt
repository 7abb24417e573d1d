-- ===== src/Scheduler/Refresh/Preserve.antt =====
-- Each call of the refresh scheduler keeps `IsValid` (src/scheduler.rs).
use ratash.Common.{
  ℕ, suc, ◌+◌, ◌-◌, ◌^◌, ◌≤◌, ◌<◌, ◌≡◌, refl, none, some, List, [], ◌∷◌, length, take, arith, All,
  All-take, length-take, u64_max, Option, Option-cases, Bool-cases, not, ◌||◌, inl, inr, ◌==◌,
}
use ratash.Common.Map
use ratash.Common.Map.{
  Map, IsSorted, insert-IsSorted, remove-IsSorted, get-insert, get-remove, length-remove-le,
  map_laws,
}
use ratash.Common.Sort.{sort, sort-All}
use ratash.Constants.{profile_refresh_concurrency}
use ratash.Scheduler.Clock.{next_nonzero, next_nonzero-suc}
use ratash.Scheduler.Refresh.{
  RefreshCompletion, RefreshEntry, InFlightRefresh, ProfileRefreshScheduler, DueRefresh, upsert,
  remove, take_due, complete, issue, due_entries, due_before, take_registration_id,
  registration_for, reschedule, settle,
}
use ratash.Scheduler.Refresh.Issue.{IsDue, entries-issue, due_entries-IsDue}
use ratash.Scheduler.Refresh.Taking.{take_due-bound}
use ratash.Scheduler.Refresh.Steps.{IsValid}

pub IsValid-later : (n : ℕ) (s : ProfileRefreshScheduler) → IsValid n s → IsValid (suc n) s
IsValid-later n s v = record {
  entries_sorted = v.entries_sorted;
  bounded = v.bounded;
  registrations = omega (arith, v.registrations);
  attempts = omega (arith, v.attempts);
  entry_registered = v.entry_registered;
  flight_registered = v.flight_registered;
}

pub remove-IsValid :
    (n k : ℕ) (s : ProfileRefreshScheduler) → IsValid n s → IsValid n (remove k s).1
unfolding remove
remove-IsValid n k s v = record {
  entries_sorted = remove-IsSorted k s.entries v.entries_sorted;
  bounded = v.bounded;
  registrations = v.registrations;
  attempts = v.attempts;
  entry_registered = λ j e. simp map_laws (ground (arith, v.entry_registered j e));
  flight_registered = v.flight_registered;
}

land-IsValid :
    (n k : ℕ) (s : ProfileRefreshScheduler)
    → IsValid n s
    → IsValid n (record s { in_flight = Map.remove k s.in_flight })
land-IsValid n k s v = record {
  entries_sorted = v.entries_sorted;
  bounded = omega (arith, v.bounded, length-remove-le k s.in_flight);
  registrations = v.registrations;
  attempts = v.attempts;
  entry_registered = v.entry_registered;
  flight_registered = λ j f. simp map_laws (ground (arith, v.flight_registered j f));
}

enter-IsValid :
    (n k : ℕ) (e : RefreshEntry) (s : ProfileRefreshScheduler)
    → e.registration_id < s.next_registration_id
    → IsValid n s
    → IsValid n (record s { entries = Map.insert k e s.entries })
enter-IsValid n k e s r v = record {
  entries_sorted = insert-IsSorted k e s.entries v.entries_sorted;
  bounded = v.bounded;
  registrations = v.registrations;
  attempts = v.attempts;
  entry_registered = λ j w. simp map_laws (ground (arith, r, v.entry_registered j w));
  flight_registered = v.flight_registered;
}

register-IsValid :
    (n : ℕ) (s : ProfileRefreshScheduler)
    → n < 2 ^ 62
    → IsValid n s
    → IsValid (suc n) (take_registration_id s).1
      × ((take_registration_id s).0 < (take_registration_id s).1.next_registration_id)
unfolding take_registration_id
register-IsValid n s small v =
    let grown = next_nonzero-suc s.next_registration_id (omega (arith, v.registrations)) in
    (
      record {
        entries_sorted = v.entries_sorted;
        bounded = v.bounded;
        registrations = omega (arith, v.registrations, grown);
        attempts = omega (arith, v.attempts);
        entry_registered = λ j e h. omega (arith, v.entry_registered j e h, grown);
        flight_registered =
            λ j f h. let old = v.flight_registered j f h in (omega (arith, old.0, grown), old.1);
      },
      omega (arith, grown),
    )

registration_for-IsValid :
    (n k : ℕ) (s : ProfileRefreshScheduler)
    → n < 2 ^ 62
    → IsValid n s
    → IsValid (suc n) (registration_for k s).1
      × ((registration_for k s).0 < (registration_for k s).1.next_registration_id)
unfolding registration_for
registration_for-IsValid n k s small v = elim (Option-cases (Map.get k s.entries)) [
  | inl new_profile ↦ rw (new_profile, registration_for) (register-IsValid n s small v)
  | inr (e, known) ↦
      rw (known, registration_for) (IsValid-later n s v, v.entry_registered k e known)
]

pub upsert-IsValid :
    (n k revision next : ℕ) (s : ProfileRefreshScheduler)
    → n < 2 ^ 62
    → IsValid n s
    → IsValid (suc n) (upsert k revision next s)
unfolding upsert
upsert-IsValid n k revision next s small v =
    let (valid, registered) = registration_for-IsValid n k s small v in
    enter-IsValid (suc n) k _ _ registered valid

reschedule-IsValid :
    (n : ℕ) (c : RefreshCompletion) (o : Option RefreshEntry) (s : ProfileRefreshScheduler)
    → Map.get c.task.profile_id s.entries ≡ o
    → IsValid n s
    → IsValid n (reschedule c o s).1
unfolding reschedule
reschedule-IsValid n c none s h v = v
reschedule-IsValid n c (some e) s h v =
    elim (Bool-cases (
      not (e.registration_id == c.task.registration_id)
      || not (e.profile_revision == c.task.profile_revision))) [
        | inl stale ↦ rw stale v
        | inr current ↦
            rw current
              (enter-IsValid n c.task.profile_id _ s (v.entry_registered c.task.profile_id e h) v)
      ]

settle-IsValid :
    (n : ℕ) (c : RefreshCompletion) (o : Option InFlightRefresh) (s : ProfileRefreshScheduler)
    → IsValid n s
    → IsValid n (settle c o s).1
unfolding settle
settle-IsValid n c none s v = v
settle-IsValid n c (some f) s v =
    elim (Bool-cases (
      not (f.attempt_id == c.task.attempt_id)
      || not (f.registration_id == c.task.registration_id))) [
        | inl other ↦ rw other v
        | inr matched ↦ rw matched (
            reschedule-IsValid n c (Map.get c.task.profile_id s.entries) _ refl
              (land-IsValid n c.task.profile_id s v))
      ]

pub complete-IsValid :
    (n : ℕ) (c : RefreshCompletion) (s : ProfileRefreshScheduler)
    → IsValid n s
    → IsValid n (complete c s).1
unfolding complete
complete-IsValid n c s v = settle-IsValid n c (Map.get c.task.profile_id s.in_flight) s v

-- Each issued task takes one attempt; the bound on the tasks in flight is that of `take_due`.
abbrev IsFlightRegistered : ProfileRefreshScheduler → Type 0
IsFlightRegistered s =
    (k : ℕ) (f : InFlightRefresh)
    → Map.get k s.in_flight ≡ some f
    → (f.registration_id < s.next_registration_id) × (f.attempt_id < s.next_attempt_id)

-- The state after one entry has been put in flight.
abbrev launched : DueRefresh → ProfileRefreshScheduler → ProfileRefreshScheduler
launched d s = record s {
  in_flight =
      Map.insert d.profile_id
        (record { attempt_id = s.next_attempt_id; registration_id = d.registration_id })
        s.in_flight;
  next_attempt_id = next_nonzero s.next_attempt_id;
}

launched-registered :
    (d : DueRefresh) (s : ProfileRefreshScheduler)
    → s.next_attempt_id < u64_max
    → d.registration_id < s.next_registration_id
    → IsFlightRegistered s
    → IsFlightRegistered (launched d s)
launched-registered d s small known r k f =
    let grown = next_nonzero-suc s.next_attempt_id small in
    simp map_laws (ground (arith, known, r k f, grown))

issue-registered :
    (ds : List DueRefresh) (s : ProfileRefreshScheduler)
    → s.next_attempt_id + length ds < u64_max
    → All (λ d. d.registration_id < s.next_registration_id) ds
    → IsFlightRegistered s
    → IsFlightRegistered (issue ds s).1
      × ((issue ds s).1.next_attempt_id ≤ s.next_attempt_id + length ds)
      × ((issue ds s).1.next_registration_id ≡ s.next_registration_id)
unfolding issue
issue-registered [] s small a r = (r, omega arith, refl)
issue-registered (d ∷ ds) s small a r =
    let grown = next_nonzero-suc s.next_attempt_id (omega arith) in
    let ih =
      issue-registered ds (launched d s) (omega (arith, grown)) a.1
        (launched-registered d s (omega arith) a.0 r) in
    (ih.0, omega (arith, ih.1, grown), ih.2)

-- The selected entries carry registrations of the map.
IsDue-registered :
    (now n : ℕ) (s : ProfileRefreshScheduler) (ds : List DueRefresh)
    → IsValid n s
    → All (IsDue now s.in_flight s.entries) ds
    → All (λ d. d.registration_id < s.next_registration_id) ds
IsDue-registered now n s [] v h = tt
IsDue-registered now n s (d ∷ ds) v ((e, found, same, _, _), h) =
    (ground (arith, same, v.entry_registered d.profile_id e found), IsDue-registered now n s ds v h)

pub take_due-IsValid :
    (n now : ℕ) (s : ProfileRefreshScheduler)
    → n < 2 ^ 62
    → IsValid n s
    → IsValid (suc n) (take_due now s).1
unfolding take_due
take_due-IsValid n now s small v = record {
  entries_sorted = rw (entries-issue chosen s) v.entries_sorted;
  bounded = unfold take_due in take_due-bound now s v.bounded;
  registrations = omega (arith, v.registrations, known.2);
  attempts = omega (arith, v.attempts, known.1, few);
  entry_registered = λ j e. rw (entries-issue chosen s, known.2) (v.entry_registered j e);
  flight_registered = known.0;
}
  where
    sorted : List DueRefresh
    sorted = sort due_before (due_entries now s.in_flight s.entries)

    chosen : List DueRefresh
    chosen = take (profile_refresh_concurrency - length s.in_flight) sorted

    few : length chosen ≤ 2
    few = omega (arith, length-take (profile_refresh_concurrency - length s.in_flight) sorted)

    known :
        IsFlightRegistered (issue chosen s).1
        × ((issue chosen s).1.next_attempt_id ≤ s.next_attempt_id + length chosen)
        × ((issue chosen s).1.next_registration_id ≡ s.next_registration_id)
    known =
        issue-registered chosen s (omega (arith, v.attempts, few))
          (IsDue-registered now n s chosen v (
            All-take (IsDue now s.in_flight s.entries) _ sorted (
              sort-All due_before (IsDue now s.in_flight s.entries) _
                (due_entries-IsDue now s.in_flight s.entries v.entries_sorted))))
          v.flight_registered
