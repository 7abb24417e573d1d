-- ===== src/Scheduler/Refresh/Issue.antt =====
-- Lemmas on the selection and the issue of due entries (src/scheduler.rs, `take_due`).
use ratash.Common.{
  ℕ, ◌+◌, ◌≤◌, ◌<◌, ◌≡◌, ◌≢◌, refl, true, false, none, some, List, [], ◌∷◌, length, arith, All, inl,
  inr, leb, map, ap, ◌∙◌, Bool-cases, not, ◌&&◌,
}
use ratash.Common.Map
use ratash.Common.Map.{
  Map, Above, get-insert_self, get-insert_ne, length-insert-le, IsSorted, Above-IsSorted, Above-le,
}
use ratash.Common.Sort.{Listed, Distinct}
use ratash.Scheduler.Refresh.{
  RefreshTask, RefreshEntry, InFlightRefresh, ProfileRefreshScheduler, DueRefresh, due_before,
  due_entries, issue,
}

-- The test of the sort agrees with the due times.
pub due_before-le : (a b : DueRefresh) → due_before a b ≡ true → a.due_at_unix_ms ≤ b.due_at_unix_ms
unfolding due_before
due_before-le a b h = ground arith

pub due_before-ge :
    (a b : DueRefresh) → due_before a b ≡ false → b.due_at_unix_ms ≤ a.due_at_unix_ms
unfolding due_before
due_before-ge a b h = ground arith

-- The tuple that an entry contributes.
abbrev pub due_of : ℕ → RefreshEntry → DueRefresh
due_of k e = record {
  due_at_unix_ms = e.due_at_unix_ms;
  profile_id = k;
  profile_revision = e.profile_revision;
  registration_id = e.registration_id;
}

module _ (now : ℕ) (flying : Map InFlightRefresh) where
  -- What is selected is due, is not in flight, and is an entry of the map.
  abbrev pub IsDue : Map RefreshEntry → DueRefresh → Type 0
  IsDue entries d =
      (e : RefreshEntry) × (Map.get d.profile_id entries ≡ some e)
      × (d ≡ due_of d.profile_id e)
      × (e.due_at_unix_ms ≤ now)
      × (Map.get d.profile_id flying ≡ none)

  IsDue-later :
      (k : ℕ) (e : RefreshEntry) (m : Map RefreshEntry) (ds : List DueRefresh)
      → All (λ d. k < d.profile_id) ds
      → All (IsDue m) ds
      → All (IsDue ((k, e) ∷ m)) ds
  unfolding Map.get
  IsDue-later k e m [] a b = tt
  IsDue-later k e m (d ∷ ds) a b =
      ((b.0.0, ground (arith, b.0.1, a.0), b.0.2, b.0.3, b.0.4), IsDue-later k e m ds a.1 b.1)

  due_entries-Above :
      (lo : ℕ) (m : Map RefreshEntry)
      → Above lo m
      → All (λ d. lo < d.profile_id) (due_entries now flying m)
  unfolding due_entries
  due_entries-Above lo [] a = tt
  due_entries-Above lo ((k, e) ∷ m) a =
      ground (arith, due_entries-Above lo m (Above-le {lo = lo} {hi = k} m (omega arith) a.1))

  All-distinct :
      (k : ℕ) (ds : List DueRefresh)
      → All (λ d. k < d.profile_id) ds
      → All (λ d. d.profile_id ≢ k) ds
  All-distinct k [] a = tt
  All-distinct k (d ∷ ds) a = (omega arith, All-distinct k ds a.1)

  pub due_entries-IsDue :
      (m : Map RefreshEntry) → IsSorted m → All (IsDue m) (due_entries now flying m)
  unfolding due_entries Map.get
  due_entries-IsDue [] a = tt
  due_entries-IsDue ((k, e) ∷ m) a =
      let rest = due_entries now flying m in
      let later =
        IsDue-later k e m rest (due_entries-Above k m a)
          (due_entries-IsDue m (Above-IsSorted k m a)) in
      elim (Bool-cases (leb e.due_at_unix_ms now && not (Map.contains k flying))) [
        | inl picked ↦ rw picked ((e, ground arith, refl, ground arith, ground arith), later)
        | inr skipped ↦ rw skipped later
      ]

  pub due_entries-Distinct :
      (m : Map RefreshEntry) → IsSorted m → Distinct (λ d. d.profile_id) (due_entries now flying m)
  unfolding due_entries
  due_entries-Distinct [] a = tt
  due_entries-Distinct ((k, e) ∷ m) a =
      let rest = due_entries now flying m in
      ground (
        arith,
        due_entries-Distinct m (Above-IsSorted k m a),
        All-distinct k rest (due_entries-Above k m a),
      )

  -- Every entry that is due and not in flight is selected.
  pub due_entries-Listed :
      (k : ℕ) (e : RefreshEntry) (m : Map RefreshEntry)
      → Map.get k m ≡ some e
      → e.due_at_unix_ms ≤ now
      → Map.get k flying ≡ none
      → Listed (due_of k e) (due_entries now flying m)
  unfolding due_entries Map.get
  due_entries-Listed k e [] h t f = cc
  due_entries-Listed k e ((j, w) ∷ m) h t f = ground (arith, h, t, f, due_entries-Listed k e m)

-- What `issue` leaves alone, and what it adds to the tasks in flight.
pub entries-issue :
    (ds : List DueRefresh) (s : ProfileRefreshScheduler) → (issue ds s).1.entries ≡ s.entries
unfolding issue
entries-issue [] s = refl
entries-issue (d ∷ ds) s = entries-issue ds _

pub length-issue-le :
    (ds : List DueRefresh) (s : ProfileRefreshScheduler)
    → length (issue ds s).1.in_flight ≤ length s.in_flight + length ds
unfolding issue
length-issue-le [] s = omega arith
length-issue-le (d ∷ ds) s = omega (
  arith,
  length-issue-le ds _,
  length-insert-le d.profile_id
      (record { attempt_id = s.next_attempt_id; registration_id = d.registration_id }) s.in_flight,
)

get-issue_ne :
    (k : ℕ) (ds : List DueRefresh) (s : ProfileRefreshScheduler)
    → All (λ d. d.profile_id ≢ k) ds
    → Map.get k (issue ds s).1.in_flight ≡ Map.get k s.in_flight
unfolding issue
get-issue_ne k [] s h = refl
get-issue_ne k (d ∷ ds) s h =
    get-issue_ne k ds _ h.1 ∙ get-insert_ne d.profile_id k _ s.in_flight h.0

-- A task is in flight under the attempt and the registration that it carries.
abbrev pub IsFlying : ProfileRefreshScheduler → RefreshTask → Type 0
IsFlying s t =
    Map.get t.profile_id s.in_flight
    ≡ some (record { attempt_id = t.attempt_id; registration_id = t.registration_id })

pub issue-IsFlying :
    (ds : List DueRefresh) (s : ProfileRefreshScheduler)
    → Distinct (λ d. d.profile_id) ds
    → All (IsFlying (issue ds s).1) (issue ds s).0
unfolding issue
issue-IsFlying [] s h = tt
issue-IsFlying (d ∷ ds) s h = (
  get-issue_ne d.profile_id ds _ h.0 ∙ get-insert_self d.profile_id _ s.in_flight,
  issue-IsFlying ds _ h.1,
)

-- The tasks are the selected entries, in their order.
abbrev pub due_of_task : RefreshTask → DueRefresh
due_of_task t = record {
  due_at_unix_ms = t.due_at_unix_ms;
  profile_id = t.profile_id;
  profile_revision = t.profile_revision;
  registration_id = t.registration_id;
}

pub tasks-issue :
    (ds : List DueRefresh) (s : ProfileRefreshScheduler) → map due_of_task (issue ds s).0 ≡ ds
unfolding issue
tasks-issue [] s = refl
tasks-issue (d ∷ ds) s = ap (◌∷◌ d) (tasks-issue ds _)
