-- ===== src/Scheduler/Refresh/Taking.antt =====
-- What `take_due` of the refresh scheduler hands out (src/scheduler.rs).
use ratash.Common.{
  ℕ, suc, ◌-◌, ◌≤◌, ◌≡◌, ◌⊎◌, inl, inr, refl, none, some, List, [], ◌∷◌, length, take, length-take,
  arith, All, All-take, map, ap, ◌∙◌,
}
use ratash.Common.Map
use ratash.Common.Map.{Map, IsSorted}
use ratash.Common.Sort.{
  Listed, sort, sort-All, sort-Listed, sort-Ascends, sort-Distinct, take-Distinct, Listed-take,
}
use ratash.Constants.{profile_refresh_concurrency}
use ratash.Scheduler.Refresh.{
  RefreshTask, RefreshEntry, ProfileRefreshScheduler, DueRefresh, due_before, due_entries, issue,
  take_due,
}
use ratash.Scheduler.Refresh.Issue.{
  IsDue, IsFlying, due_of, due_of_task, due_before-le, due_before-ge, due_entries-IsDue,
  due_entries-Distinct, due_entries-Listed, entries-issue, length-issue-le, issue-IsFlying,
  tasks-issue,
}

-- The entries that a call of `take_due` selects, in the order of the tasks.
abbrev selected : ℕ → ProfileRefreshScheduler → List DueRefresh
selected now s =
    take (profile_refresh_concurrency - length s.in_flight)
      (sort due_before (due_entries now s.in_flight s.entries))

-- The tasks inherit what holds of the selected entries.
All-map {ℓ κ η} :
    {A : Type ℓ} {B : Type κ} (P : B → Type η) (f : A → B) (xs : List A) (ys : List B)
    → map f xs ≡ ys
    → All P ys
    → All (λ x. P (f x)) xs
All-map P f [] ys e h = tt
All-map P f (x ∷ xs) [] e h = cc
All-map P f (x ∷ xs) (y ∷ ys) e h =
    let same : f x ≡ y = cc in (rw same h.0, All-map P f xs ys (cc) h.1)

-- A task stands for an entry that was due and was not in flight, with its revision and its
-- registration.
abbrev pub IsWarranted : ℕ → ProfileRefreshScheduler → RefreshTask → Type 0
IsWarranted now s t = IsDue now s.in_flight s.entries (due_of_task t)

-- With the entries in order, every task of `take_due` stands for an entry that was due by then
-- and not in flight, and is in flight afterwards under its own attempt and registration; the
-- entries do not change.
pub take_due_sound :
    (now : ℕ) (s : ProfileRefreshScheduler)
    → IsSorted s.entries
    → All (IsWarranted now s) (take_due now s).0
      × All (IsFlying (take_due now s).1) (take_due now s).0
      × ((take_due now s).1.entries ≡ s.entries)
unfolding take_due
take_due_sound now s h = (
  All-map (IsDue now s.in_flight s.entries) due_of_task (issue (selected now s) s).0
      (selected now s) (tasks-issue (selected now s) s)
      (All-take (IsDue now s.in_flight s.entries) (profile_refresh_concurrency - length s.in_flight)
        (sort due_before (due_entries now s.in_flight s.entries))
        (sort-All due_before (IsDue now s.in_flight s.entries) _
          (due_entries-IsDue now s.in_flight s.entries h))),
  issue-IsFlying (selected now s) s (
      take-Distinct (λ (d : DueRefresh). d.profile_id) _ _
        (sort-Distinct due_before (λ d. d.profile_id) _
          (due_entries-Distinct now s.in_flight s.entries h))),
  entries-issue (selected now s) s,
)

length-map {ℓ κ} :
    {A : Type ℓ} {B : Type κ} (f : A → B) (xs : List A) (ys : List B)
    → map f xs ≡ ys
    → length xs ≡ length ys
length-map f [] [] e = refl
length-map f [] (y ∷ ys) e = cc
length-map f (x ∷ xs) [] e = cc
length-map f (x ∷ xs) (y ∷ ys) e = ap suc (length-map f xs ys (cc))

-- An entry that is due and not in flight is among the tasks, or the tasks fill the whole
-- concurrency limit and none of them was due later than the entry.
pub take_due-urgent :
    (now k : ℕ) (e : RefreshEntry) (s : ProfileRefreshScheduler)
    → Map.get k s.entries ≡ some e
    → e.due_at_unix_ms ≤ now
    → Map.get k s.in_flight ≡ none
    → Listed (due_of k e) (map due_of_task (take_due now s).0)
      ⊎ ((length (take_due now s).0 ≡ profile_refresh_concurrency - length s.in_flight)
          × All (λ t. t.due_at_unix_ms ≤ e.due_at_unix_ms) (take_due now s).0)
unfolding take_due
take_due-urgent now k e s h t f =
    let due = due_entries now s.in_flight s.entries in
    let tasks = tasks-issue (selected now s) s in
    elim (Listed-take (λ (d : DueRefresh). d.due_at_unix_ms)
      (profile_refresh_concurrency - length s.in_flight) (due_of k e) (sort due_before due)
      (sort-Ascends due_before (λ d. d.due_at_unix_ms) due_before-le due_before-ge due)
      (sort-Listed due_before (due_of k e) due
        (due_entries-Listed now s.in_flight k e s.entries h t f))) [
          | inl taken ↦ inl (rw tasks taken)
          | inr (full, earlier) ↦ inr (
            length-map due_of_task _ _ tasks ∙ full,
            All-map (λ d. d.due_at_unix_ms ≤ e.due_at_unix_ms) due_of_task _ _ tasks earlier,
          )
        ]

-- No call of `take_due` takes the work in flight past the concurrency limit.
pub take_due-bound :
    (now : ℕ) (s : ProfileRefreshScheduler)
    → length s.in_flight ≤ profile_refresh_concurrency
    → length (take_due now s).1.in_flight ≤ profile_refresh_concurrency
unfolding take_due
take_due-bound now s h = omega (
  arith,
  length-issue-le (selected now s) s,
  length-take (profile_refresh_concurrency - length s.in_flight)
      (sort due_before (due_entries now s.in_flight s.entries)),
)
