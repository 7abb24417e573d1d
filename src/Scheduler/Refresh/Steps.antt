-- ===== src/Scheduler/Refresh/Steps.antt =====
-- The refresh scheduler over whole histories of calls (src/scheduler.rs).
use ratash.Common.{ℕ, ◌+◌, ◌*◌, ◌≤◌, ◌<◌, ◌≡◌, some, List, [], ◌∷◌, length}
use ratash.Common.Map
use ratash.Common.Map.{
  Map, IsSorted, insert-IsSorted, remove-IsSorted, get-insert, get-remove, length-remove-le,
  map_laws,
}
use ratash.Constants.{profile_refresh_concurrency}
use ratash.Scheduler.Refresh.{
  RefreshCompletion, RefreshEntry, InFlightRefresh, ProfileRefreshScheduler, upsert, remove,
  take_due, complete,
}

-- The calls that change the scheduler.
pub data Operation : Type 0 where
  upserts : ℕ → ℕ → ℕ → Operation
  removes : ℕ → Operation
  takes : ℕ → Operation
  completes : RefreshCompletion → Operation

unfoldable pub step : Operation → ProfileRefreshScheduler → ProfileRefreshScheduler
step (upserts id revision next) s = upsert id revision next s
step (removes id) s = (remove id s).1
step (takes now) s = (take_due now s).1
step (completes c) s = (complete c s).1

unfoldable pub run : List Operation → ProfileRefreshScheduler → ProfileRefreshScheduler
run [] s = s
run (o ∷ os) s = run os (step o s)

-- After `n` calls: the maps are in order, at most the limit is in flight, and every identifier
-- in use is older than the next one, which at most two a call have advanced.
pub record IsValid (n : ℕ) (s : ProfileRefreshScheduler) : Type 0 where
  pub entries_sorted : IsSorted s.entries
  pub bounded : length s.in_flight ≤ profile_refresh_concurrency
  pub registrations : s.next_registration_id ≤ 1 + n
  pub attempts : s.next_attempt_id ≤ 1 + 2 * n
  pub entry_registered :
      (k : ℕ) (e : RefreshEntry)
      → Map.get k s.entries ≡ some e
      → e.registration_id < s.next_registration_id
  pub flight_registered :
      (k : ℕ) (f : InFlightRefresh)
      → Map.get k s.in_flight ≡ some f
      → (f.registration_id < s.next_registration_id) × (f.attempt_id < s.next_attempt_id)
