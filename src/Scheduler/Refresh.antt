-- ===== src/Scheduler/Refresh.antt =====
-- `ProfileRefreshScheduler` of src/scheduler.rs. A `ProfileId` is its 128-bit UUID read as a
-- big-endian number: the order of UUIDs is the order of these numbers.
mod Issue
pub mod Taking
pub mod Completion
pub mod Deadline
pub mod Steps
mod Preserve
pub mod Histories
mod Examples
use ratash.Common.{
  ℕ, ◌-◌, Bool, not, ◌&&◌, ◌||◌, Option, none, some, List, [], ◌∷◌, length, take, is_some, ltb, leb,
  ◌==◌, if◌then◌else◌, saturating_add, min,
}
use ratash.Common.Map
use ratash.Common.Map.{Map}
use ratash.Common.Sort.{sort}
use ratash.Constants.{profile_refresh_interval, profile_refresh_concurrency}
use ratash.Scheduler.Clock.{duration_ms, next_nonzero}

pub record RefreshTask : Type 0 where
  pub attempt_id : ℕ
  pub profile_id : ℕ
  pub profile_revision : ℕ
  pub due_at_unix_ms : ℕ
  pub registration_id : ℕ

pub record RefreshCompletion : Type 0 where
  pub task : RefreshTask
  pub profile_revision : ℕ
  pub completed_at_unix_ms : ℕ

pub data RefreshCompletionStatus : Type 0 where
  rescheduled : ℕ → RefreshCompletionStatus
  stale_revision profile_removed unknown_task : RefreshCompletionStatus

pub record RefreshEntry : Type 0 where
  pub profile_revision : ℕ
  pub due_at_unix_ms : ℕ
  pub registration_id : ℕ

pub record InFlightRefresh : Type 0 where
  pub attempt_id : ℕ
  pub registration_id : ℕ

pub record ProfileRefreshScheduler : Type 0 where
  pub entries : Map RefreshEntry
  pub in_flight : Map InFlightRefresh
  pub next_attempt_id : ℕ
  pub next_registration_id : ℕ

abbrev pub new : ProfileRefreshScheduler
new = record { entries = []; in_flight = []; next_attempt_id = 1; next_registration_id = 1 }

pub take_attempt_id : ProfileRefreshScheduler → ℕ × ProfileRefreshScheduler
take_attempt_id s =
    (s.next_attempt_id, record s { next_attempt_id = next_nonzero s.next_attempt_id })

pub take_registration_id : ProfileRefreshScheduler → ℕ × ProfileRefreshScheduler
take_registration_id s = (
  s.next_registration_id,
  record s { next_registration_id = next_nonzero s.next_registration_id },
)

-- The registration of a known Profile is kept; a new Profile gets a fresh one.
pub registration_for : ℕ → ProfileRefreshScheduler → ℕ × ProfileRefreshScheduler
unfolding take_registration_id
registration_for profile_id s = elim (Map.get profile_id s.entries) [
  | some entry ↦ (entry.registration_id, s)
  | none ↦ take_registration_id s
]

pub upsert : ℕ → ℕ → ℕ → ProfileRefreshScheduler → ProfileRefreshScheduler
unfolding registration_for
upsert profile_id profile_revision next_refresh_at_unix_ms s =
    let (registration_id, s') = registration_for profile_id s in
    record s' {
      entries =
          Map.insert profile_id
            (record {
              profile_revision = profile_revision;
              due_at_unix_ms = next_refresh_at_unix_ms;
              registration_id = registration_id;
            })
            s'.entries;
    }

pub remove : ℕ → ProfileRefreshScheduler → Bool × ProfileRefreshScheduler
remove profile_id s =
    (is_some (Map.get profile_id s.entries), record s { entries = Map.remove profile_id s.entries })

pub scheduled_profile_count : ProfileRefreshScheduler → ℕ
scheduled_profile_count s = length s.entries

pub in_flight_count : ProfileRefreshScheduler → ℕ
in_flight_count s = length s.in_flight

pub least : Option ℕ → ℕ → Option ℕ
least none a = some a
least (some b) a = some (min b a)

-- The earliest due time among the entries that are not in flight.
pub earliest : Map InFlightRefresh → Map RefreshEntry → Option ℕ
unfolding least
earliest in_flight [] = none
earliest in_flight ((profile_id, entry) ∷ entries) =
    let rest = earliest in_flight entries in
    if not (Map.contains profile_id in_flight) then least rest entry.due_at_unix_ms else rest

pub next_deadline : ProfileRefreshScheduler → Option ℕ
unfolding earliest
next_deadline s = earliest s.in_flight s.entries

-- The tuples that `take_due` sorts, in the order of their components.
pub record DueRefresh : Type 0 where
  pub due_at_unix_ms : ℕ
  pub profile_id : ℕ
  pub profile_revision : ℕ
  pub registration_id : ℕ

pub due_before : DueRefresh → DueRefresh → Bool
due_before a b =
    ltb a.due_at_unix_ms b.due_at_unix_ms
    || a.due_at_unix_ms == b.due_at_unix_ms
      && (ltb a.profile_id b.profile_id
          || a.profile_id == b.profile_id
            && (ltb a.profile_revision b.profile_revision
                || a.profile_revision == b.profile_revision
                  && leb a.registration_id b.registration_id))

pub due_entries : ℕ → Map InFlightRefresh → Map RefreshEntry → List DueRefresh
due_entries now_unix_ms in_flight [] = []
due_entries now_unix_ms in_flight ((profile_id, entry) ∷ entries) =
    let rest = due_entries now_unix_ms in_flight entries in
    if leb entry.due_at_unix_ms now_unix_ms && not (Map.contains profile_id in_flight)
    then record {
      due_at_unix_ms = entry.due_at_unix_ms;
      profile_id = profile_id;
      profile_revision = entry.profile_revision;
      registration_id = entry.registration_id;
    }
      ∷ rest
    else rest

-- The loop that puts each selected entry in flight under a new attempt.
pub issue : List DueRefresh → ProfileRefreshScheduler → List RefreshTask × ProfileRefreshScheduler
unfolding take_attempt_id
issue [] s = ([], s)
issue (due ∷ rest) s =
    let (attempt_id, s') = take_attempt_id s in
    let flying =
      Map.insert due.profile_id
        (record { attempt_id = attempt_id; registration_id = due.registration_id }) s'.in_flight in
    let (tasks, s'') = issue rest (record s' { in_flight = flying }) in
    (
      record {
        attempt_id = attempt_id;
        profile_id = due.profile_id;
        profile_revision = due.profile_revision;
        due_at_unix_ms = due.due_at_unix_ms;
        registration_id = due.registration_id;
      }
          ∷ tasks,
      s'',
    )

pub take_due : ℕ → ProfileRefreshScheduler → List RefreshTask × ProfileRefreshScheduler
unfolding issue due_entries due_before
take_due now_unix_ms s =
    let available = profile_refresh_concurrency - length s.in_flight in
    issue (take available (sort due_before (due_entries now_unix_ms s.in_flight s.entries))) s

-- The rest of `complete`, once the task is known to be in flight and has been taken off.
pub reschedule :
    RefreshCompletion
    → Option RefreshEntry
    → ProfileRefreshScheduler
    → RefreshCompletionStatus × ProfileRefreshScheduler
reschedule completion none s = (profile_removed, s)
reschedule completion (some entry) s =
    if not (entry.registration_id == completion.task.registration_id)
      || not (entry.profile_revision == completion.task.profile_revision)
    then (stale_revision, s)
    else let next_refresh_at_unix_ms =
        saturating_add completion.completed_at_unix_ms (duration_ms profile_refresh_interval) in
      (
        rescheduled next_refresh_at_unix_ms,
        record s {
          entries =
              Map.insert completion.task.profile_id
                (record entry {
                  profile_revision = completion.profile_revision;
                  due_at_unix_ms = next_refresh_at_unix_ms;
                })
                s.entries;
        },
      )

pub settle :
    RefreshCompletion
    → Option InFlightRefresh
    → ProfileRefreshScheduler
    → RefreshCompletionStatus × ProfileRefreshScheduler
unfolding reschedule
settle completion none s = (unknown_task, s)
settle completion (some in_flight) s =
    if not (in_flight.attempt_id == completion.task.attempt_id)
      || not (in_flight.registration_id == completion.task.registration_id)
    then (unknown_task, s)
    else reschedule completion (Map.get completion.task.profile_id s.entries)
        (record s { in_flight = Map.remove completion.task.profile_id s.in_flight })

pub complete :
    RefreshCompletion → ProfileRefreshScheduler → RefreshCompletionStatus × ProfileRefreshScheduler
unfolding settle
complete completion s = settle completion (Map.get completion.task.profile_id s.in_flight) s
