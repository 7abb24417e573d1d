-- ===== src/Scheduler/Refresh/Deadline.antt =====
-- The timer of the refresh scheduler wakes neither too early nor too late: `next_deadline` is
-- the first time at which `take_due` has something to hand out (src/scheduler.rs).
use ratash.Common.{
  ℕ, ◌≤◌, ◌<◌, ◌≡◌, ◌≢◌, refl, Option, none, some, List, [], ◌∷◌, length, arith, inl, inr, map, leb,
  ap, All, ◌↔◌, Option-cases, Bool-cases,
}
use ratash.Common.Map
use ratash.Common.Map.{Map, IsSorted, Above, Above-IsSorted, get-later, get-head}
use ratash.Constants.{profile_refresh_concurrency}
use ratash.Scheduler.Refresh.{
  RefreshEntry, RefreshTask, InFlightRefresh, ProfileRefreshScheduler, earliest, next_deadline,
  least, take_due,
}
use ratash.Scheduler.Refresh.Taking.{IsWarranted, take_due_sound, take_due-urgent}
use ratash.Scheduler.Refresh.Issue.{due_of_task}

-- There is a deadline, and it is no later than the given time.
abbrev pub AtMost : Option ℕ → ℕ → Type 0
AtMost none n = ⊥
AtMost (some d) n = d ≤ n

-- The earliest due time is no later than any entry that is not in flight.
earliest-le :
    (k : ℕ) (e : RefreshEntry) (flying : Map InFlightRefresh) (m : Map RefreshEntry)
    → Map.get k m ≡ some e
    → Map.get k flying ≡ none
    → AtMost (earliest flying m) e.due_at_unix_ms
unfolding earliest Map.get
earliest-le k e flying [] h f = cc
earliest-le k e flying ((j, w) ∷ m) h f = ground (arith, h, f, earliest-le k e flying m)

-- It is the due time of such an entry.
abbrev Attained : Map InFlightRefresh → Map RefreshEntry → Option ℕ → Type 0
Attained flying m none = Unit
Attained flying m (some d) =
    (k : ℕ) × (e : RefreshEntry) × (Map.get k m ≡ some e)
    × (e.due_at_unix_ms ≡ d)
    × (Map.get k flying ≡ none)

Attained-later :
    (flying : Map InFlightRefresh) (j : ℕ) (w : RefreshEntry) (m : Map RefreshEntry) (o : Option ℕ)
    → Above j m
    → Attained flying m o
    → Attained flying ((j, w) ∷ m) o
Attained-later flying j w m none a h = tt
Attained-later flying j w m (some d) a (k, e, found, due, free) =
    (k, e, get-later j k w e m a found, due, free)

Attained-least :
    (flying : Map InFlightRefresh) (j : ℕ) (w : RefreshEntry) (m : Map RefreshEntry) (o : Option ℕ)
    → Map.get j flying ≡ none
    → Attained flying ((j, w) ∷ m) o
    → Attained flying ((j, w) ∷ m) (least o w.due_at_unix_ms)
unfolding least
Attained-least flying j w m none f h = (j, w, get-head j w m, refl, f)
Attained-least flying j w m (some d) f (k, e, found, due, free) =
    elim (Bool-cases (leb d w.due_at_unix_ms)) [
      | inl le ↦ (k, e, found, ground (arith, due, le), free)
      | inr gt ↦ (j, w, get-head j w m, ground (arith, gt), f)
    ]

earliest-Attained :
    (flying : Map InFlightRefresh) (m : Map RefreshEntry)
    → IsSorted m
    → Attained flying m (earliest flying m)
unfolding earliest
earliest-Attained flying [] h = tt
earliest-Attained flying ((j, w) ∷ m) h =
    let rest =
      Attained-later flying j w m (earliest flying m) h
        (earliest-Attained flying m (Above-IsSorted j m h)) in
    elim (Option-cases (Map.get j flying)) [
      | inl free ↦ rw free (Attained-least flying j w m (earliest flying m) free rest)
      | inr (f, busy) ↦ rw busy rest
    ]

AtMost-mono : (o : Option ℕ) (a b : ℕ) → AtMost o a → a ≤ b → AtMost o b
AtMost-mono none a b h le = h
AtMost-mono (some d) a b h le = omega arith

issued_after_deadline :
    (now : ℕ) (s : ProfileRefreshScheduler) (ts : List RefreshTask)
    → ts ≢ []
    → All (IsWarranted now s) ts
    → AtMost (next_deadline s) now
unfolding next_deadline
issued_after_deadline now s [] n h = absurd (n refl)
issued_after_deadline now s (t ∷ ts) n ((e, found, _, due, free), _) =
    AtMost-mono (earliest s.in_flight s.entries) e.due_at_unix_ms now
      (earliest-le t.profile_id e s.in_flight s.entries found free) due

deadline_issues :
    (now : ℕ) (s : ProfileRefreshScheduler) (o : Option ℕ)
    → length s.in_flight < profile_refresh_concurrency
    → Attained s.in_flight s.entries o
    → AtMost o now
    → (take_due now s).0 ≢ []
deadline_issues now s none room h late empty = absurd late
deadline_issues now s (some d) room (k, e, found, due, free) late empty =
    elim (take_due-urgent now k e s found (omega arith) free) [
      | inl issued ↦ rw (ap (map due_of_task) empty) at issued
      | inr (full, _) ↦ absurd (omega (arith, full, ap length empty))
    ]

-- With the entries in order and a free place, a call of `take_due` hands out some task exactly
-- when there is a deadline and it has passed.
pub take_due-next_deadline :
    (now : ℕ) (s : ProfileRefreshScheduler)
    → IsSorted s.entries
    → length s.in_flight < profile_refresh_concurrency
    → ((take_due now s).0 ≢ []) ↔ AtMost (next_deadline s) now
unfolding next_deadline
take_due-next_deadline now s h room = (
  λ n. issued_after_deadline now s (take_due now s).0 n (take_due_sound now s h).0,
  deadline_issues now s (earliest s.in_flight s.entries) room
      (earliest-Attained s.in_flight s.entries h),
)
