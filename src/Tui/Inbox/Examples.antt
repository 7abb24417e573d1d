-- ===== src/Tui/Inbox/Examples.antt =====
-- An inbox on which the theorems on src/tui/event_inbox.rs are run. The events carry a number.
use ratash.Common.{ℕ, ◌≡◌, true, none, List, [], ◌∷◌, arith}
use ratash.Tui.Inbox
use ratash.Tui.Inbox.Rounds.{IsValid, Call, pushed, drained, play, play-IsValid}
use ratash.Tui.Inbox.Shutdown.{push_all, drain_round-shutdown}

abbrev small : Inbox.EventBudgets
small = record { terminal = 1; command_result = 1; deadline = 1; telemetry = 2 }

abbrev waiting : Inbox.FairEventInbox ℕ
waiting = record {
  capacity_per_source = 2;
  budgets = small;
  pending_shutdown = none;
  terminal_events = Inbox.terminal 1 ∷ Inbox.terminal 2 ∷ [];
  command_results = Inbox.command_result 3 ∷ [];
  deadlines = [];
  telemetry_events = Inbox.status_snapshot 4 ∷ Inbox.log_batch 5 ∷ [];
  dropped_counts = 0 ∷ 0 ∷ 0 ∷ 0 ∷ [];
}

abbrev two_snapshots : List (Call ℕ)
two_snapshots =
    pushed Inbox.from_telemetry (Inbox.status_snapshot 1)
    ∷ pushed Inbox.from_telemetry (Inbox.status_snapshot 2)
    ∷ drained
    ∷ []

play-IsValid_example : IsValid (play two_snapshots (Inbox.from_validated_parts 2 small))
play-IsValid_example = play-IsValid 2 small two_snapshots (omega arith)

drain_round-shutdown_example :
    (event : Inbox.UiEvent ℕ) × ((Inbox.drain_round (
          push_all
            ((Inbox.from_telemetry, Inbox.status_snapshot 6) ∷ [])
            (Inbox.push Inbox.from_terminal Inbox.shutdown waiting))).0
        ≡ event ∷ []
      × (Inbox.is_shutdown event ≡ true))
drain_round-shutdown_example =
    drain_round-shutdown Inbox.from_terminal ((Inbox.from_telemetry, Inbox.status_snapshot 6) ∷ [])
      waiting
