-- ===== src/Tui/Inbox.antt =====
-- `FairEventInbox` of src/tui/event_inbox.rs with `UiEvent` of src/tui/reducer.rs. What an event
-- carries is passed on whole and never looked into, so its type is a parameter.
pub mod Snapshots
pub mod Rounds
pub mod Shutdown
mod Examples
use ratash.Common.{
  ℕ, zero, suc, ◌≡◌, Bool, true, false, ◌||◌, Option, none, some, List, [], ◌∷◌, ◌++◌, length, drop,
  ◌==◌, if◌then◌else◌, saturating_add,
}
use ratash.Common.Result.{Result, ok, err}

pub data UiEvent (Payload : Type 0) : Type 0 where
  terminal : Payload → UiEvent Payload
  intent : Payload → UiEvent Payload
  connected : Payload → UiEvent Payload
  disconnected : Payload → UiEvent Payload
  status_snapshot : Payload → UiEvent Payload
  snapshot_refreshed : Payload → UiEvent Payload
  snapshot_refresh_failed : Payload → UiEvent Payload
  proxy_group_loaded : Payload → UiEvent Payload
  rules_loaded : Payload → UiEvent Payload
  log_batch : Payload → UiEvent Payload
  command_result : Payload → UiEvent Payload
  reconnect_deadline : Payload → UiEvent Payload
  resize : Payload → UiEvent Payload
  shutdown : UiEvent Payload

pub data EventSource : Type 0 where
  from_terminal : EventSource
  from_command_result : EventSource
  from_deadline : EventSource
  from_telemetry : EventSource

pub record EventBudgets : Type 0 where
  pub terminal : ℕ
  pub command_result : ℕ
  pub deadline : ℕ
  pub telemetry : ℕ

pub data EventInboxError : Type 0 where
  invalid_capacity : EventInboxError
  invalid_budget : EventInboxError

pub record FairEventInbox (Payload : Type 0) : Type 0 where
  pub capacity_per_source : ℕ
  pub budgets : EventBudgets
  pub pending_shutdown : Option (UiEvent Payload)
  pub terminal_events : List (UiEvent Payload)
  pub command_results : List (UiEvent Payload)
  pub deadlines : List (UiEvent Payload)
  pub telemetry_events : List (UiEvent Payload)
  pub dropped_counts : List ℕ

pub source_index : EventSource → ℕ
source_index from_terminal = 0
source_index from_command_result = 1
source_index from_deadline = 2
source_index from_telemetry = 3

-- `dropped[index]` grows by one; the index is always one of the four.
pub count_drop : ℕ → List ℕ → List ℕ
count_drop index [] = []
count_drop zero (d ∷ dropped) = saturating_add d 1 ∷ dropped
count_drop (suc index) (d ∷ dropped) = d ∷ count_drop index dropped

module _ {Payload : Type 0} where
  pub is_shutdown : UiEvent Payload → Bool
  is_shutdown shutdown = true
  is_shutdown _ = false

  pub is_status_snapshot : UiEvent Payload → Bool
  is_status_snapshot (status_snapshot _) = true
  is_status_snapshot _ = false

  pub from_validated_parts : ℕ → EventBudgets → FairEventInbox Payload
  from_validated_parts capacity_per_source budgets = record {
    capacity_per_source = capacity_per_source;
    budgets = budgets;
    pending_shutdown = none;
    terminal_events = [];
    command_results = [];
    deadlines = [];
    telemetry_events = [];
    dropped_counts = 0 ∷ 0 ∷ 0 ∷ 0 ∷ [];
  }

  pub new : ℕ → EventBudgets → Result EventInboxError (FairEventInbox Payload)
  new capacity_per_source budgets =
      if capacity_per_source == 0
      then err invalid_capacity
      else if budgets.terminal == 0
          || budgets.command_result == 0
          || budgets.deadline == 0
          || budgets.telemetry == 0
      then err invalid_budget
      else ok (from_validated_parts capacity_per_source budgets)

  -- `rposition` and the assignment at the position that it finds.
  pub replaced :
      UiEvent Payload
      → UiEvent Payload
      → List (UiEvent Payload)
      → Option (List (UiEvent Payload))
      → Option (List (UiEvent Payload))
  replaced event queued rest (some rest') = some (queued ∷ rest')
  replaced event queued rest none = if is_status_snapshot queued then some (event ∷ rest) else none

  pub replace_snapshot : UiEvent Payload → List (UiEvent Payload) → Option (List (UiEvent Payload))
  unfolding replaced
  replace_snapshot event [] = none
  replace_snapshot event (queued ∷ rest) = replaced event queued rest (replace_snapshot event rest)

  -- The end of `push`: the oldest event leaves a full queue.
  pub push_back : ℕ → List (UiEvent Payload) → UiEvent Payload → List (UiEvent Payload)
  push_back capacity queue event =
      (if length queue == capacity then drop 1 queue else queue) ++ event ∷ []

  pub drop_counts : ℕ → ℕ → List (UiEvent Payload) → List ℕ → List ℕ
  drop_counts index capacity queue dropped =
      if length queue == capacity then count_drop index dropped else dropped

  pub enqueue : EventSource → UiEvent Payload → FairEventInbox Payload → FairEventInbox Payload
  unfolding push_back drop_counts source_index
  enqueue from_terminal event s = record s {
    terminal_events = push_back s.capacity_per_source s.terminal_events event;
    dropped_counts =
        drop_counts (source_index from_terminal) s.capacity_per_source s.terminal_events
          s.dropped_counts;
  }
  enqueue from_command_result event s = record s {
    command_results = push_back s.capacity_per_source s.command_results event;
    dropped_counts =
        drop_counts (source_index from_command_result) s.capacity_per_source s.command_results
          s.dropped_counts;
  }
  enqueue from_deadline event s = record s {
    deadlines = push_back s.capacity_per_source s.deadlines event;
    dropped_counts =
        drop_counts (source_index from_deadline) s.capacity_per_source s.deadlines s.dropped_counts;
  }
  enqueue from_telemetry event s = record s {
    telemetry_events = push_back s.capacity_per_source s.telemetry_events event;
    dropped_counts =
        drop_counts (source_index from_telemetry) s.capacity_per_source s.telemetry_events
          s.dropped_counts;
  }

  -- A status snapshot of the telemetry takes the place of the one that is queued.
  pub coalesce :
      UiEvent Payload
      → Option (List (UiEvent Payload))
      → FairEventInbox Payload
      → FairEventInbox Payload
  unfolding enqueue
  coalesce event none s = enqueue from_telemetry event s
  coalesce event (some queue) s = record s { telemetry_events = queue }

  pub push_telemetry : UiEvent Payload → FairEventInbox Payload → FairEventInbox Payload
  unfolding coalesce
  push_telemetry event s =
      if is_status_snapshot event
      then coalesce event (replace_snapshot event s.telemetry_events) s
      else enqueue from_telemetry event s

  pub push : EventSource → UiEvent Payload → FairEventInbox Payload → FairEventInbox Payload
  unfolding push_telemetry
  push from_telemetry event s =
      if is_shutdown event
      then record s { pending_shutdown = some event }
      else push_telemetry event s
  push source event s =
      if is_shutdown event
      then record s { pending_shutdown = some event }
      else enqueue source event s

  -- The events that one source gives, and its queue after that.
  pub drain_source : ℕ → List (UiEvent Payload) → List (UiEvent Payload) × List (UiEvent Payload)
  drain_source zero queue = ([], queue)
  drain_source (suc budget) [] = ([], [])
  drain_source (suc budget) (event ∷ queue) =
      let (output, rest) = drain_source budget queue in (event ∷ output, rest)

  pub drain_queues : FairEventInbox Payload → List (UiEvent Payload) × FairEventInbox Payload
  drain_queues s =
      let (a, terminal_rest) = drain_source s.budgets.terminal s.terminal_events in
      let (b, telemetry_rest) = drain_source s.budgets.telemetry s.telemetry_events in
      let (d, command_rest) = drain_source s.budgets.command_result s.command_results in
      let (e, deadline_rest) = drain_source s.budgets.deadline s.deadlines in
      (
        a ++ b ++ d ++ e,
        record s {
          terminal_events = terminal_rest;
          telemetry_events = telemetry_rest;
          command_results = command_rest;
          deadlines = deadline_rest;
        },
      )

  pub drain_pending :
      Option (UiEvent Payload)
      → FairEventInbox Payload
      → List (UiEvent Payload) × FairEventInbox Payload
  unfolding drain_queues
  drain_pending (some event) s = (event ∷ [], record s { pending_shutdown = none })
  drain_pending none s = drain_queues s

  pub drain_round : FairEventInbox Payload → List (UiEvent Payload) × FairEventInbox Payload
  unfolding drain_pending
  drain_round s = drain_pending s.pending_shutdown s
