-- ===== src/Tui/Inbox/Rounds.antt =====
-- Histories of `push` and `drain_round` of src/tui/event_inbox.rs.
use ratash.Common.{
  ℕ, ◌≤◌, ◌<◌, ◌+◌, ◌≡◌, ◌≢◌, refl, ap, ◌∙◌, true, Option, none, some, List, [], ◌∷◌, ◌++◌, length,
  length-drop, drop, take, arith, if◌then◌else◌, Bool-cases, inl, inr,
}
use ratash.Tui.Inbox
use ratash.Tui.Inbox.Snapshots.{
  snapshots, drain_source_lem, snapshots-drop_le, replace_snapshot-none, replace_snapshot-some,
  push_back_le, snapshots-push_back_le,
}

-- Every queue is within the capacity, and at most one status snapshot waits with the telemetry.
pub record IsValid {Payload : Type 0} (s : Inbox.FairEventInbox Payload) : Type 0 where
  pub positive : 0 < s.capacity_per_source
  pub terminal_le : length s.terminal_events ≤ s.capacity_per_source
  pub command_le : length s.command_results ≤ s.capacity_per_source
  pub deadline_le : length s.deadlines ≤ s.capacity_per_source
  pub telemetry_le : length s.telemetry_events ≤ s.capacity_per_source
  pub coalesced : snapshots s.telemetry_events ≤ 1

module _ {Payload : Type 0} where
  enqueue-IsValid :
      (source : Inbox.EventSource) (event : Inbox.UiEvent Payload)
      (s : Inbox.FairEventInbox Payload)
      → IsValid s
      → (source ≡ Inbox.from_telemetry → snapshots s.telemetry_events + snapshots (event ∷ []) ≤ 1)
      → IsValid (Inbox.enqueue source event s)
  unfolding Inbox.enqueue
  enqueue-IsValid Inbox.from_terminal event s v c = record {
    positive = v.positive;
    terminal_le = push_back_le _ s.terminal_events event v.positive v.terminal_le;
    command_le = v.command_le;
    deadline_le = v.deadline_le;
    telemetry_le = v.telemetry_le;
    coalesced = v.coalesced;
  }
  enqueue-IsValid Inbox.from_command_result event s v c = record {
    positive = v.positive;
    terminal_le = v.terminal_le;
    command_le = push_back_le _ s.command_results event v.positive v.command_le;
    deadline_le = v.deadline_le;
    telemetry_le = v.telemetry_le;
    coalesced = v.coalesced;
  }
  enqueue-IsValid Inbox.from_deadline event s v c = record {
    positive = v.positive;
    terminal_le = v.terminal_le;
    command_le = v.command_le;
    deadline_le = push_back_le _ s.deadlines event v.positive v.deadline_le;
    telemetry_le = v.telemetry_le;
    coalesced = v.coalesced;
  }
  enqueue-IsValid Inbox.from_telemetry event s v c = record {
    positive = v.positive;
    terminal_le = v.terminal_le;
    command_le = v.command_le;
    deadline_le = v.deadline_le;
    telemetry_le = push_back_le _ s.telemetry_events event v.positive v.telemetry_le;
    coalesced =
        omega
          (arith, snapshots-push_back_le s.capacity_per_source s.telemetry_events event, c refl);
  }

  coalesce-IsValid :
      (event : Inbox.UiEvent Payload) (s : Inbox.FairEventInbox Payload)
      → Inbox.is_status_snapshot event ≡ true
      → IsValid s
      → (o : Option (List (Inbox.UiEvent Payload)))
      → Inbox.replace_snapshot event s.telemetry_events ≡ o
      → IsValid (Inbox.coalesce event o s)
  unfolding Inbox.coalesce snapshots
  coalesce-IsValid event s b v none h =
      enqueue-IsValid Inbox.from_telemetry event s v
        (λ _. ground (arith, b, replace_snapshot-none event s.telemetry_events h))
  coalesce-IsValid event s b v (some zs) h =
      let (l, n) = replace_snapshot-some event s.telemetry_events zs b h in
      record {
        positive = v.positive;
        terminal_le = v.terminal_le;
        command_le = v.command_le;
        deadline_le = v.deadline_le;
        telemetry_le = ground (arith, l, v.telemetry_le);
        coalesced = ground (arith, n, v.coalesced);
      }

  push_telemetry-IsValid :
      (event : Inbox.UiEvent Payload) (s : Inbox.FairEventInbox Payload)
      → IsValid s
      → IsValid (Inbox.push_telemetry event s)
  unfolding Inbox.push_telemetry snapshots
  push_telemetry-IsValid event s v = elim (Bool-cases (Inbox.is_status_snapshot event)) [
    | inl b ↦ rw b (coalesce-IsValid event s b v _ refl)
    | inr b ↦
        rw b (enqueue-IsValid Inbox.from_telemetry event s v (λ _. ground (arith, b, v.coalesced)))
  ]

  shutdown_kept :
      (event : Inbox.UiEvent Payload) (s : Inbox.FairEventInbox Payload)
      → IsValid s
      → IsValid (record s { pending_shutdown = some event })
  shutdown_kept event s v = record {
    positive = v.positive;
    terminal_le = v.terminal_le;
    command_le = v.command_le;
    deadline_le = v.deadline_le;
    telemetry_le = v.telemetry_le;
    coalesced = v.coalesced;
  }

  push_other-IsValid :
      (source : Inbox.EventSource) (event : Inbox.UiEvent Payload)
      (s : Inbox.FairEventInbox Payload)
      → source ≢ Inbox.from_telemetry
      → IsValid s
      → IsValid (
          if Inbox.is_shutdown event
          then record s { pending_shutdown = some event }
          else Inbox.enqueue source event s)
  push_other-IsValid source event s other v = elim (Bool-cases (Inbox.is_shutdown event)) [
    | inl b ↦ rw b (shutdown_kept event s v)
    | inr b ↦ rw b (enqueue-IsValid source event s v (λ same. absurd (other same)))
  ]

  push-IsValid :
      (source : Inbox.EventSource) (event : Inbox.UiEvent Payload)
      (s : Inbox.FairEventInbox Payload)
      → IsValid s
      → IsValid (Inbox.push source event s)
  unfolding Inbox.push
  push-IsValid Inbox.from_telemetry event s v = elim (Bool-cases (Inbox.is_shutdown event)) [
    | inl b ↦ rw b (shutdown_kept event s v)
    | inr b ↦ rw b (push_telemetry-IsValid event s v)
  ]
  push-IsValid Inbox.from_terminal event s v =
      push_other-IsValid Inbox.from_terminal event s (λ e. cc (e)) v
  push-IsValid Inbox.from_command_result event s v =
      push_other-IsValid Inbox.from_command_result event s (λ e. cc (e)) v
  push-IsValid Inbox.from_deadline event s v =
      push_other-IsValid Inbox.from_deadline event s (λ e. cc (e)) v

  drain_pending-IsValid :
      (o : Option (Inbox.UiEvent Payload)) (s : Inbox.FairEventInbox Payload)
      → IsValid s
      → IsValid ((Inbox.drain_pending o s).1)
  unfolding Inbox.drain_pending Inbox.drain_queues
  drain_pending-IsValid (some event) s v = record {
    positive = v.positive;
    terminal_le = v.terminal_le;
    command_le = v.command_le;
    deadline_le = v.deadline_le;
    telemetry_le = v.telemetry_le;
    coalesced = v.coalesced;
  }
  drain_pending-IsValid none s v = rw (drain_source_lem s.budgets.terminal s.terminal_events) (
      rw (drain_source_lem s.budgets.telemetry s.telemetry_events) (
        rw (drain_source_lem s.budgets.command_result s.command_results) (
          rw (drain_source_lem s.budgets.deadline s.deadlines) (record {
            positive = v.positive;
            terminal_le =
                omega (arith, length-drop s.budgets.terminal s.terminal_events, v.terminal_le);
            command_le =
                omega (arith, length-drop s.budgets.command_result s.command_results, v.command_le);
            deadline_le = omega (arith, length-drop s.budgets.deadline s.deadlines, v.deadline_le);
            telemetry_le =
                omega (arith, length-drop s.budgets.telemetry s.telemetry_events, v.telemetry_le);
            coalesced =
                omega
                  (arith, snapshots-drop_le s.budgets.telemetry s.telemetry_events, v.coalesced);
          }))))

module _ {Payload : Type 0} where
  drained_queues :
      (s : Inbox.FairEventInbox Payload)
      → Inbox.drain_pending none s ≡ (
        take s.budgets.terminal s.terminal_events
            ++ take s.budgets.telemetry s.telemetry_events
            ++ take s.budgets.command_result s.command_results
            ++ take s.budgets.deadline s.deadlines,
        record s {
          terminal_events = drop s.budgets.terminal s.terminal_events;
          telemetry_events = drop s.budgets.telemetry s.telemetry_events;
          command_results = drop s.budgets.command_result s.command_results;
          deadlines = drop s.budgets.deadline s.deadlines;
        },
      )
  unfolding Inbox.drain_pending Inbox.drain_queues
  drained_queues s = rw (drain_source_lem s.budgets.terminal s.terminal_events) (
      rw (drain_source_lem s.budgets.telemetry s.telemetry_events) (
        rw (drain_source_lem s.budgets.command_result s.command_results)
          (rw (drain_source_lem s.budgets.deadline s.deadlines) refl)))

-- A call of the inbox.
pub data Call (Payload : Type 0) : Type 0 where
  pushed : Inbox.EventSource → Inbox.UiEvent Payload → Call Payload
  drained : Call Payload

module _ {Payload : Type 0} where
  unfoldable pub play :
      List (Call Payload) → Inbox.FairEventInbox Payload → Inbox.FairEventInbox Payload
  play [] s = s
  play (pushed source event ∷ calls) s = play calls (Inbox.push source event s)
  play (drained ∷ calls) s = play calls ((Inbox.drain_round s).1)

  replay-IsValid :
      (calls : List (Call Payload)) (s : Inbox.FairEventInbox Payload)
      → IsValid s
      → IsValid (play calls s)
  unfolding play Inbox.drain_round
  replay-IsValid [] s v = v
  replay-IsValid (pushed source event ∷ calls) s v =
      replay-IsValid calls (Inbox.push source event s) (push-IsValid source event s v)
  replay-IsValid (drained ∷ calls) s v =
      replay-IsValid calls ((Inbox.drain_round s).1) (drain_pending-IsValid s.pending_shutdown s v)

  -- After every history of pushes and rounds on a new inbox of a positive capacity, no source has
  -- more events queued than the capacity, and at most one status snapshot waits with the
  -- telemetry.
  pub play-IsValid :
      (capacity : ℕ) (budgets : Inbox.EventBudgets) (calls : List (Call Payload))
      → 0 < capacity
      → IsValid (play calls (Inbox.from_validated_parts capacity budgets))
  unfolding Inbox.from_validated_parts snapshots
  play-IsValid capacity budgets calls pos =
      replay-IsValid calls (Inbox.from_validated_parts capacity budgets) (record {
        positive = pos;
        terminal_le = omega arith;
        command_le = omega arith;
        deadline_le = omega arith;
        telemetry_le = omega arith;
        coalesced = omega arith;
      })

  -- Without a pending shutdown, a round takes from the front of every queue as many events as its
  -- budget allows: those of the terminal come first, then the telemetry, the command results and
  -- the deadlines, each in the order in which they were pushed. The rest stays queued.
  pub drain_round_lem :
      (s : Inbox.FairEventInbox Payload)
      → s.pending_shutdown ≡ none
      → Inbox.drain_round s ≡ (
        take s.budgets.terminal s.terminal_events
            ++ take s.budgets.telemetry s.telemetry_events
            ++ take s.budgets.command_result s.command_results
            ++ take s.budgets.deadline s.deadlines,
        record s {
          terminal_events = drop s.budgets.terminal s.terminal_events;
          telemetry_events = drop s.budgets.telemetry s.telemetry_events;
          command_results = drop s.budgets.command_result s.command_results;
          deadlines = drop s.budgets.deadline s.deadlines;
        },
      )
  unfolding Inbox.drain_round
  drain_round_lem s idle = ap (λ o. Inbox.drain_pending o s) idle ∙ drained_queues s
