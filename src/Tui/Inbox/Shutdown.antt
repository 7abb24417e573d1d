-- ===== src/Tui/Inbox/Shutdown.antt =====
-- The priority of a shutdown in src/tui/event_inbox.rs.
use ratash.Common.{
  ◌≡◌, refl, ap, ◌∙◌, true, Option, none, some, List, [], ◌∷◌, Bool-cases, inl, inr, if◌then◌else◌,
}
use ratash.Tui.Inbox

module _ {Payload : Type 0} where
  -- A shutdown waits in the inbox.
  pub IsShut : Inbox.FairEventInbox Payload → Type 0
  IsShut s =
      (event : Inbox.UiEvent Payload) × ((s.pending_shutdown ≡ some event)
        × (Inbox.is_shutdown event ≡ true))

  enqueue_pending :
      (source : Inbox.EventSource) (event : Inbox.UiEvent Payload)
      (s : Inbox.FairEventInbox Payload)
      → (Inbox.enqueue source event s).pending_shutdown ≡ s.pending_shutdown
  unfolding Inbox.enqueue
  enqueue_pending Inbox.from_terminal event s = refl
  enqueue_pending Inbox.from_command_result event s = refl
  enqueue_pending Inbox.from_deadline event s = refl
  enqueue_pending Inbox.from_telemetry event s = refl

  coalesce_pending :
      (event : Inbox.UiEvent Payload) (o : Option (List (Inbox.UiEvent Payload)))
      (s : Inbox.FairEventInbox Payload)
      → (Inbox.coalesce event o s).pending_shutdown ≡ s.pending_shutdown
  unfolding Inbox.coalesce
  coalesce_pending event none s = enqueue_pending Inbox.from_telemetry event s
  coalesce_pending event (some queue) s = refl

  push_telemetry_pending :
      (event : Inbox.UiEvent Payload) (s : Inbox.FairEventInbox Payload)
      → (Inbox.push_telemetry event s).pending_shutdown ≡ s.pending_shutdown
  unfolding Inbox.push_telemetry
  push_telemetry_pending event s = elim (Bool-cases (Inbox.is_status_snapshot event)) [
    | inl b ↦ rw b (coalesce_pending event _ s)
    | inr b ↦ rw b (enqueue_pending Inbox.from_telemetry event s)
  ]

  IsShut-or_same :
      (event : Inbox.UiEvent Payload) (s t : Inbox.FairEventInbox Payload)
      → t.pending_shutdown ≡ s.pending_shutdown
      → IsShut s
      → IsShut (if Inbox.is_shutdown event then record s { pending_shutdown = some event } else t)
  unfolding IsShut
  IsShut-or_same event s t same (e, (waits, shut)) = elim (Bool-cases (Inbox.is_shutdown event)) [
    | inl b ↦ rw b (event, (refl, b))
    | inr b ↦ rw b (e, (same ∙ waits, shut))
  ]

  push-IsShut :
      (source : Inbox.EventSource) (event : Inbox.UiEvent Payload)
      (s : Inbox.FairEventInbox Payload)
      → IsShut s
      → IsShut (Inbox.push source event s)
  unfolding Inbox.push
  push-IsShut Inbox.from_telemetry event s h =
      IsShut-or_same event s _ (push_telemetry_pending event s) h
  push-IsShut Inbox.from_terminal event s h =
      IsShut-or_same event s _ (enqueue_pending Inbox.from_terminal event s) h
  push-IsShut Inbox.from_command_result event s h =
      IsShut-or_same event s _ (enqueue_pending Inbox.from_command_result event s) h
  push-IsShut Inbox.from_deadline event s h =
      IsShut-or_same event s _ (enqueue_pending Inbox.from_deadline event s) h

  unfoldable pub push_all :
      List (Inbox.EventSource × Inbox.UiEvent Payload)
      → Inbox.FairEventInbox Payload
      → Inbox.FairEventInbox Payload
  push_all [] s = s
  push_all ((source, event) ∷ events) s = push_all events (Inbox.push source event s)

  push_all-IsShut :
      (events : List (Inbox.EventSource × Inbox.UiEvent Payload)) (s : Inbox.FairEventInbox Payload)
      → IsShut s
      → IsShut (push_all events s)
  unfolding push_all
  push_all-IsShut [] s h = h
  push_all-IsShut ((source, event) ∷ events) s h =
      push_all-IsShut events (Inbox.push source event s) (push-IsShut source event s h)

  push_shutdown :
      (source : Inbox.EventSource) (s : Inbox.FairEventInbox Payload)
      → IsShut (Inbox.push source Inbox.shutdown s)
  unfolding Inbox.push Inbox.is_shutdown IsShut
  push_shutdown Inbox.from_telemetry s = (Inbox.shutdown, (refl, refl))
  push_shutdown Inbox.from_terminal s = (Inbox.shutdown, (refl, refl))
  push_shutdown Inbox.from_command_result s = (Inbox.shutdown, (refl, refl))
  push_shutdown Inbox.from_deadline s = (Inbox.shutdown, (refl, refl))

  -- Once a shutdown is pushed, from whichever source and whatever is pushed after it, the next
  -- round returns one event, a shutdown, and none of those that are queued.
  pub drain_round-shutdown :
      (source : Inbox.EventSource) (events : List (Inbox.EventSource × Inbox.UiEvent Payload))
      (s : Inbox.FairEventInbox Payload)
      → (event : Inbox.UiEvent Payload) × ((Inbox.drain_round
              (push_all events (Inbox.push source Inbox.shutdown s))).0
            ≡ event ∷ []
          × (Inbox.is_shutdown event ≡ true))
  unfolding Inbox.drain_round Inbox.drain_pending IsShut
  drain_round-shutdown source events s =
      let t = push_all events (Inbox.push source Inbox.shutdown s) in
      let (event, (waits, shut)) =
        push_all-IsShut events (Inbox.push source Inbox.shutdown s) (push_shutdown source s) in
      (event, (ap (λ o. (Inbox.drain_pending o t).0) waits, shut))
