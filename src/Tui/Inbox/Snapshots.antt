-- ===== src/Tui/Inbox/Snapshots.antt =====
-- The queues of src/tui/event_inbox.rs: their lengths and the status snapshots in them.
use ratash.Common.{
  ℕ, zero, suc, ◌≤◌, ◌<◌, ◌+◌, ◌≡◌, refl, true, false, Option, none, some, List, [], ◌∷◌, ◌++◌,
  length, length-append, length-drop, drop, take, arith, ◌==◌, if◌then◌else◌, Bool-cases, inl, inr,
  ◌⊎◌,
}
use ratash.Tui.Inbox

module _ {Payload : Type 0} where
  -- The number of status snapshots in a queue.
  unfoldable pub snapshots : List (Inbox.UiEvent Payload) → ℕ
  unfolding Inbox.is_status_snapshot
  snapshots [] = 0
  snapshots (event ∷ queue) =
      let rest = snapshots queue in if Inbox.is_status_snapshot event then 1 + rest else rest

  pub drain_source_lem :
      (budget : ℕ) (queue : List (Inbox.UiEvent Payload))
      → Inbox.drain_source budget queue ≡ (take budget queue, drop budget queue)
  unfolding Inbox.drain_source
  drain_source_lem zero queue = refl
  drain_source_lem (suc budget) [] = refl
  drain_source_lem (suc budget) (event ∷ queue) = rw (drain_source_lem budget queue)

  pub snapshots-append :
      (xs ys : List (Inbox.UiEvent Payload)) → snapshots (xs ++ ys) ≡ snapshots xs + snapshots ys
  unfolding snapshots
  snapshots-append [] ys = omega arith
  snapshots-append (x ∷ xs) ys = ground (arith, snapshots-append xs ys)

  pub snapshots-drop_le :
      (n : ℕ) (xs : List (Inbox.UiEvent Payload)) → snapshots (drop n xs) ≤ snapshots xs
  unfolding snapshots
  snapshots-drop_le zero xs = omega arith
  snapshots-drop_le (suc n) [] = omega arith
  snapshots-drop_le (suc n) (x ∷ xs) = ground (arith, snapshots-drop_le n xs)

  pub replaced-none :
      (event x : Inbox.UiEvent Payload) (xs : List (Inbox.UiEvent Payload))
      (o : Option (List (Inbox.UiEvent Payload)))
      → Inbox.replaced event x xs o ≡ none
      → (o ≡ none) × (Inbox.is_status_snapshot x ≡ false)
  unfolding Inbox.replaced
  replaced-none event x xs (some ys) h = cc (h)
  replaced-none event x xs none h = elim (Bool-cases (Inbox.is_status_snapshot x)) [
    | inl b ↦ cc (rw b at h)
    | inr b ↦ (refl, b)
  ]

  pub replaced-some :
      (event x : Inbox.UiEvent Payload) (xs : List (Inbox.UiEvent Payload))
      (o : Option (List (Inbox.UiEvent Payload))) (zs : List (Inbox.UiEvent Payload))
      → Inbox.replaced event x xs o ≡ some zs
      → ((ys : List (Inbox.UiEvent Payload)) × ((o ≡ some ys) × (x ∷ ys ≡ zs)))
        ⊎ ((event ∷ xs ≡ zs) × (Inbox.is_status_snapshot x ≡ true))
  unfolding Inbox.replaced
  replaced-some event x xs (some ys) zs h = inl (ys, (refl, cc (h)))
  replaced-some event x xs none zs h = elim (Bool-cases (Inbox.is_status_snapshot x)) [
    | inl b ↦ inr (cc (rw b at h), b)
    | inr b ↦ cc (rw b at h)
  ]

  pub replace_snapshot-none :
      (event : Inbox.UiEvent Payload) (xs : List (Inbox.UiEvent Payload))
      → Inbox.replace_snapshot event xs ≡ none
      → snapshots xs ≡ 0
  unfolding Inbox.replace_snapshot snapshots
  replace_snapshot-none event [] h = refl
  replace_snapshot-none event (x ∷ xs) h =
      let (e, b) = replaced-none event x xs (Inbox.replace_snapshot event xs) h in
      rw b (replace_snapshot-none event xs e)

  -- Replacing keeps the length and the number of snapshots.
  pub replace_snapshot-some :
      (event : Inbox.UiEvent Payload) (xs zs : List (Inbox.UiEvent Payload))
      → Inbox.is_status_snapshot event ≡ true
      → Inbox.replace_snapshot event xs ≡ some zs
      → (length zs ≡ length xs) × (snapshots zs ≡ snapshots xs)
  unfolding Inbox.replace_snapshot snapshots
  replace_snapshot-some event [] zs b h = cc (h)
  replace_snapshot-some event (x ∷ xs) zs b h =
      elim (replaced-some event x xs (Inbox.replace_snapshot event xs) zs h) [
        | inl (ys, (e, same)) ↦
            let (l, n) = replace_snapshot-some event xs ys b e in
            rw (← same) (ground (arith, l), ground (arith, n))
        | inr (same, c) ↦ rw (← same) (refl, ground (arith, b, c))
      ]

  pub push_back_le :
      (capacity : ℕ) (queue : List (Inbox.UiEvent Payload)) (event : Inbox.UiEvent Payload)
      → 0 < capacity
      → length queue ≤ capacity
      → length (Inbox.push_back capacity queue event) ≤ capacity
  unfolding Inbox.push_back
  push_back_le capacity queue event pos h = elim (Bool-cases (length queue == capacity)) [
    | inl b ↦
        rw b (ground (arith, b, length-append (drop 1 queue) (event ∷ []), length-drop 1 queue))
    | inr b ↦ rw b (ground (arith, b, length-append queue (event ∷ [])))
  ]

  pub snapshots-push_back_le :
      (capacity : ℕ) (queue : List (Inbox.UiEvent Payload)) (event : Inbox.UiEvent Payload)
      → snapshots (Inbox.push_back capacity queue event) ≤ snapshots queue + snapshots (event ∷ [])
  unfolding Inbox.push_back
  snapshots-push_back_le capacity queue event = elim (Bool-cases (length queue == capacity)) [
    | inl b ↦
        rw b
          (ground (arith, snapshots-append (drop 1 queue) (event ∷ []), snapshots-drop_le 1 queue))
    | inr b ↦ rw b (ground (arith, snapshots-append queue (event ∷ [])))
  ]
