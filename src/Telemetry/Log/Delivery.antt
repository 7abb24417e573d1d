-- ===== src/Telemetry/Log/Delivery.antt =====
-- What `tail_after` of the Core Log delivers (src/telemetry.rs).
use mathlib.Core.List.{reverse-cons, reverse-reverse, append_assoc, append-nil}
use ratash.Common.{
  ℕ, suc, ◌+◌, ◌≤◌, ◌<◌, ◌≡◌, refl, sym, ◌∙◌, inl, inr, Bool, true, false, ◌||◌, Option, none, some,
  List, [], ◌∷◌, ◌++◌, length, keep, reverse, arith, ltb, leb, ◌==◌, Bool-cases, u64_max, ap,
  saturating_add,
}
use ratash.Constants.{log_tail_max_records, log_tail_max_bytes}
use ratash.Telemetry.Log.{
  CoreLogRecord, LogBuffer, log_tail_envelope_max_bytes, encoded_record_upper_bound, collect_tail,
  gap_from, sequence_has_gap, gap_after, is_after, tail_after,
}
use ratash.Telemetry.Log.Retention.{Sequenced, IsValid}

-- The numbers of the records are exactly those from `n` up to, and without, `m`.
abbrev pub Contiguous : ℕ → ℕ → List CoreLogRecord → Type 0
Contiguous n m [] = m ≤ n
Contiguous n m (r ∷ rs) = (r.sequence ≡ n) × Contiguous (suc n) m rs

-- The numbers ascend from `lo` on, and each is below `hi`.
abbrev Within : ℕ → ℕ → List CoreLogRecord → Type 0
Within lo hi [] = Unit {0}
Within lo hi (r ∷ rs) = (lo ≤ r.sequence) × (r.sequence < hi) × Within (suc r.sequence) hi rs

Within-lower :
    (lo lo' hi : ℕ) (rs : List CoreLogRecord) → lo' ≤ lo → Within lo hi rs → Within lo' hi rs
Within-lower lo lo' hi [] le w = tt
Within-lower lo lo' hi (r ∷ rs) le w = (omega arith, w.1, w.2)

Sequenced-le : (lo hi : ℕ) (rs : List CoreLogRecord) → Sequenced lo hi rs → lo ≤ hi
Sequenced-le lo hi [] s = s
Sequenced-le lo hi (r ∷ rs) s = omega (arith, s.0, Sequenced-le (suc r.sequence) hi rs s.1)

Sequenced-Within : (lo hi : ℕ) (rs : List CoreLogRecord) → Sequenced lo hi rs → Within lo hi rs
Sequenced-Within lo hi [] s = tt
Sequenced-Within lo hi (r ∷ rs) s =
    (s.0, Sequenced-le (suc r.sequence) hi rs s.1, Sequenced-Within (suc r.sequence) hi rs s.1)

keep-Within :
    (p : CoreLogRecord → Bool) (lo hi : ℕ) (rs : List CoreLogRecord)
    → Within lo hi rs
    → Within lo hi (keep p rs)
keep-Within p lo hi [] w = tt
keep-Within p lo hi (r ∷ rs) w = elim (Bool-cases (p r)) [
  | inl kept ↦ rw kept (w.0, w.1, keep-Within p (suc r.sequence) hi rs w.2)
  | inr left ↦ rw left (
      Within-lower (suc r.sequence) lo hi (keep p rs) (omega arith)
        (keep-Within p (suc r.sequence) hi rs w.2))
]

keep_after-Within :
    (after lo hi : ℕ) (rs : List CoreLogRecord)
    → Within lo hi rs
    → Within (suc after) hi (keep (is_after (some after)) rs)
keep_after-Within after lo hi [] w = tt
keep_after-Within after lo hi (r ∷ rs) w = elim (Bool-cases (ltb after r.sequence)) [
  | inl kept ↦
      rw kept
        (ground (arith, kept), w.1, keep-Within (is_after (some after)) (suc r.sequence) hi rs w.2)
  | inr left ↦ rw left (keep_after-Within after (suc r.sequence) hi rs w.2)
]

-- Without a gap the numbers follow one another up to the next one to be given out.
gap_from-Contiguous :
    (n next : ℕ) (rs : List CoreLogRecord)
    → next ≤ u64_max
    → Within n next rs
    → gap_from n rs next ≡ false
    → Contiguous n next rs
unfolding gap_from
gap_from-Contiguous n next [] small w h = ground (arith, h)
gap_from-Contiguous n next (r ∷ rs) small w h = elim (Bool-cases (ltb n r.sequence)) [
  | inl gap ↦ cc (rw gap at h)
  | inr calm ↦
      let same : r.sequence ≡ n = ground (arith, w.0, calm) in
      let step : saturating_add r.sequence 1 ≡ suc n = omega (arith, w.1) in
      (
        same,
        gap_from-Contiguous (suc n) next rs small
            (Within-lower (suc r.sequence) (suc n) next rs (omega arith) w.2)
            (rw step at (rw calm at h)),
      )
]

keep-append :
    (p : CoreLogRecord → Bool) (xs ys : List CoreLogRecord)
    → keep p (xs ++ ys) ≡ keep p xs ++ keep p ys
keep-append p [] ys = refl
keep-append p (x ∷ xs) ys = ground (arith, keep-append p xs ys)

keep-reverse :
    (p : CoreLogRecord → Bool) (rs : List CoreLogRecord) → keep p (reverse rs) ≡ reverse (keep p rs)
keep-reverse p [] = refl
keep-reverse p (r ∷ rs) =
    rw (reverse-cons r rs, keep-append p (reverse rs) (r ∷ []), keep-reverse p rs)
      (elim (Bool-cases (p r)) [
        | inl kept ↦ rw kept (sym (reverse-cons r (keep p rs)))
        | inr left ↦ rw left (append-nil (reverse (keep p rs)))
      ])

-- The loop delivers the newest records, and all of them unless it says that it stopped.
collect_tail-all :
    (rs acc : List CoreLogRecord) (bytes : ℕ)
    → (collect_tail rs bytes acc).1 ≡ false
    → (collect_tail rs bytes acc).0 ≡ reverse rs ++ acc
unfolding collect_tail
collect_tail-all [] acc bytes h = refl
collect_tail-all (r ∷ rs) acc bytes h =
    let delivered = saturating_add bytes (encoded_record_upper_bound r) in
    elim (Bool-cases (length acc == log_tail_max_records || ltb log_tail_max_bytes delivered)) [
      | inl stop ↦ cc (rw stop at h)
      | inr more ↦ rw more (
          collect_tail-all rs (r ∷ acc) delivered (rw more at h)
          ∙ sym (ap (λ xs. xs ++ acc) (reverse-cons r rs) ∙ append_assoc (reverse rs) (r ∷ []) acc))
    ]

or-false : (a b : Bool) → (a || b) ≡ false → (a ≡ false) × (b ≡ false)
or-false a b h = ground arith

-- A tail that reports no gap holds every retained record that was asked for.
no_gap-all :
    (after : Option ℕ) (b : LogBuffer)
    → (tail_after after b).gap ≡ false
    → ((tail_after after b).records ≡ keep (is_after after) b.records)
      × (gap_after after (tail_after after b).records b ≡ false)
unfolding tail_after
no_gap-all after b h =
    let newest = keep (is_after after) (reverse b.records) in
    let (whole, calm) =
      or-false (collect_tail newest log_tail_envelope_max_bytes []).1
        (gap_after after (collect_tail newest log_tail_envelope_max_bytes []).0 b) h in
    (
      collect_tail-all newest [] log_tail_envelope_max_bytes whole
          ∙ append-nil (reverse newest)
          ∙ ap reverse (keep-reverse (is_after after) b.records)
          ∙ reverse-reverse (keep (is_after after) b.records),
      calm,
    )

sequence_has_gap-from :
    (after next : ℕ) (rs : List CoreLogRecord)
    → after < u64_max
    → sequence_has_gap after rs next ≡ gap_from (suc after) rs next
unfolding sequence_has_gap
sequence_has_gap-from after next rs small =
    let step : after + 1 ≡ suc after = omega arith in
    let fits : leb (after + 1) u64_max ≡ true = ground arith in ground (arith, step)

-- A reader that has seen the records up to `after` and is told of no gap gets exactly the records
-- with the numbers after that one, up to the next number to be given out: none is missing.
pub tail_after-no_gap :
    (after : ℕ) (b : LogBuffer)
    → IsValid b
    → after < u64_max
    → (tail_after (some after) b).gap ≡ false
    → Contiguous (suc after) b.next_sequence (tail_after (some after) b).records
unfolding gap_after
tail_after-no_gap after b v small h =
    let (all, calm) = no_gap-all (some after) b h in
    rw all (
      gap_from-Contiguous (suc after) b.next_sequence (keep (is_after (some after)) b.records)
        v.representable
        (keep_after-Within after 1 b.next_sequence b.records
          (Sequenced-Within 1 b.next_sequence b.records v.sequenced))
        (sym (sequence_has_gap-from after b.next_sequence _ small) ∙ rw all at calm))

keep-none : (rs : List CoreLogRecord) → keep (is_after none) rs ≡ rs
keep-none [] = refl
keep-none (r ∷ rs) = ap (◌∷◌ r) (keep-none rs)

Sequenced-length : (lo hi : ℕ) (rs : List CoreLogRecord) → Sequenced lo hi rs → lo + length rs ≤ hi
Sequenced-length lo hi [] s = omega arith
Sequenced-length lo hi (r ∷ rs) s = omega (arith, s.0, Sequenced-length (suc r.sequence) hi rs s.1)

Sequenced-Contiguous :
    (lo hi : ℕ) (rs : List CoreLogRecord)
    → Sequenced lo hi rs
    → hi ≤ lo + length rs
    → Contiguous lo hi rs
Sequenced-Contiguous lo hi [] s few = omega arith
Sequenced-Contiguous lo hi (r ∷ rs) s few =
    let room = Sequenced-length (suc r.sequence) hi rs s.1 in
    let same : r.sequence ≡ lo = omega (arith, s.0, room) in
    let next : suc r.sequence ≡ suc lo = omega arith in
    (same, Sequenced-Contiguous (suc lo) hi rs (rw next at s.1) (omega arith))

-- A reader that asks for everything and is told of no gap gets every record since the first: none
-- was dropped, and the numbers run from 1 up to the next number to be given out.
pub tail_after-whole :
    (b : LogBuffer)
    → IsValid b
    → (tail_after none b).gap ≡ false
    → ((tail_after none b).records ≡ b.records)
      × (b.dropped_total ≡ 0)
      × Contiguous 1 b.next_sequence (tail_after none b).records
unfolding gap_after
tail_after-whole b v h =
    let (all, calm) = no_gap-all none b h in
    let same = all ∙ keep-none b.records in
    let kept : b.dropped_total ≡ 0 = ground (arith, calm) in
    (
      same,
      kept,
      rw same (
          Sequenced-Contiguous 1 b.next_sequence b.records v.sequenced
            (omega (arith, v.accounted, kept))),
    )
