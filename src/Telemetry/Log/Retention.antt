-- ===== src/Telemetry/Log/Retention.antt =====
-- What `LogBuffer` retains (src/telemetry.rs).
use ratash.Common.{
  ℕ, zero, suc, ◌+◌, ◌-◌, ◌≤◌, ◌<◌, ◌≡◌, refl, ◌⊎◌, ◌↔◌, inl, inr, List, [], ◌∷◌, ◌++◌, length,
  length-append, drop, arith, ltb, ◌==◌, ◌||◌, Bool-cases, u64_max, ap, saturating_add,
}
use ratash.Common.Result.{ok, err, Result-cases}
use ratash.Constants.{log_retention_max_bytes}
use ratash.Telemetry.Log.{
  CoreLogRecord, LogLevel, LogSource, TelemetryError, LogBuffer, new, evict, append_record, push,
  record_external_drop,
}

-- The bytes of all messages.
abbrev pub total_bytes : List CoreLogRecord → ℕ
total_bytes [] = 0
total_bytes (r ∷ rs) = length r.message + total_bytes rs

-- The sequence numbers ascend from `lo` and stay below `hi`.
abbrev pub Sequenced : ℕ → ℕ → List CoreLogRecord → Type 0
Sequenced lo hi [] = lo ≤ hi
Sequenced lo hi (r ∷ rs) = (lo ≤ r.sequence) × Sequenced (suc r.sequence) hi rs

pub record IsValid (b : LogBuffer) : Type 0 where
  pub positive : 0 < b.capacity
  pub bounded : length b.records ≤ b.capacity
  pub measured : b.retained_bytes ≡ total_bytes b.records
  pub retained : b.retained_bytes ≤ log_retention_max_bytes
  pub sequenced : Sequenced 1 b.next_sequence b.records
  pub accounted : b.next_sequence ≡ 1 + b.dropped_total + length b.records
  pub representable : b.next_sequence ≤ u64_max

pub new-IsValid :
    (capacity max_line_bytes : ℕ) (b : LogBuffer) → new capacity max_line_bytes ≡ ok b → IsValid b
unfolding new
new-IsValid capacity max_line_bytes b h = elim (Bool-cases (capacity == 0 || max_line_bytes == 0)) [
  | inl refused ↦ cc (rw refused at h)
  | inr fine ↦
      let same : record {
        capacity = capacity;
        max_line_bytes = max_line_bytes;
        next_sequence = 1;
        dropped_total = 0;
        retained_bytes = 0;
        records = [];
      }
          ≡ b =
        cc (rw fine at h) in
      rw (← same) (ground (arith, fine))
]

Sequenced-later :
    (lo lo' hi : ℕ) (rs : List CoreLogRecord) → lo' ≤ lo → Sequenced lo hi rs → Sequenced lo' hi rs
Sequenced-later lo lo' hi [] le s = omega arith
Sequenced-later lo lo' hi (r ∷ rs) le s = (omega arith, s.1)

Sequenced-higher :
    (lo hi hi' : ℕ) (rs : List CoreLogRecord) → hi ≤ hi' → Sequenced lo hi rs → Sequenced lo hi' rs
Sequenced-higher lo hi hi' [] le s = omega arith
Sequenced-higher lo hi hi' (r ∷ rs) le s = (s.0, Sequenced-higher (suc r.sequence) hi hi' rs le s.1)

Sequenced-append :
    (lo hi : ℕ) (rs : List CoreLogRecord) (r : CoreLogRecord)
    → r.sequence ≡ hi
    → Sequenced lo hi rs
    → Sequenced lo (suc hi) (rs ++ r ∷ [])
Sequenced-append lo hi [] r e s = (omega arith, omega arith)
Sequenced-append lo hi (x ∷ rs) r e s = (s.0, Sequenced-append (suc x.sequence) hi rs r e s.1)

total_bytes-append :
    (rs : List CoreLogRecord) (r : CoreLogRecord)
    → total_bytes (rs ++ r ∷ []) ≡ total_bytes rs + length r.message
total_bytes-append [] r = omega arith
total_bytes-append (x ∷ rs) r = omega (arith, total_bytes-append rs r)

-- What the eviction leaves of the records, for a message of `n` bytes.
pub record Evicted (n : ℕ) (b : LogBuffer) (rs : List CoreLogRecord) (dropped : ℕ) (b' : LogBuffer)
    : Type 0 where
  pub capacity : b'.capacity ≡ b.capacity
  pub next_sequence : b'.next_sequence ≡ b.next_sequence
  pub room : (b'.records ≡ []) ⊎ (length b'.records < b.capacity)
  pub fits : b'.retained_bytes + n ≤ log_retention_max_bytes
  pub measured : b'.retained_bytes ≡ total_bytes b'.records
  pub suffix : (k : ℕ) × (b'.records ≡ drop k rs) × (b'.dropped_total ≡ dropped + k)
  pub counted : b'.dropped_total + length b'.records ≡ dropped + length rs

Evicted-older :
    (n : ℕ) (b : LogBuffer) (r : CoreLogRecord) (rs : List CoreLogRecord) (dropped : ℕ)
    (b' : LogBuffer)
    → dropped < u64_max
    → Evicted n b rs (saturating_add dropped 1) b'
    → Evicted n b (r ∷ rs) dropped b'
Evicted-older n b r rs dropped b' room e = record {
  capacity = e.capacity;
  next_sequence = e.next_sequence;
  room = e.room;
  fits = e.fits;
  measured = e.measured;
  suffix = (suc e.suffix.0, e.suffix.1, omega (arith, e.suffix.2));
  counted = omega (arith, e.counted);
}

-- The loop ends with room for the message; the dropped records are the oldest ones, each counted.
evict-Evicted :
    (n : ℕ) (b : LogBuffer) (rs : List CoreLogRecord) (retained dropped : ℕ)
    → n ≤ log_retention_max_bytes
    → length rs ≤ b.capacity
    → retained ≡ total_bytes rs
    → retained ≤ log_retention_max_bytes
    → dropped + length rs ≤ u64_max
    → Evicted n b rs dropped (evict n b rs retained dropped)
unfolding evict
evict-Evicted n b [] retained dropped small few sum fits total = record {
  capacity = refl;
  next_sequence = refl;
  room = inl refl;
  fits = omega arith;
  measured = sum;
  suffix = (0, refl, omega arith);
  counted = refl;
}
evict-Evicted n b (r ∷ rs) retained dropped small few sum fits total =
    elim (Bool-cases
      (length (r ∷ rs) == b.capacity || ltb log_retention_max_bytes (saturating_add retained n))) [
        | inl over ↦ rw over (
            Evicted-older n b r rs dropped _ (omega arith) (
              evict-Evicted n b rs (retained - length r.message) (saturating_add dropped 1) small
                (omega arith) (omega arith) (omega arith) (omega arith)))
        | inr fine ↦ rw fine (record {
          capacity = refl;
          next_sequence = refl;
          room = inr (ground (arith, fine));
          fits = ground (arith, fine);
          measured = sum;
          suffix = (0, refl, omega arith);
          counted = refl;
        })
      ]

Sequenced-drop :
    (k lo hi : ℕ) (rs : List CoreLogRecord) → Sequenced lo hi rs → Sequenced lo hi (drop k rs)
Sequenced-drop zero lo hi rs s = s
Sequenced-drop (suc k) lo hi [] s = s
Sequenced-drop (suc k) lo hi (r ∷ rs) s =
    Sequenced-drop k lo hi rs (Sequenced-later (suc r.sequence) lo hi rs (omega arith) s.1)

-- A record appended to what the eviction leaves of a valid buffer.
module _ (n : ℕ) (b : LogBuffer) (v : IsValid b) (fresh : b.next_sequence < u64_max)
    (b' : LogBuffer)
    (e : Evicted n (record b { next_sequence = b.next_sequence + 1 }) b.records b.dropped_total b')
    (r : CoreLogRecord) (long : length r.message ≡ n)
    (numbered : r.sequence ≡ b.next_sequence) where
  appended-Sequenced : Sequenced 1 (b.next_sequence + 1) (b'.records ++ r ∷ [])
  appended-Sequenced =
      let next : b.next_sequence + 1 ≡ suc b.next_sequence = omega arith in
      rw (next, e.suffix.1)
        (Sequenced-append 1 b.next_sequence (drop e.suffix.0 b.records) r numbered
          (Sequenced-drop e.suffix.0 1 b.next_sequence b.records v.sequenced))

  append_record-IsValid : IsValid (append_record r b')
  unfolding append_record
  append_record-IsValid = record {
    positive = omega (arith, v.positive, e.capacity);
    bounded = ground (arith, e.room, e.capacity, v.positive, length-append b'.records (r ∷ []));
    measured = omega (arith, e.fits, e.measured, long, total_bytes-append b'.records r);
    retained = omega (arith, e.fits, long);
    sequenced = rw e.next_sequence appended-Sequenced;
    accounted =
        omega (arith, e.next_sequence, e.counted, v.accounted, length-append b'.records (r ∷ []));
    representable = omega (arith, e.next_sequence, fresh);
  }

-- A message that is no longer than both limits is accepted unless the sequence is exhausted: it
-- gets the next sequence number and the last place, behind the records that are left after the
-- oldest ones have gone, each of which is counted as dropped.
pub push-accepted :
    (t : ℕ) (level : LogLevel) (source : LogSource) (message : List ℕ) (b : LogBuffer)
    → IsValid b
    → length message ≤ b.max_line_bytes
    → length message ≤ log_retention_max_bytes
    → b.next_sequence < u64_max
    → (b' : LogBuffer) × (k : ℕ) × (push t level source message b ≡ ok (b.next_sequence, b'))
      × IsValid b'
      × (b'.next_sequence ≡ b.next_sequence + 1)
      × (b'.dropped_total ≡ b.dropped_total + k)
      × (b'.records
          ≡ drop k b.records
            ++ record {
              sequence = b.next_sequence;
              timestamp_unix_ms = t;
              level = level;
              source = source;
              message = message;
            }
              ∷ [])
unfolding push
push-accepted t level source message b v short fits fresh =
    let grown = record b { next_sequence = b.next_sequence + 1 } in
    let room = evict (length message) grown b.records b.retained_bytes b.dropped_total in
    let e =
      evict-Evicted (length message) grown b.records b.retained_bytes b.dropped_total fits v.bounded
        v.measured v.retained (omega (arith, v.accounted, v.representable)) in
    let r : CoreLogRecord = record {
      sequence = b.next_sequence;
      timestamp_unix_ms = t;
      level = level;
      source = source;
      message = message;
    } in
    (
      append_record r room,
      e.suffix.0,
      ground arith,
      append_record-IsValid (length message) b v fresh room e r refl refl,
      unfold append_record in e.next_sequence,
      unfold append_record in e.suffix.2,
      unfold append_record in ap (λ rs. rs ++ r ∷ []) e.suffix.1,
    )

external_drop-IsValid :
    (count : ℕ) (b : LogBuffer)
    → IsValid b
    → b.next_sequence + count ≤ u64_max
    → IsValid (record b {
      next_sequence = b.next_sequence + count;
      dropped_total = saturating_add b.dropped_total count;
    })
external_drop-IsValid count b v fits = record {
  positive = v.positive;
  bounded = v.bounded;
  measured = v.measured;
  retained = v.retained;
  sequenced =
      Sequenced-higher 1 b.next_sequence (b.next_sequence + count) b.records (omega arith)
        v.sequenced;
  accounted = omega (arith, v.accounted);
  representable = fits;
}

push_accepts :
    (t : ℕ) (level : LogLevel) (source : LogSource) (message : List ℕ) (q : ℕ) (b b' : LogBuffer)
    → push t level source message b ≡ ok (q, b')
    → (length message ≤ b.max_line_bytes)
      × (length message ≤ log_retention_max_bytes)
      × (b.next_sequence < u64_max)
unfolding push
push_accepts t level source message q b b' h = ground arith

-- Every accepted message keeps the buffer valid.
pub push-IsValid :
    (t : ℕ) (level : LogLevel) (source : LogSource) (message : List ℕ) (q : ℕ) (b b' : LogBuffer)
    → IsValid b
    → push t level source message b ≡ ok (q, b')
    → IsValid b'
push-IsValid t level source message q b b' v h =
    let (short, fits, fresh) = push_accepts t level source message q b b' h in
    let all = push-accepted t level source message b v short fits fresh in
    let same : all.0 ≡ b' = cc (all.2, h) in rw same at all.3

-- So does a report of lines that were lost elsewhere.
pub record_external_drop-IsValid :
    (count : ℕ) (b b' : LogBuffer) → IsValid b → record_external_drop count b ≡ ok b' → IsValid b'
unfolding record_external_drop
record_external_drop-IsValid count b b' v h = elim (Bool-cases (count == 0)) [
  | inl nothing ↦ let same : b ≡ b' = cc (rw nothing at h) in rw same at v
  | inr lines ↦
      let fits : b.next_sequence + count ≤ u64_max = ground (arith, lines, h) in
      let same : record b {
        next_sequence = b.next_sequence + count;
        dropped_total = saturating_add b.dropped_total count;
      }
          ≡ b' =
        ground (arith, lines, h) in
      rw same at (external_drop-IsValid count b v fits)
]

-- A message is refused exactly when it is longer than one of the limits or the sequence is
-- exhausted.
pub push-refused :
    (t : ℕ) (level : LogLevel) (source : LogSource) (message : List ℕ) (b : LogBuffer)
    → IsValid b
    → ((e : TelemetryError) × (push t level source message b ≡ err e)) ↔ (
        (b.max_line_bytes < length message)
        ⊎ (log_retention_max_bytes < length message)
        ⊎ (b.next_sequence ≡ u64_max))
push-refused t level source message b v = (
  λ (e, h). unfold push in ground (arith, h, v.representable),
  λ why. elim (Result-cases (push t level source message b)) [
    | inr refused ↦ refused
    | inl ((q, b'), accepted) ↦
        let (short, fits, fresh) = push_accepts t level source message q b b' accepted in
        absurd (ground (arith, why, short, fits, fresh))
  ],
)
