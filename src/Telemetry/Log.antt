-- ===== src/Telemetry/Log.antt =====
-- `LogBuffer` of src/telemetry.rs. A message is the list of its bytes in UTF-8, and a `VecDeque`
-- is a list whose head is the front.
pub mod Retention
pub mod Delivery
pub mod Size
pub mod Query
pub mod Examples
use ratash.Common.{
  ℕ, zero, suc, ◌+◌, ◌-◌, Bool, true, false, not, ◌&&◌, ◌||◌, Option, none, some, List, [], ◌∷◌,
  ◌++◌, length, keep, reverse, is_none_or, ltb, leb, ◌==◌, if◌then◌else◌, saturating_add,
  checked_add,
}
use ratash.Common.Result.{Result, ok, err, ◌>>=◌}
use ratash.Constants.{log_retention_max_bytes, log_tail_max_records, log_tail_max_bytes}

abbrev pub log_tail_envelope_max_bytes : ℕ
log_tail_envelope_max_bytes = 512

abbrev pub log_record_fixed_max_bytes : ℕ
log_record_fixed_max_bytes = 256

pub data LogLevel : Type 0 where
  debug info warn error : LogLevel

pub data LogSource : Type 0 where
  core_api stdout stderr : LogSource

pub record CoreLogRecord : Type 0 where
  pub sequence : ℕ
  pub timestamp_unix_ms : ℕ
  pub level : LogLevel
  pub source : LogSource
  pub message : List ℕ

pub record LogFilter : Type 0 where
  pub level : Option LogLevel
  pub contains : Option (List ℕ)
  pub since_unix_ms : Option ℕ
  pub until_unix_ms : Option ℕ

pub record LogTail : Type 0 where
  pub records : List CoreLogRecord
  pub dropped_total : ℕ
  pub gap : Bool
  pub earliest_sequence : Option ℕ
  pub latest_sequence : Option ℕ
  pub sequence_horizon : Option ℕ

pub data TelemetryError : Type 0 where
  invalid_limit : TelemetryError
  log_line_too_large : ℕ → TelemetryError
  sequence_exhausted : TelemetryError

pub record LogBuffer : Type 0 where
  pub capacity : ℕ
  pub max_line_bytes : ℕ
  pub next_sequence : ℕ
  pub dropped_total : ℕ
  pub retained_bytes : ℕ
  pub records : List CoreLogRecord

unfoldable pub new : ℕ → ℕ → Result TelemetryError LogBuffer
new capacity max_line_bytes =
    if capacity == 0 || max_line_bytes == 0
    then err invalid_limit
    else ok (record {
      capacity = capacity;
      max_line_bytes = max_line_bytes;
      next_sequence = 1;
      dropped_total = 0;
      retained_bytes = 0;
      records = [];
    })

-- `checked_add` with `ok_or(SequenceExhausted)`.
abbrev pub advance : ℕ → ℕ → Result TelemetryError ℕ
advance sequence count = elim (checked_add sequence count) [
  | none ↦ err sequence_exhausted
  | some next ↦ ok next
]

-- The `while` loop of `push`: the oldest records leave until the new message fits, or none is left.
pub evict : ℕ → LogBuffer → List CoreLogRecord → ℕ → ℕ → LogBuffer
evict message_len b [] retained_bytes dropped_total = record b {
  dropped_total = dropped_total;
  retained_bytes = retained_bytes;
  records = [];
}
evict message_len b (oldest ∷ records) retained_bytes dropped_total =
    let rest =
      evict message_len b records (retained_bytes - length oldest.message)
        (saturating_add dropped_total 1) in
    if length (oldest ∷ records) == b.capacity
      || ltb log_retention_max_bytes (saturating_add retained_bytes message_len)
    then rest
    else record b {
      dropped_total = dropped_total;
      retained_bytes = retained_bytes;
      records = oldest ∷ records;
    }

-- The end of `push`: the new record goes to the back.
pub append_record : CoreLogRecord → LogBuffer → LogBuffer
append_record r b = record b {
  retained_bytes = saturating_add b.retained_bytes (length r.message);
  records = b.records ++ r ∷ [];
}

pub push : ℕ → LogLevel → LogSource → List ℕ → LogBuffer → Result TelemetryError (ℕ × LogBuffer)
unfolding append_record
push timestamp_unix_ms level source message b =
    if ltb b.max_line_bytes (length message)
    then err (log_line_too_large b.max_line_bytes)
    else if ltb log_retention_max_bytes (length message)
    then err (log_line_too_large log_retention_max_bytes)
    else (do
      next ← advance b.next_sequence 1
      let room =
          evict (length message) (record b { next_sequence = next }) b.records b.retained_bytes
            b.dropped_total
      ok (
        b.next_sequence,
        append_record
            (record {
              sequence = b.next_sequence;
              timestamp_unix_ms = timestamp_unix_ms;
              level = level;
              source = source;
              message = message;
            })
            room,
      ))

pub record_external_drop : ℕ → LogBuffer → Result TelemetryError LogBuffer
record_external_drop count b = if count == 0 then ok b else (do
  next ← advance b.next_sequence count
  ok (record b { next_sequence = next; dropped_total = saturating_add b.dropped_total count }))

-- The number of bytes that one byte of a text takes in JSON.
pub encoded_byte : ℕ → ℕ
encoded_byte byte =
    if byte == 0x22
      || byte == 0x5c
      || byte == 0x08
      || byte == 0x09
      || byte == 0x0a
      || byte == 0x0c
      || byte == 0x0d
    then 2
    else if leb byte 0x1f
    then 6
    else 1

-- The fold of `encoded_json_string_bytes`.
pub encoded_from : ℕ → List ℕ → ℕ
unfolding encoded_byte
encoded_from encoded [] = encoded
encoded_from encoded (byte ∷ bytes) =
    encoded_from (saturating_add encoded (encoded_byte byte)) bytes

pub encoded_json_string_bytes : List ℕ → ℕ
unfolding encoded_from
encoded_json_string_bytes value = encoded_from 2 value

pub encoded_record_upper_bound : CoreLogRecord → ℕ
unfolding encoded_json_string_bytes
encoded_record_upper_bound r =
    saturating_add log_record_fixed_max_bytes (encoded_json_string_bytes r.message)

pub records_have_gap : List CoreLogRecord → Bool
records_have_gap [] = false
records_have_gap (a ∷ []) = false
records_have_gap (a ∷ b ∷ records) =
    is_none_or (checked_add a.sequence 1) (λ expected. not (b.sequence == expected))
    || records_have_gap (b ∷ records)

-- The loop of `sequence_has_gap`, and its last comparison.
pub gap_from : ℕ → List CoreLogRecord → ℕ → Bool
gap_from expected [] next_sequence = ltb expected next_sequence
gap_from expected (r ∷ records) next_sequence =
    let rest = gap_from (saturating_add r.sequence 1) records next_sequence in
    if ltb expected r.sequence then true else rest

pub sequence_has_gap : ℕ → List CoreLogRecord → ℕ → Bool
unfolding gap_from
sequence_has_gap after records next_sequence = elim (checked_add after 1) [
  | none ↦ false
  | some expected ↦ gap_from expected records next_sequence
]

-- The loop of `tail_after` over the records from the newest on. The records are pushed at one end
-- and reversed afterwards: here each goes to the front. The second result is `truncated`.
pub collect_tail : List CoreLogRecord → ℕ → List CoreLogRecord → List CoreLogRecord × Bool
collect_tail [] delivery_bytes records = (records, false)
collect_tail (r ∷ older) delivery_bytes records =
    let delivered = saturating_add delivery_bytes (encoded_record_upper_bound r) in
    let rest = collect_tail older delivered (r ∷ records) in
    if length records == log_tail_max_records || ltb log_tail_max_bytes delivered
    then (records, true)
    else rest

pub first_sequence : List CoreLogRecord → Option ℕ
first_sequence [] = none
first_sequence (r ∷ records) = some r.sequence

pub last_sequence : List CoreLogRecord → Option ℕ
last_sequence [] = none
last_sequence (r ∷ []) = some r.sequence
last_sequence (r ∷ s ∷ records) = last_sequence (s ∷ records)

-- `Option::or`.
abbrev pub or_else : Option ℕ → Option ℕ → Option ℕ
or_else (some a) o = some a
or_else none o = o

abbrev pub is_after : Option ℕ → CoreLogRecord → Bool
is_after after_sequence r = is_none_or after_sequence (λ after. ltb after r.sequence)

pub gap_after : Option ℕ → List CoreLogRecord → LogBuffer → Bool
gap_after none records b = ltb 0 b.dropped_total || records_have_gap records
gap_after (some after) records b = sequence_has_gap after records b.next_sequence

pub tail_after : Option ℕ → LogBuffer → LogTail
unfolding first_sequence last_sequence gap_after
tail_after after_sequence b =
    let retained_earliest_sequence = first_sequence b.records in
    let (records, truncated) =
      collect_tail (keep (is_after after_sequence) (reverse b.records)) log_tail_envelope_max_bytes
        [] in
    record {
      records = records;
      dropped_total = b.dropped_total;
      gap = truncated || gap_after after_sequence records b;
      earliest_sequence =
          (if truncated
            then or_else (first_sequence records) retained_earliest_sequence
            else retained_earliest_sequence);
      latest_sequence = last_sequence b.records;
      sequence_horizon = (if ltb 1 b.next_sequence then some (b.next_sequence - 1) else none);
    }
