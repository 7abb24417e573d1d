-- ===== src/Telemetry/Log/Size.antt =====
-- The size of a delivery of `tail_after` (src/telemetry.rs) against the JSON that it is sent as.
use ratash.Common.{
  ℕ, ◌+◌, ◌≤◌, ◌<◌, ◌≡◌, inl, inr, ◌||◌, Option, List, [], ◌∷◌, ◌++◌, length, length-append, keep,
  reverse, arith, ltb, ◌==◌, Bool-cases, if◌then◌else◌, u64_max, ◌/◌, ◌%◌, saturating_add,
}
use ratash.Constants.{log_tail_max_records, log_tail_max_bytes}
use ratash.Telemetry.Log.{
  CoreLogRecord, LogBuffer, log_tail_envelope_max_bytes, encoded_byte, encoded_from,
  encoded_json_string_bytes, encoded_record_upper_bound, collect_tail, is_after, tail_after,
}

abbrev pub hex_digit : ℕ → ℕ
hex_digit n = if ltb n 10 then 48 + n else 87 + n

-- A control character without a short escape: `\u00` and two digits.
abbrev pub unicode_escape : ℕ → List ℕ
unicode_escape b = 92 ∷ 117 ∷ 48 ∷ 48 ∷ hex_digit (b / 16) ∷ hex_digit (b % 16) ∷ []

-- A byte of a string in JSON, as RFC 8259 has it: a quotation mark and a backslash with a backslash
-- before them, the control characters by their short escape where they have one, and any other
-- byte as it is.
abbrev pub json_byte : ℕ → List ℕ
json_byte b =
    if b == 34
    then 92 ∷ 34 ∷ []
    else if b == 92
    then 92 ∷ 92 ∷ []
    else if b == 8
    then 92 ∷ 98 ∷ []
    else if b == 9
    then 92 ∷ 116 ∷ []
    else if b == 10
    then 92 ∷ 110 ∷ []
    else if b == 12
    then 92 ∷ 102 ∷ []
    else if b == 13
    then 92 ∷ 114 ∷ []
    else if ltb b 32
    then unicode_escape b
    else b ∷ []

abbrev pub json_bytes : List ℕ → List ℕ
json_bytes [] = []
json_bytes (b ∷ bytes) = json_byte b ++ json_bytes bytes

-- A string in JSON, between its quotation marks.
abbrev pub json_string : List ℕ → List ℕ
json_string text = 34 ∷ json_bytes text ++ 34 ∷ []

-- What the records take: the JSON of their messages, and 256 bytes for the rest of each.
abbrev pub json_size : List CoreLogRecord → ℕ
json_size [] = 0
json_size (r ∷ rs) = 256 + length (json_string r.message) + json_size rs

length-json_byte : (b : ℕ) → length (json_byte b) ≡ encoded_byte b
unfolding encoded_byte
length-json_byte b = ground arith

-- A fold that ends below the largest `usize` has not saturated: it is exact.
encoded_from-length :
    (bytes : List ℕ) (encoded : ℕ)
    → encoded_from encoded bytes < u64_max
    → encoded_from encoded bytes ≡ encoded + length (json_bytes bytes)
unfolding encoded_from
encoded_from-length [] encoded small = omega arith
encoded_from-length (b ∷ bytes) encoded small =
    let whole = encoded_from-length bytes (saturating_add encoded (encoded_byte b)) small in
    omega (arith, whole, small, length-json_byte b, length-append (json_byte b) (json_bytes bytes))

encoded_record-length :
    (r : CoreLogRecord)
    → encoded_record_upper_bound r < u64_max
    → encoded_record_upper_bound r ≡ 256 + length (json_string r.message)
unfolding encoded_record_upper_bound encoded_json_string_bytes
encoded_record-length r small = omega (
  arith,
  small,
  encoded_from-length r.message 2 (omega (arith, small)),
  length-append (json_bytes r.message) (34 ∷ []),
)

collect_tail_bounds :
    (rs acc : List CoreLogRecord) (bytes : ℕ)
    → length acc ≤ log_tail_max_records
    → bytes ≡ 512 + json_size acc
    → bytes ≤ log_tail_max_bytes
    → (length (collect_tail rs bytes acc).0 ≤ log_tail_max_records)
      × (512 + json_size (collect_tail rs bytes acc).0 ≤ log_tail_max_bytes)
unfolding collect_tail
collect_tail_bounds [] acc bytes few sum fits = (few, omega arith)
collect_tail_bounds (r ∷ rs) acc bytes few sum fits =
    let delivered = saturating_add bytes (encoded_record_upper_bound r) in
    elim (Bool-cases (length acc == log_tail_max_records || ltb log_tail_max_bytes delivered)) [
      | inl stop ↦ rw stop (few, omega arith)
      | inr more ↦
          let small : encoded_record_upper_bound r < u64_max = ground (arith, more) in
          let size = encoded_record-length r small in
          rw more (
            collect_tail_bounds rs (r ∷ acc) delivered (ground (arith, more))
              (ground (arith, more, size)) (ground (arith, more)))
    ]

-- Whatever the buffer holds, a tail has at most the limit of records, and the JSON of their
-- messages, every control character of them escaped, stays within the limit of bytes together with
-- 256 bytes for the rest of each record and 512 for the envelope.
pub tail_after_bounds :
    (after : Option ℕ) (b : LogBuffer)
    → (length (tail_after after b).records ≤ log_tail_max_records)
      × (512 + json_size (tail_after after b).records ≤ log_tail_max_bytes)
unfolding tail_after
tail_after_bounds after b =
    collect_tail_bounds (keep (is_after after) (reverse b.records)) [] log_tail_envelope_max_bytes
      (omega arith) (omega arith) (omega arith)
