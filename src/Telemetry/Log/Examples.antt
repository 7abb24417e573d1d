-- ===== src/Telemetry/Log/Examples.antt =====
-- Runs of the Core Log, and its theorems at concrete inputs.
use ratash.Common.{
  ℕ, ◌+◌, ◌≤◌, ◌≡◌, refl, false, some, none, List, [], ◌∷◌, ◌++◌, length, drop, arith,
}
use ratash.Common.Result.{ok}
use ratash.Constants.{log_tail_max_records, log_tail_max_bytes}
use ratash.Telemetry.Log.{
  LogBuffer, CoreLogRecord, info, stdout, push, evict, append_record, tail_after, collect_tail,
  encoded_record_upper_bound, sequence_has_gap, records_have_gap,
}
use ratash.Telemetry.Log.Retention.{IsValid, push-accepted, push-IsValid}
use ratash.Common.Text.{codes}
use ratash.Telemetry.Log.Size.{json_string, json_size, tail_after_bounds}
use ratash.Telemetry.Log.Delivery.{Contiguous, tail_after-no_gap, tail_after-whole}

-- A full buffer of two records, the first of which goes when a third comes.
abbrev pub line_of : ℕ → List ℕ → CoreLogRecord
line_of n message = record {
  sequence = n;
  timestamp_unix_ms = 100;
  level = info;
  source = stdout;
  message = message;
}

abbrev pub full : LogBuffer
full = record {
  capacity = 2;
  max_line_bytes = 8;
  next_sequence = 3;
  dropped_total = 0;
  retained_bytes = 3;
  records = line_of 1 (65 ∷ []) ∷ line_of 2 (66 ∷ 67 ∷ []) ∷ [];
}

pub full-IsValid : IsValid full
full-IsValid = record {
  positive = omega arith;
  bounded = omega arith;
  measured = refl;
  retained = omega arith;
  sequenced = omega arith;
  accounted = refl;
  representable = omega arith;
}

abbrev rolled : LogBuffer
rolled = record full {
  next_sequence = 4;
  dropped_total = 1;
  retained_bytes = 2;
  records = line_of 2 (66 ∷ 67 ∷ []) ∷ line_of 3 [] ∷ [];
}

rolled-push : push 100 info stdout [] full ≡ ok (3, rolled)
unfolding push evict append_record
rolled-push = refl

rolled-IsValid : IsValid rolled
rolled-IsValid = push-IsValid 100 info stdout [] 3 full rolled full-IsValid rolled-push

push-accepted_example :
    (b' : LogBuffer) × (k : ℕ) × (push 100 info stdout [] full ≡ ok (3, b'))
    × IsValid b'
    × (b'.next_sequence ≡ 4)
    × (b'.dropped_total ≡ 0 + k)
    × (b'.records ≡ drop k full.records ++ line_of 3 [] ∷ [])
push-accepted_example =
    push-accepted 100 info stdout [] full full-IsValid (omega arith) (omega arith) (omega arith)

-- A bell, a quotation mark and a letter.
abbrev controls : LogBuffer
controls = record full {
  records = line_of 1 (7 ∷ 34 ∷ 65 ∷ []) ∷ line_of 2 (10 ∷ []) ∷ [];
  retained_bytes = 4;
}

controls_string : json_string (7 ∷ 34 ∷ 65 ∷ []) ≡ codes "\"\\u0007\\\"A\""
controls_string = refl

rolled_tail : (tail_after (some 1) rolled).gap ≡ false
unfolding tail_after collect_tail encoded_record_upper_bound sequence_has_gap
rolled_tail = refl

tail_after-no_gap_example : Contiguous 2 4 (tail_after (some 1) rolled).records
tail_after-no_gap_example = tail_after-no_gap 1 rolled rolled-IsValid (omega arith) rolled_tail

full_tail : (tail_after none full).gap ≡ false
unfolding tail_after collect_tail encoded_record_upper_bound records_have_gap
full_tail = refl

tail_after-whole_example :
    ((tail_after none full).records ≡ full.records)
    × (full.dropped_total ≡ 0)
    × Contiguous 1 3 (tail_after none full).records
tail_after-whole_example = tail_after-whole full full-IsValid full_tail

tail_after_bounds_example :
    (length (tail_after none controls).records ≤ log_tail_max_records)
    × (512 + json_size (tail_after none controls).records ≤ log_tail_max_bytes)
tail_after_bounds_example = tail_after_bounds none controls
