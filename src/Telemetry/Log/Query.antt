-- ===== src/Telemetry/Log/Query.antt =====
-- `LogBuffer::query` of src/telemetry.rs. `str::to_lowercase` is a parameter: nothing about it is
-- assumed.
use ratash.Common.{
  ℕ, Bool, true, false, ◌&&◌, ◌||◌, Option, none, some, List, [], ◌∷◌, keep, leb, ◌==◌, is_none_or,
}
use ratash.Telemetry.Log.{CoreLogRecord, LogLevel, debug, info, warn, error, LogFilter, LogBuffer}

pub same_level : LogLevel → LogLevel → Bool
same_level debug debug = true
same_level info info = true
same_level warn warn = true
same_level error error = true
same_level _ _ = false

pub starts_with : List ℕ → List ℕ → Bool
starts_with [] text = true
starts_with (a ∷ needle) [] = false
starts_with (a ∷ needle) (b ∷ text) = a == b && starts_with needle text

-- `str::contains`.
pub contains_text : List ℕ → List ℕ → Bool
unfolding starts_with
contains_text needle [] = starts_with needle []
contains_text needle (b ∷ text) = starts_with needle (b ∷ text) || contains_text needle text

module _ (to_lowercase : List ℕ → List ℕ) where
  -- The four filters of `query`, in their order.
  pub query : LogFilter → LogBuffer → List CoreLogRecord
  query filter b =
      let needle : Option (List ℕ) = elim filter.contains [
        | none ↦ none
        | some value ↦ some (to_lowercase value)
      ] in
      keep (λ r. is_none_or needle (λ text. contains_text text (to_lowercase r.message)))
        (keep (λ r. is_none_or filter.until_unix_ms (λ until. leb r.timestamp_unix_ms until))
          (keep (λ r. is_none_or filter.since_unix_ms (λ since. leb since r.timestamp_unix_ms))
            (keep (λ r. is_none_or filter.level (λ level. same_level r.level level)) b.records)))
