-- ===== src/Profile/Snapshot.antt =====
-- `ProfileSnapshot` of src/profile.rs. The YAML reader and SHA-256 are parameters; `Value` has the
-- constructors of the YAML values that the reader returns.
pub mod Parsed
use ratash.Common.{
  ℕ, ◌+◌, ◌≤◌, max, ◌≡◌, sym, ap, ◌∙◌, Bool, false, ◌&&◌, Option, none, some, List, [], ◌∷◌, length,
  arith, ◌==◌, ltb, if◌then◌else◌, Bool-cases, inl, inr,
}
use ratash.Common.Result.{Result, ok, err, ◌>>=◌, bind-ok, ok-injective}
use ratash.Common.Text.{Text, codes, same_text}

mutual
  pub data Value : Type 0 where
    null : Value
    boolean : Bool → Value
    number : Text → Value
    string : Text → Value
    sequence : Values → Value
    mapping : Mapping → Value
    tagged : Text → Value → Value

  pub data Values : Type 0 where
    no_values : Values
    value_and : Value → Values → Values

  pub data Mapping : Type 0 where
    no_entries : Mapping
    entry_and : Value → Value → Mapping → Mapping

pub record SnapshotLimits : Type 0 where
  pub max_bytes : ℕ
  pub max_depth : ℕ

pub data SnapshotError : Type 0 where
  body_too_large : ℕ → SnapshotError
  invalid_yaml : SnapshotError
  top_level_mapping_required : SnapshotError
  depth_exceeded : ℕ → SnapshotError
  rules_sequence_required : SnapshotError
  rule_string_required : ℕ → SnapshotError

pub record ProfileSnapshot : Type 0 where
  pub raw : List ℕ
  pub document : Mapping
  pub rule_strings : List Text
  pub content_sha256 : Text

-- `yaml_depth`, with the two maxima over the members.
unfoldable mutual
  pub yaml_depth : Value → ℕ
  yaml_depth (sequence values) = 1 + values_depth values
  yaml_depth (mapping entries) = 1 + entries_depth entries
  yaml_depth (tagged tag value) = 1 + yaml_depth value
  yaml_depth _ = 1

  pub values_depth : Values → ℕ
  values_depth no_values = 0
  values_depth (value_and value values) = max (yaml_depth value) (values_depth values)

  pub entries_depth : Mapping → ℕ
  entries_depth no_entries = 0
  entries_depth (entry_and key value entries) =
      max (max (yaml_depth key) (yaml_depth value)) (entries_depth entries)

unfoldable pub is_key : Text → Value → Bool
is_key name (string key) = same_text key name
is_key name _ = false

-- `document.get`.
unfoldable pub entry_of : Text → Mapping → Option Value
entry_of name no_entries = none
entry_of name (entry_and key value entries) =
    let rest = entry_of name entries in if is_key name key then some value else rest

-- The `collect` of `extract_rules`.
unfoldable pub string_rules : ℕ → Values → Result SnapshotError (List Text)
string_rules index no_values = ok []
string_rules index (value_and (string rule) rest) = do
  rules ← string_rules (index + 1) rest
  ok (rule ∷ rules)
string_rules index (value_and _ rest) = err (rule_string_required index)

unfoldable pub rules_of : Option Value → Result SnapshotError (List Text)
rules_of none = ok []
rules_of (some (sequence rules)) = string_rules 0 rules
rules_of (some _) = err rules_sequence_required

unfoldable pub extract_rules : Mapping → Result SnapshotError (List Text)
extract_rules document = rules_of (entry_of (codes "rules") document)

-- `strip_prefix` of the byte order mark.
unfoldable pub without_mark : List ℕ → List ℕ
without_mark (a ∷ b ∷ d ∷ raw) =
    if a == 0xef && (b == 0xbb && d == 0xbf) then raw else a ∷ b ∷ d ∷ raw
without_mark raw = raw

unfoldable pub yaml_or_error : Option Value → Result SnapshotError Value
yaml_or_error none = err invalid_yaml
yaml_or_error (some value) = ok value

unfoldable pub mapping_or_error : Value → Result SnapshotError Mapping
mapping_or_error (mapping document) = ok document
mapping_or_error _ = err top_level_mapping_required

module _ (from_slice : List ℕ → Option Value) (sha256_hex : List ℕ → Text) where
  unfoldable pub parse : List ℕ → SnapshotLimits → Result SnapshotError ProfileSnapshot
  parse raw limits =
      if ltb limits.max_bytes (length raw) then err (body_too_large limits.max_bytes) else (do
        value ← yaml_or_error (from_slice (without_mark raw))
        if ltb limits.max_depth (yaml_depth value)
            then err (depth_exceeded limits.max_depth)
            else (do
              document ← mapping_or_error value
              rule_strings ← extract_rules document
              ok (record {
                raw = raw;
                document = document;
                rule_strings = rule_strings;
                content_sha256 = sha256_hex raw;
              })))
