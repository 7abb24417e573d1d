-- ===== src/Rule/Parse.antt =====
-- `parse_rule` of src/rule.rs with its four parsers. `logical_payload_end` counts code points.
pub mod RoundTrip
pub mod Logical
pub mod Regex
pub mod Stripping
use ratash.Common.{
  ℕ, suc, zero, ◌+◌, ◌-◌, Bool, true, false, not, ◌&&◌, ◌||◌, Option, none, some, List, [], ◌∷◌,
  ◌++◌, map, reverse, length, take, drop, ◌==◌, ltb, if◌then◌else◌,
}
use ratash.Common.Result.{Result, ok, err, ◌>>=◌}
use ratash.Common.Text.{
  Text, codes, same_text, byte_length, is_whitespace, trim_start, trim, split_once, rsplit_once,
  split, contains_char,
}
use ratash.Rule.Types.{
  RuleType, rule_and, rule_domain, rule_domain_keyword, rule_domain_regex, rule_domain_suffix,
  rule_domain_wildcard, rule_dscp, rule_dst_port, rule_geo_ip, rule_geosite, rule_in_name,
  rule_in_port, rule_in_type, rule_in_user, rule_ip_asn, rule_ip_cidr, rule_ip_cidr6,
  rule_ip_suffix, rule_match, rule_network, rule_not, rule_or, rule_process_name,
  rule_process_name_regex, rule_process_name_wildcard, rule_process_path, rule_process_path_regex,
  rule_process_path_wildcard, rule_rematch_name, rule_rule_set, rule_src_geo_ip, rule_src_ip_asn,
  rule_src_ip_cidr, rule_src_ip_suffix, rule_src_port, rule_sub_rule, rule_uid, RuleParseError,
  missing_rule_type, unsupported_rule_type, missing_payload, missing_policy_target,
  invalid_logical_payload, ParsedRule, parse_type,
}

abbrev pub comma : ℕ
comma = b','

pub data RuleStringError : Type 0 where
  too_large : ℕ → ℕ → RuleStringError

-- `RuleString::new`.
unfoldable pub rule_string : Text → ℕ → Result RuleStringError Text
rule_string value max_bytes =
    if ltb max_bytes (byte_length value)
    then err (too_large (byte_length value) max_bytes)
    else ok value

unfoldable pub required_field : Option Text → RuleParseError → Result RuleParseError Text
required_field none e = err e
required_field (some []) e = err e
required_field (some (c ∷ s)) e = ok (c ∷ s)

-- `fields.next()` and what the iterator has left.
unfoldable pub next_field : List Text → Option Text
next_field [] = none
next_field (field ∷ fields) = some field

unfoldable pub after_next : List Text → List Text
after_next [] = []
after_next (field ∷ fields) = fields

abbrev pub trimmed_fields : Text → List Text
trimmed_fields s = map trim (split comma s)

unfoldable pub parse_rule_without_payload :
    Text → RuleType → Text → Result RuleParseError ParsedRule
parse_rule_without_payload rule rule_type remainder = do
  let fields = trimmed_fields remainder
  policy_target ← required_field (next_field fields) (missing_policy_target rule_type)
  ok (record {
    original = rule;
    rule_type = rule_type;
    payload = none;
    policy_target = policy_target;
    params = after_next fields;
  })

unfoldable pub parse_standard_rule : Text → RuleType → Text → Result RuleParseError ParsedRule
parse_standard_rule rule rule_type remainder = do
  let fields = trimmed_fields remainder
  payload ← required_field (next_field fields) (missing_payload rule_type)
  policy_target ← required_field (next_field (after_next fields)) (missing_policy_target rule_type)
  ok (record {
    original = rule;
    rule_type = rule_type;
    payload = some payload;
    policy_target = policy_target;
    params = after_next (after_next fields);
  })

unfoldable pub is_rule_parameter : Text → Bool
is_rule_parameter value = same_text value (codes "no-resolve") || same_text value (codes "src")

-- The loop of `parse_regex_rule`: what is left of the text, and the parameters in the order in
-- which they are pushed. Every round but the last makes the text shorter.
unfoldable pub strip_params : ℕ → Text → List Text → Text × List Text
strip_params zero rule_and_target params = (rule_and_target, params)
strip_params (suc fuel) rule_and_target params = elim (rsplit_once comma rule_and_target) [
  | none ↦ (rule_and_target, params)
  | some (head, tail) ↦
      if not (is_rule_parameter (trim tail)) || not (contains_char comma head)
      then (rule_and_target, params)
      else strip_params fuel head (params ++ trim tail ∷ [])
]

-- `ok_or`.
unfoldable pub split_or_error :
    Option (Text × Text) → RuleParseError → Result RuleParseError (Text × Text)
split_or_error none e = err e
split_or_error (some parts) e = ok parts

unfoldable pub parse_regex_rule : Text → RuleType → Text → Result RuleParseError ParsedRule
parse_regex_rule rule rule_type remainder = do
  let stripped = strip_params (length remainder) remainder []
  parts ← split_or_error (rsplit_once comma stripped.0) (missing_policy_target rule_type)
  payload ← required_field (some (trim parts.0)) (missing_payload rule_type)
  policy_target ← required_field (some (trim parts.1)) (missing_policy_target rule_type)
  ok (record {
    original = rule;
    rule_type = rule_type;
    payload = some payload;
    policy_target = policy_target;
    params = reverse stripped.1;
  })

-- One round of the loop of `logical_payload_end`.
pub data ScanStep : Type 0 where
  refused : ScanStep
  closed : ScanStep
  scanning : ℕ → Bool → Bool → ScanStep

unfoldable pub scan_step : ℕ → Bool → Bool → ℕ → ScanStep
scan_step depth escaped in_character_class character =
    if escaped
    then scanning depth false in_character_class
    else if character == b'\\'
    then scanning depth true in_character_class
    else if character == b'['
    then scanning depth false true
    else if character == b']'
    then scanning depth false false
    else if in_character_class
    then scanning depth false true
    else if character == b'('
    then scanning (depth + 1) false false
    else if character == b')'
    then (if depth == 0
        then refused
        else if depth == 1
        then closed
        else scanning (depth - 1) false false)
    else if depth == 0 && not (is_whitespace character)
    then refused
    else scanning depth false false

unfoldable pub scan : ℕ → ScanStep → Text → Option ℕ
scan index refused value = none
scan index closed value = some index
scan index (scanning depth escaped in_character_class) [] = none
scan index (scanning depth escaped in_character_class) (character ∷ value) =
    scan (index + 1) (scan_step depth escaped in_character_class character) value

unfoldable pub logical_payload_end : Text → Option ℕ
logical_payload_end = scan 0 (scanning 0 false false)

unfoldable pub end_or_error : Option ℕ → RuleParseError → Result RuleParseError ℕ
end_or_error none e = err e
end_or_error (some index) e = ok index

-- `strip_prefix(',')`.
unfoldable pub strip_comma : Text → RuleParseError → Result RuleParseError Text
strip_comma [] e = err e
strip_comma (c ∷ s) e = if c == comma then ok s else err e

unfoldable pub parse_logical_rule : Text → RuleType → Text → Result RuleParseError ParsedRule
parse_logical_rule rule rule_type remainder = do
  let value = trim_start remainder
  payload_end ← end_or_error (logical_payload_end value) (invalid_logical_payload rule_type)
  tail ← strip_comma (trim_start (drop payload_end value)) (missing_policy_target rule_type)
  let fields = trimmed_fields tail
  policy_target ← required_field (next_field fields) (missing_policy_target rule_type)
  ok (record {
    original = rule;
    rule_type = rule_type;
    payload = some (trim (take payload_end value));
    policy_target = policy_target;
    params = after_next fields;
  })

-- The arms of the `match` of `parse_rule`.
unfoldable pub parse_typed : Text → RuleType → Text → Result RuleParseError ParsedRule
parse_typed rule rule_match remainder = parse_rule_without_payload rule rule_match remainder
parse_typed rule rule_and remainder = parse_logical_rule rule rule_and remainder
parse_typed rule rule_not remainder = parse_logical_rule rule rule_not remainder
parse_typed rule rule_or remainder = parse_logical_rule rule rule_or remainder
parse_typed rule rule_sub_rule remainder = parse_logical_rule rule rule_sub_rule remainder
parse_typed rule rule_domain_regex remainder = parse_regex_rule rule rule_domain_regex remainder
parse_typed rule rule_process_name_regex remainder =
    parse_regex_rule rule rule_process_name_regex remainder
parse_typed rule rule_process_path_regex remainder =
    parse_regex_rule rule rule_process_path_regex remainder
parse_typed rule rule_type remainder = parse_standard_rule rule rule_type remainder

unfoldable pub parse_parts : Text → Option (Text × Text) → Result RuleParseError ParsedRule
parse_parts rule none = do rule_type ← parse_type (trim rule); parse_typed rule rule_type []
parse_parts rule (some (head, remainder)) = do
  rule_type ← parse_type (trim head)
  parse_typed rule rule_type remainder

unfoldable pub parse_rule : Text → Result RuleParseError ParsedRule
parse_rule rule = parse_parts rule (split_once comma rule)
