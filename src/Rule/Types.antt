-- ===== src/Rule/Types.antt =====
-- `RuleType` and the records of src/rule.rs. A `RuleString` is its text.
use ratash.Common.{◌≡◌, refl, Option, none, some, List, [], ◌∷◌, if◌then◌else◌}
use ratash.Common.Result.{Result, ok, err}
use ratash.Common.Text.{Text, codes, same_text}

pub data RuleType : Type 0 where
  rule_and : RuleType
  rule_domain : RuleType
  rule_domain_keyword : RuleType
  rule_domain_regex : RuleType
  rule_domain_suffix : RuleType
  rule_domain_wildcard : RuleType
  rule_dscp : RuleType
  rule_dst_port : RuleType
  rule_geo_ip : RuleType
  rule_geosite : RuleType
  rule_in_name : RuleType
  rule_in_port : RuleType
  rule_in_type : RuleType
  rule_in_user : RuleType
  rule_ip_asn : RuleType
  rule_ip_cidr : RuleType
  rule_ip_cidr6 : RuleType
  rule_ip_suffix : RuleType
  rule_match : RuleType
  rule_network : RuleType
  rule_not : RuleType
  rule_or : RuleType
  rule_process_name : RuleType
  rule_process_name_regex : RuleType
  rule_process_name_wildcard : RuleType
  rule_process_path : RuleType
  rule_process_path_regex : RuleType
  rule_process_path_wildcard : RuleType
  rule_rematch_name : RuleType
  rule_rule_set : RuleType
  rule_src_geo_ip : RuleType
  rule_src_ip_asn : RuleType
  rule_src_ip_cidr : RuleType
  rule_src_ip_suffix : RuleType
  rule_src_port : RuleType
  rule_sub_rule : RuleType
  rule_uid : RuleType

pub data RuleParseError : Type 0 where
  missing_rule_type : RuleParseError
  unsupported_rule_type : Text → RuleParseError
  missing_payload : RuleType → RuleParseError
  missing_policy_target : RuleType → RuleParseError
  invalid_logical_payload : RuleType → RuleParseError

pub record ParsedRule : Type 0 where
  pub original : Text
  pub rule_type : RuleType
  pub payload : Option Text
  pub policy_target : Text
  pub params : List Text

unfoldable pub as_str : RuleType → Text
as_str rule_and = codes "AND"
as_str rule_domain = codes "DOMAIN"
as_str rule_domain_keyword = codes "DOMAIN-KEYWORD"
as_str rule_domain_regex = codes "DOMAIN-REGEX"
as_str rule_domain_suffix = codes "DOMAIN-SUFFIX"
as_str rule_domain_wildcard = codes "DOMAIN-WILDCARD"
as_str rule_dscp = codes "DSCP"
as_str rule_dst_port = codes "DST-PORT"
as_str rule_geo_ip = codes "GEOIP"
as_str rule_geosite = codes "GEOSITE"
as_str rule_in_name = codes "IN-NAME"
as_str rule_in_port = codes "IN-PORT"
as_str rule_in_type = codes "IN-TYPE"
as_str rule_in_user = codes "IN-USER"
as_str rule_ip_asn = codes "IP-ASN"
as_str rule_ip_cidr = codes "IP-CIDR"
as_str rule_ip_cidr6 = codes "IP-CIDR6"
as_str rule_ip_suffix = codes "IP-SUFFIX"
as_str rule_match = codes "MATCH"
as_str rule_network = codes "NETWORK"
as_str rule_not = codes "NOT"
as_str rule_or = codes "OR"
as_str rule_process_name = codes "PROCESS-NAME"
as_str rule_process_name_regex = codes "PROCESS-NAME-REGEX"
as_str rule_process_name_wildcard = codes "PROCESS-NAME-WILDCARD"
as_str rule_process_path = codes "PROCESS-PATH"
as_str rule_process_path_regex = codes "PROCESS-PATH-REGEX"
as_str rule_process_path_wildcard = codes "PROCESS-PATH-WILDCARD"
as_str rule_rematch_name = codes "REMATCH-NAME"
as_str rule_rule_set = codes "RULE-SET"
as_str rule_src_geo_ip = codes "SRC-GEOIP"
as_str rule_src_ip_asn = codes "SRC-IP-ASN"
as_str rule_src_ip_cidr = codes "SRC-IP-CIDR"
as_str rule_src_ip_suffix = codes "SRC-IP-SUFFIX"
as_str rule_src_port = codes "SRC-PORT"
as_str rule_sub_rule = codes "SUB-RULE"
as_str rule_uid = codes "UID"

-- The arms of the `match` of `RuleType::parse`, in their order.
unfoldable pub type_arms : List (Text × RuleType)
type_arms =
    (codes "AND", rule_and)
    ∷ (codes "DOMAIN", rule_domain)
    ∷ (codes "DOMAIN-KEYWORD", rule_domain_keyword)
    ∷ (codes "DOMAIN-REGEX", rule_domain_regex)
    ∷ (codes "DOMAIN-SUFFIX", rule_domain_suffix)
    ∷ (codes "DOMAIN-WILDCARD", rule_domain_wildcard)
    ∷ (codes "DSCP", rule_dscp)
    ∷ (codes "DST-PORT", rule_dst_port)
    ∷ (codes "GEOIP", rule_geo_ip)
    ∷ (codes "GEOSITE", rule_geosite)
    ∷ (codes "IN-NAME", rule_in_name)
    ∷ (codes "IN-PORT", rule_in_port)
    ∷ (codes "IN-TYPE", rule_in_type)
    ∷ (codes "IN-USER", rule_in_user)
    ∷ (codes "IP-ASN", rule_ip_asn)
    ∷ (codes "IP-CIDR", rule_ip_cidr)
    ∷ (codes "IP-CIDR6", rule_ip_cidr6)
    ∷ (codes "IP-SUFFIX", rule_ip_suffix)
    ∷ (codes "MATCH", rule_match)
    ∷ (codes "NETWORK", rule_network)
    ∷ (codes "NOT", rule_not)
    ∷ (codes "OR", rule_or)
    ∷ (codes "PROCESS-NAME", rule_process_name)
    ∷ (codes "PROCESS-NAME-REGEX", rule_process_name_regex)
    ∷ (codes "PROCESS-NAME-WILDCARD", rule_process_name_wildcard)
    ∷ (codes "PROCESS-PATH", rule_process_path)
    ∷ (codes "PROCESS-PATH-REGEX", rule_process_path_regex)
    ∷ (codes "PROCESS-PATH-WILDCARD", rule_process_path_wildcard)
    ∷ (codes "REMATCH-NAME", rule_rematch_name)
    ∷ (codes "RULE-SET", rule_rule_set)
    ∷ (codes "SRC-GEOIP", rule_src_geo_ip)
    ∷ (codes "SRC-IP-ASN", rule_src_ip_asn)
    ∷ (codes "SRC-IP-CIDR", rule_src_ip_cidr)
    ∷ (codes "SRC-IP-SUFFIX", rule_src_ip_suffix)
    ∷ (codes "SRC-PORT", rule_src_port)
    ∷ (codes "SUB-RULE", rule_sub_rule)
    ∷ (codes "UID", rule_uid)
    ∷ []

unfoldable pub find_arm : Text → List (Text × RuleType) → Option RuleType
find_arm value [] = none
find_arm value ((name, rule_type) ∷ arms) =
    let rest = find_arm value arms in if same_text value name then some rule_type else rest

unfoldable pub type_or_error : Text → Option RuleType → Result RuleParseError RuleType
type_or_error value (some rule_type) = ok rule_type
type_or_error [] none = err missing_rule_type
type_or_error value none = err (unsupported_rule_type value)

unfoldable pub parse_type : Text → Result RuleParseError RuleType
unfolding type_arms find_arm type_or_error
parse_type value = type_or_error value (find_arm value type_arms)

-- The name of every rule type is read back as that type.
pub parse_type-as_str : (t : RuleType) → parse_type (as_str t) ≡ ok t
unfolding parse_type as_str type_arms find_arm type_or_error
parse_type-as_str rule_and = refl
parse_type-as_str rule_domain = refl
parse_type-as_str rule_domain_keyword = refl
parse_type-as_str rule_domain_regex = refl
parse_type-as_str rule_domain_suffix = refl
parse_type-as_str rule_domain_wildcard = refl
parse_type-as_str rule_dscp = refl
parse_type-as_str rule_dst_port = refl
parse_type-as_str rule_geo_ip = refl
parse_type-as_str rule_geosite = refl
parse_type-as_str rule_in_name = refl
parse_type-as_str rule_in_port = refl
parse_type-as_str rule_in_type = refl
parse_type-as_str rule_in_user = refl
parse_type-as_str rule_ip_asn = refl
parse_type-as_str rule_ip_cidr = refl
parse_type-as_str rule_ip_cidr6 = refl
parse_type-as_str rule_ip_suffix = refl
parse_type-as_str rule_match = refl
parse_type-as_str rule_network = refl
parse_type-as_str rule_not = refl
parse_type-as_str rule_or = refl
parse_type-as_str rule_process_name = refl
parse_type-as_str rule_process_name_regex = refl
parse_type-as_str rule_process_name_wildcard = refl
parse_type-as_str rule_process_path = refl
parse_type-as_str rule_process_path_regex = refl
parse_type-as_str rule_process_path_wildcard = refl
parse_type-as_str rule_rematch_name = refl
parse_type-as_str rule_rule_set = refl
parse_type-as_str rule_src_geo_ip = refl
parse_type-as_str rule_src_ip_asn = refl
parse_type-as_str rule_src_ip_cidr = refl
parse_type-as_str rule_src_ip_suffix = refl
parse_type-as_str rule_src_port = refl
parse_type-as_str rule_sub_rule = refl
parse_type-as_str rule_uid = refl
