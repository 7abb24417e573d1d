-- ===== src/Rule/Parse/RoundTrip.antt =====
-- `parse_rule` of src/rule.rs on texts that are put together from their parts.
use ratash.Common.{◌≡◌, ◌≢◌, refl, ap, ◌∙◌, some, List, [], ◌∷◌, ◌++◌, map, arith, All}
use ratash.Common.Result.{Result, ok}
use ratash.Common.Text.{
  Text, trim, trim_start, is_whitespace, split_once-Lacks, split, split-joined, joined, Lacks,
}
use ratash.Rule.Types.{
  RuleType, rule_and, rule_domain, rule_domain_keyword, rule_domain_regex, rule_domain_suffix,
  rule_domain_wildcard, rule_dscp, rule_dst_port, rule_geo_ip, rule_geosite, rule_in_name,
  rule_in_port, rule_in_type, rule_in_user, rule_ip_asn, rule_ip_cidr, rule_ip_cidr6,
  rule_ip_suffix, rule_match, rule_network, rule_not, rule_or, rule_process_name,
  rule_process_name_regex, rule_process_name_wildcard, rule_process_path, rule_process_path_regex,
  rule_process_path_wildcard, rule_rematch_name, rule_rule_set, rule_src_geo_ip, rule_src_ip_asn,
  rule_src_ip_cidr, rule_src_ip_suffix, rule_src_port, rule_sub_rule, rule_uid, RuleParseError,
  ParsedRule, as_str, parse_type-as_str,
}
use ratash.Rule.Parse.{
  comma, required_field, next_field, after_next, parse_rule_without_payload, parse_standard_rule,
  parse_logical_rule, parse_regex_rule, parse_typed, parse_parts, parse_rule,
}

-- How a rule of a type is read after its name.
pub data Shape : Type 0 where
  without : Shape
  standard : Shape
  logical : Shape
  regex : Shape

unfoldable pub shape : RuleType → Shape
shape rule_match = without
shape rule_and = logical
shape rule_not = logical
shape rule_or = logical
shape rule_sub_rule = logical
shape rule_domain_regex = regex
shape rule_process_name_regex = regex
shape rule_process_path_regex = regex
shape _ = standard

unfoldable pub parse_shape : Shape → Text → RuleType → Text → Result RuleParseError ParsedRule
parse_shape without = parse_rule_without_payload
parse_shape standard = parse_standard_rule
parse_shape logical = parse_logical_rule
parse_shape regex = parse_regex_rule

pub parse_typed-shape :
    (rule : Text) (t : RuleType) (remainder : Text)
    → parse_typed rule t remainder ≡ parse_shape (shape t) rule t remainder
unfolding parse_typed shape parse_shape
parse_typed-shape rule rule_and remainder = refl
parse_typed-shape rule rule_domain remainder = refl
parse_typed-shape rule rule_domain_keyword remainder = refl
parse_typed-shape rule rule_domain_regex remainder = refl
parse_typed-shape rule rule_domain_suffix remainder = refl
parse_typed-shape rule rule_domain_wildcard remainder = refl
parse_typed-shape rule rule_dscp remainder = refl
parse_typed-shape rule rule_dst_port remainder = refl
parse_typed-shape rule rule_geo_ip remainder = refl
parse_typed-shape rule rule_geosite remainder = refl
parse_typed-shape rule rule_in_name remainder = refl
parse_typed-shape rule rule_in_port remainder = refl
parse_typed-shape rule rule_in_type remainder = refl
parse_typed-shape rule rule_in_user remainder = refl
parse_typed-shape rule rule_ip_asn remainder = refl
parse_typed-shape rule rule_ip_cidr remainder = refl
parse_typed-shape rule rule_ip_cidr6 remainder = refl
parse_typed-shape rule rule_ip_suffix remainder = refl
parse_typed-shape rule rule_match remainder = refl
parse_typed-shape rule rule_network remainder = refl
parse_typed-shape rule rule_not remainder = refl
parse_typed-shape rule rule_or remainder = refl
parse_typed-shape rule rule_process_name remainder = refl
parse_typed-shape rule rule_process_name_regex remainder = refl
parse_typed-shape rule rule_process_name_wildcard remainder = refl
parse_typed-shape rule rule_process_path remainder = refl
parse_typed-shape rule rule_process_path_regex remainder = refl
parse_typed-shape rule rule_process_path_wildcard remainder = refl
parse_typed-shape rule rule_rematch_name remainder = refl
parse_typed-shape rule rule_rule_set remainder = refl
parse_typed-shape rule rule_src_geo_ip remainder = refl
parse_typed-shape rule rule_src_ip_asn remainder = refl
parse_typed-shape rule rule_src_ip_cidr remainder = refl
parse_typed-shape rule rule_src_ip_suffix remainder = refl
parse_typed-shape rule rule_src_port remainder = refl
parse_typed-shape rule rule_sub_rule remainder = refl
parse_typed-shape rule rule_uid remainder = refl

pub as_str-Lacks : (t : RuleType) → Lacks comma (as_str t)
unfolding as_str
as_str-Lacks rule_and = omega arith
as_str-Lacks rule_domain = omega arith
as_str-Lacks rule_domain_keyword = omega arith
as_str-Lacks rule_domain_regex = omega arith
as_str-Lacks rule_domain_suffix = omega arith
as_str-Lacks rule_domain_wildcard = omega arith
as_str-Lacks rule_dscp = omega arith
as_str-Lacks rule_dst_port = omega arith
as_str-Lacks rule_geo_ip = omega arith
as_str-Lacks rule_geosite = omega arith
as_str-Lacks rule_in_name = omega arith
as_str-Lacks rule_in_port = omega arith
as_str-Lacks rule_in_type = omega arith
as_str-Lacks rule_in_user = omega arith
as_str-Lacks rule_ip_asn = omega arith
as_str-Lacks rule_ip_cidr = omega arith
as_str-Lacks rule_ip_cidr6 = omega arith
as_str-Lacks rule_ip_suffix = omega arith
as_str-Lacks rule_match = omega arith
as_str-Lacks rule_network = omega arith
as_str-Lacks rule_not = omega arith
as_str-Lacks rule_or = omega arith
as_str-Lacks rule_process_name = omega arith
as_str-Lacks rule_process_name_regex = omega arith
as_str-Lacks rule_process_name_wildcard = omega arith
as_str-Lacks rule_process_path = omega arith
as_str-Lacks rule_process_path_regex = omega arith
as_str-Lacks rule_process_path_wildcard = omega arith
as_str-Lacks rule_rematch_name = omega arith
as_str-Lacks rule_rule_set = omega arith
as_str-Lacks rule_src_geo_ip = omega arith
as_str-Lacks rule_src_ip_asn = omega arith
as_str-Lacks rule_src_ip_cidr = omega arith
as_str-Lacks rule_src_ip_suffix = omega arith
as_str-Lacks rule_src_port = omega arith
as_str-Lacks rule_sub_rule = omega arith
as_str-Lacks rule_uid = omega arith

trim-as_str : (t : RuleType) → trim (as_str t) ≡ as_str t
unfolding as_str trim trim_start is_whitespace
trim-as_str rule_and = refl
trim-as_str rule_domain = refl
trim-as_str rule_domain_keyword = refl
trim-as_str rule_domain_regex = refl
trim-as_str rule_domain_suffix = refl
trim-as_str rule_domain_wildcard = refl
trim-as_str rule_dscp = refl
trim-as_str rule_dst_port = refl
trim-as_str rule_geo_ip = refl
trim-as_str rule_geosite = refl
trim-as_str rule_in_name = refl
trim-as_str rule_in_port = refl
trim-as_str rule_in_type = refl
trim-as_str rule_in_user = refl
trim-as_str rule_ip_asn = refl
trim-as_str rule_ip_cidr = refl
trim-as_str rule_ip_cidr6 = refl
trim-as_str rule_ip_suffix = refl
trim-as_str rule_match = refl
trim-as_str rule_network = refl
trim-as_str rule_not = refl
trim-as_str rule_or = refl
trim-as_str rule_process_name = refl
trim-as_str rule_process_name_regex = refl
trim-as_str rule_process_name_wildcard = refl
trim-as_str rule_process_path = refl
trim-as_str rule_process_path_regex = refl
trim-as_str rule_process_path_wildcard = refl
trim-as_str rule_rematch_name = refl
trim-as_str rule_rule_set = refl
trim-as_str rule_src_geo_ip = refl
trim-as_str rule_src_ip_asn = refl
trim-as_str rule_src_ip_cidr = refl
trim-as_str rule_src_ip_suffix = refl
trim-as_str rule_src_port = refl
trim-as_str rule_sub_rule = refl
trim-as_str rule_uid = refl

-- The name of a type in front of a comma decides how the rest is read.
pub parse_rule_typed :
    (t : RuleType) (remainder : Text)
    → parse_rule (as_str t ++ comma ∷ remainder)
      ≡ parse_shape (shape t) (as_str t ++ comma ∷ remainder) t remainder
unfolding parse_rule parse_parts
parse_rule_typed t remainder =
    rw
      (
        split_once-Lacks comma (as_str t) remainder (as_str-Lacks t),
        trim-as_str t,
        parse_type-as_str t,
      )
      (parse_typed-shape (as_str t ++ comma ∷ remainder) t remainder)

-- A field that is read as it stands: no comma, and no blank at either end.
pub record IsField (field : Text) : Type 0 where
  pub lacks : Lacks comma field
  pub trimmed : trim field ≡ field

map-trim : (fields : List Text) → All IsField fields → map trim fields ≡ fields
map-trim [] h = refl
map-trim (field ∷ fields) (f, h) = rw (f.trimmed, map-trim fields h) refl

All-Lacks : (fields : List Text) → All IsField fields → All (Lacks comma) fields
All-Lacks [] h = tt
All-Lacks (field ∷ fields) (f, h) = (f.lacks, All-Lacks fields h)

pub trimmed_fields_lem :
    (fields : List Text)
    → All IsField fields
    → fields ≢ []
    → map trim (split comma (joined comma fields)) ≡ fields
trimmed_fields_lem fields h ne =
    rw (split-joined comma fields (All-Lacks fields h) ne) (map-trim fields h)

pub required_field-ne :
    (field : Text) (e : RuleParseError) → field ≢ [] → required_field (some field) e ≡ ok field
unfolding required_field
required_field-ne [] e ne = absurd (ne refl)
required_field-ne (c ∷ s) e ne = refl

standard_fields :
    (rule : Text) (t : RuleType) (payload target : Text) (params : List Text)
    → All IsField (payload ∷ target ∷ params)
    → payload ≢ []
    → target ≢ []
    → parse_standard_rule rule t (joined comma (payload ∷ target ∷ params))
      ≡ ok (record {
        original = rule;
        rule_type = t;
        payload = some payload;
        policy_target = target;
        params = params;
      })
unfolding parse_standard_rule next_field after_next
standard_fields rule t payload target params h np nt =
    rw
      (
        trimmed_fields_lem (payload ∷ target ∷ params) h (cc),
        required_field-ne payload _ np,
        required_field-ne target _ nt,
      )
      refl

-- A rule of a type with a plain payload, spelled with its name, its payload, its policy target and
-- its parameters between commas, is read back as these parts, if no part holds a comma or has a
-- blank at an end and the payload and the target are not empty.
pub parse_rule-joined :
    (t : RuleType) (payload target : Text) (params : List Text)
    → shape t ≡ standard
    → All IsField (payload ∷ target ∷ params)
    → payload ≢ []
    → target ≢ []
    → parse_rule (joined comma (as_str t ∷ payload ∷ target ∷ params))
      ≡ ok (record {
        original = joined comma (as_str t ∷ payload ∷ target ∷ params);
        rule_type = t;
        payload = some payload;
        policy_target = target;
        params = params;
      })
unfolding joined parse_shape
parse_rule-joined t payload target params plain h np nt =
    parse_rule_typed t (joined comma (payload ∷ target ∷ params))
    ∙ ap
        (λ k.
          parse_shape k (as_str t ++ comma ∷ joined comma (payload ∷ target ∷ params)) t
            (joined comma (payload ∷ target ∷ params)))
        plain
    ∙ standard_fields _ t payload target params h np nt
