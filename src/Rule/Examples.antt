-- ===== src/Rule/Examples.antt =====
-- Rules on which the theorems on src/rule.rs are run.
use ratash.Common.{
  ◌≤◌, ◌≡◌, refl, sym, ◌∙◌, some, List, [], ◌∷◌, ◌++◌, length, take, drop, arith, All, Bool-cases,
  inl, inr,
}
use ratash.Common.Result.{Result, ok}
use ratash.Common.Text.{
  same_text, same_text_iff, Text, codes, trim, trim_start, is_whitespace, joined, split_once, split,
  byte_length,
}
use ratash.Rule.Types.{
  rule_domain, rule_domain_regex, rule_and, ParsedRule, as_str, parse_type, type_or_error, find_arm,
  type_arms,
}
use ratash.Rule.Parse.{
  comma, parse_rule, parse_parts, parse_typed, parse_standard_rule, required_field, next_field,
  after_next, rule_string,
}
use ratash.Rule.Parse.RoundTrip.{IsField, shape, parse_rule-joined}
use ratash.Rule.Parse.Logical.{
  class_end, member, escaped_member, Inside, done, plain, class, group, parse_rule-logical,
}
use ratash.Rule.Parse.Regex.{EndsParameters, parse_rule-regex}
use ratash.Rule.Set.{
  LocalRuleSet, RuleListPage, list_page, append, remove_from, prepend, initialized_at, add, add_to,
  replace, replace_to, remove, initialized_rules, rules_or_error, checked_rule, placement_index,
  refuse_existing, matching_rule_indexes, indexes_from, next_revision, revision_or_error, insert_at,
  exact_rule_index, only_index, write_rule, rule_at, first_or_empty, RuleSetLimits, from_yaml,
  read_document, document_or_error, checked_rules, string_or_error, rule_or_error,
}
use ratash.Rule.Set.Changes.{IsRule, remove-add}
use ratash.Rule.Set.Replacing.{Replaced, replace-Replaced}
use ratash.Rule.Set.Histories.{
  IsSoundSet, Change, adding, replacing, removing, make, make_all, make_all-IsSoundSet,
}
use ratash.Rule.Set.Indexes.{count}
use ratash.Rule.Set.Pages.{Lists, Checked, list_page-from_yaml}

abbrev first_rule : Text
first_rule = codes "DOMAIN,a,DIRECT"

abbrev second_rule : Text
second_rule = codes "DOMAIN,b,P,no-resolve"

abbrev third_rule : Text
third_rule = codes "DOMAIN,c,P"

abbrev two_rules : LocalRuleSet
two_rules = record { revision = 4; rules = some (first_rule ∷ second_rule ∷ []) }

abbrev three_rules : LocalRuleSet
three_rules = record { revision = 5; rules = some (third_rule ∷ first_rule ∷ second_rule ∷ []) }

abbrev parsed_of : Text → Text → Text → List Text → ParsedRule
parsed_of rule payload target params = record {
  original = rule;
  rule_type = rule_domain;
  payload = some payload;
  policy_target = target;
  params = params;
}

IsField-of : IsField (codes "b") × (IsField (codes "P") × (IsField (codes "no-resolve") × Unit {0}))
unfolding trim trim_start is_whitespace
IsField-of = (
  record { lacks = omega arith; trimmed = refl },
  (
    record { lacks = omega arith; trimmed = refl },
    (record { lacks = omega arith; trimmed = refl }, tt),
  ),
)

abbrev four_parts : Text
four_parts = joined comma (as_str rule_domain ∷ codes "b" ∷ codes "P" ∷ codes "no-resolve" ∷ [])

parse_rule-joined_example :
    parse_rule four_parts
    ≡ ok (parsed_of four_parts (codes "b") (codes "P") (codes "no-resolve" ∷ []))
unfolding shape
parse_rule-joined_example =
    parse_rule-joined rule_domain (codes "b") (codes "P") (codes "no-resolve" ∷ []) refl IsField-of
      (cc) (cc)

-- Its class holds an escaped bracket and a parenthesis, and a bracket stands behind it.
abbrev inner : Text
inner = codes "(A,b),[\\])]],c"

inner_text : Inside inner
inner_text = group (codes "A,b") (plain refl (plain refl (plain refl done))) (
    plain refl (
      class (codes "\\])") (escaped_member (member refl class_end))
        (plain refl (plain refl (plain refl done)))))

parse_rule-logical_example :
    parse_rule
      (as_str rule_and ++ comma ∷ (b'(' ∷ (inner ++ b')' ∷ comma ∷ joined comma (codes "P" ∷ []))))
    ≡ ok (record {
      original =
          as_str rule_and
          ++ comma ∷ (b'(' ∷ (inner ++ b')' ∷ comma ∷ joined comma (codes "P" ∷ [])));
      rule_type = rule_and;
      payload = some (b'(' ∷ (inner ++ b')' ∷ []));
      policy_target = codes "P";
      params = [];
    })
unfolding shape
parse_rule-logical_example =
    parse_rule-logical rule_and inner (codes "P") [] refl inner_text (IsField-of.1.0, tt) (cc)

-- The payload holds a comma and what looks like a parameter.
abbrev regex_parts : Text
regex_parts =
    as_str rule_domain_regex
    ++ comma ∷ joined comma (codes "a{1,2},src" ∷ codes "P" ∷ codes "src" ∷ codes "no-resolve" ∷ [])

target-IsField : IsField (codes "P")
target-IsField = IsField-of.1.0

target_ends : EndsParameters (codes "a{1,2},src") (codes "P")
target_ends =
    inl (λ is_parameter. elim is_parameter [ inl same ↦ cc (same) | inr same ↦ cc (same) ])

parse_rule-regex_example :
    parse_rule regex_parts
    ≡ ok (record {
      original = regex_parts;
      rule_type = rule_domain_regex;
      payload = some (codes "a{1,2},src");
      policy_target = codes "P";
      params = codes "src" ∷ codes "no-resolve" ∷ [];
    })
unfolding shape trim trim_start is_whitespace
parse_rule-regex_example =
    parse_rule-regex rule_domain_regex (codes "a{1,2},src") (codes "P")
      (codes "src" ∷ codes "no-resolve" ∷ []) refl refl (cc) target-IsField (cc) target_ends
      (inr refl, (inl refl, tt))

parsed_rules : All IsRule (first_rule ∷ second_rule ∷ third_rule ∷ [])
unfolding IsRule parse_rule parse_parts parse_typed parse_standard_rule required_field next_field
    after_next parse_type type_or_error find_arm type_arms trim trim_start is_whitespace split_once
    split
parsed_rules = (
  (parsed_of first_rule (codes "a") (codes "DIRECT") [], refl),
  (
    (parsed_of second_rule (codes "b") (codes "P") (codes "no-resolve" ∷ []), refl),
    ((parsed_of third_rule (codes "c") (codes "P") [], refl), tt),
  ),
)

added_third : add two_rules third_rule prepend ≡ ok (0, three_rules)
unfolding add add_to initialized_rules rules_or_error checked_rule placement_index refuse_existing
    matching_rule_indexes indexes_from next_revision revision_or_error insert_at initialized_at
    parse_rule parse_parts parse_typed parse_standard_rule required_field next_field after_next
    parse_type type_or_error find_arm type_arms trim trim_start is_whitespace split_once split
added_third = refl

remove-add_example :
    remove three_rules third_rule
    ≡ ok (third_rule, record { revision = 6; rules = two_rules.rules })
remove-add_example = remove-add two_rules third_rule prepend 0 three_rules added_third (omega arith)

abbrev replaced_rules : LocalRuleSet
replaced_rules = record { revision = 5; rules = some (third_rule ∷ second_rule ∷ []) }

replaced_first : replace two_rules first_rule third_rule ≡ ok (0, replaced_rules)
unfolding replace replace_to write_rule rule_at first_or_empty exact_rule_index only_index add
    add_to initialized_rules rules_or_error checked_rule placement_index refuse_existing
    matching_rule_indexes indexes_from next_revision revision_or_error insert_at initialized_at
    parse_rule parse_parts parse_typed parse_standard_rule required_field next_field after_next
    parse_type type_or_error find_arm type_arms trim trim_start is_whitespace split_once split
replaced_first = refl

replace-Replaced_example : Replaced two_rules first_rule third_rule 0 replaced_rules
replace-Replaced_example =
    replace-Replaced two_rules first_rule third_rule 0 replaced_rules replaced_first

two_once : (target : Text) → count target (first_rule ∷ second_rule ∷ []) ≤ 1
unfolding count
two_once target = elim (Bool-cases (same_text first_rule target)) [
  | inl e ↦ elim (Bool-cases (same_text second_rule target)) [
    | inl f ↦
        let same : first_rule ≡ second_rule =
          (same_text_iff first_rule target).0 e ∙ sym ((same_text_iff second_rule target).0 f) in
        cc (same)
    | inr f ↦ rw (e, f) (omega arith)
  ]
  | inr e ↦ elim (Bool-cases (same_text second_rule target)) [
    | inl f ↦ rw (e, f) (omega arith)
    | inr f ↦ rw (e, f) (omega arith)
  ]
]

two_rules-IsSoundSet : IsSoundSet two_rules
unfolding IsSoundSet
two_rules-IsSoundSet rules h =
    let same : first_rule ∷ second_rule ∷ [] ≡ rules = cc (h) in
    rw (← same) (record { once = two_once; parsed = (parsed_rules.0, (parsed_rules.1.0, tt)) })

abbrev fourth_rule : Text
fourth_rule = codes "DOMAIN,d,P"

-- The last change is refused, since the rule stands in the set.
abbrev changes : List Change
changes =
    adding third_rule prepend
    ∷ replacing first_rule fourth_rule
    ∷ removing second_rule
    ∷ adding third_rule append
    ∷ []

changed_rules :
    make_all changes two_rules
    ≡ record { revision = 7; rules = some (third_rule ∷ fourth_rule ∷ []) }
unfolding make_all make replace replace_to write_rule rule_at first_or_empty exact_rule_index
    only_index add remove remove_from add_to initialized_rules rules_or_error checked_rule
    placement_index refuse_existing matching_rule_indexes indexes_from next_revision
    revision_or_error insert_at initialized_at parse_rule parse_parts parse_typed
    parse_standard_rule required_field next_field after_next parse_type type_or_error find_arm
    type_arms trim trim_start is_whitespace split_once split
changed_rules = refl

make_all-IsSoundSet_example : IsSoundSet (make_all changes two_rules)
make_all-IsSoundSet_example = make_all-IsSoundSet changes two_rules two_rules-IsSoundSet

abbrev limits : RuleSetLimits
limits = record { max_document_bytes = 100; max_rule_bytes = 50; max_rule_count = 3 }

-- A reader that finds one rule in every document.
abbrev read_one : Text → Result Text (List Text)
read_one document = ok (first_rule ∷ [])

abbrev read_set : LocalRuleSet
read_set = record { revision = 7; rules = some (first_rule ∷ []) }

one_read : from_yaml read_one (codes "rules: x") 7 limits ≡ ok read_set
unfolding from_yaml read_document document_or_error checked_rules string_or_error rule_or_error
    rule_string initialized_at parse_rule parse_parts parse_typed parse_standard_rule required_field
    next_field after_next parse_type type_or_error find_arm type_arms trim trim_start is_whitespace
    split_once split
one_read = refl

list_page-from_yaml_example :
    (byte_length (codes "rules: x") ≤ 100)
    × ((rules : List Text) × ((read_one (codes "rules: x") ≡ ok rules)
          × ((read_set ≡ initialized_at rules 7)
              × (Checked limits rules
                  × ((page : RuleListPage) × ((list_page read_set 0 5 ≡ ok page)
                        × ((page.total ≡ length rules)
                            × Lists 0 (take 5 (drop 0 rules)) page.entries)))))))
list_page-from_yaml_example =
    list_page-from_yaml read_one (codes "rules: x") 7 0 5 limits read_set (omega arith) one_read
