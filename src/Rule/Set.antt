-- ===== src/Rule/Set.antt =====
-- `LocalRuleSet` of src/rule.rs. The YAML reader and writer are parameters.
pub mod Indexes
pub mod Changes
pub mod Replacing
pub mod Histories
pub mod Pages
use ratash.Common.{
  ℕ, suc, zero, ◌+◌, ◌-◌, min, Bool, true, false, not, Option, none, some, List, [], ◌∷◌, ◌++◌,
  length, take, drop, ◌==◌, ltb, leb, if◌then◌else◌, checked_add, saturating_add, keep,
}
use ratash.Common.Result.{Result, ok, err, ◌>>=◌}
use ratash.Common.Text.{Text, same_text, byte_length}
use ratash.Rule.Types.{RuleParseError, ParsedRule}
use ratash.Rule.Parse.{parse_rule, RuleStringError, rule_string}

pub record LocalRuleSet : Type 0 where
  pub revision : ℕ
  pub rules : Option (List Text)

pub data RulePlacement : Type 0 where
  prepend : RulePlacement
  append : RulePlacement
  before : Text → RulePlacement
  after : Text → RulePlacement

pub data RuleSetError : Type 0 where
  rules_uninitialized : RuleSetError
  revision_exhausted : RuleSetError
  rule_not_found : RuleSetError
  rule_ambiguous : List ℕ → RuleSetError
  rule_already_exists : List ℕ → RuleSetError
  invalid_rule : RuleParseError → RuleSetError

pub record RuleListEntry : Type 0 where
  pub index : ℕ
  pub rule : Text
  pub parsed : ParsedRule

pub record RuleListPage : Type 0 where
  pub initialized : Bool
  pub total : ℕ
  pub offset : ℕ
  pub entries : List RuleListEntry

pub record RuleSetLimits : Type 0 where
  pub max_document_bytes : ℕ
  pub max_rule_bytes : ℕ
  pub max_rule_count : ℕ

pub data RuleDocumentError : Type 0 where
  document_uninitialized : RuleDocumentError
  document_too_large : ℕ → ℕ → RuleDocumentError
  too_many_rules : ℕ → ℕ → RuleDocumentError
  invalid_yaml : Text → RuleDocumentError
  invalid_rule_string : ℕ → RuleStringError → RuleDocumentError
  invalid_rule_at : ℕ → RuleParseError → RuleDocumentError
  serialization_failed : Text → RuleDocumentError

unfoldable pub uninitialized : LocalRuleSet
uninitialized = record { revision = 0; rules = none }

unfoldable pub initialized_at : List Text → ℕ → LocalRuleSet
initialized_at rules revision = record { revision = revision; rules = some rules }

unfoldable pub new_set : List Text → LocalRuleSet
new_set rules = initialized_at rules 1

unfoldable pub revision_or_error : Option ℕ → Result RuleSetError ℕ
revision_or_error none = err revision_exhausted
revision_or_error (some next) = ok next

unfoldable pub next_revision : ℕ → Result RuleSetError ℕ
next_revision revision = revision_or_error (checked_add revision 1)

-- `matching_rule_indexes`, from an index on.
unfoldable pub indexes_from : ℕ → List Text → Text → List ℕ
indexes_from index [] target = []
indexes_from index (rule ∷ rules) target =
    let rest = indexes_from (index + 1) rules target in
    if same_text rule target then index ∷ rest else rest

unfoldable pub matching_rule_indexes : List Text → Text → List ℕ
matching_rule_indexes rules target = indexes_from 0 rules target

unfoldable pub only_index : List ℕ → Result RuleSetError ℕ
only_index [] = err rule_not_found
only_index (index ∷ []) = ok index
only_index indexes = err (rule_ambiguous indexes)

unfoldable pub exact_rule_index : List Text → Text → Result RuleSetError ℕ
exact_rule_index rules target = only_index (matching_rule_indexes rules target)

-- The early return on an index that is left.
unfoldable pub refuse_existing : List ℕ → Result RuleSetError (Unit {0})
refuse_existing [] = ok tt
refuse_existing indexes = err (rule_already_exists indexes)

-- `map_err(RuleSetError::InvalidRule)`.
unfoldable pub checked_rule : Result RuleParseError ParsedRule → Result RuleSetError (Unit {0})
checked_rule (ok parsed) = ok tt
checked_rule (err e) = err (invalid_rule e)

unfoldable pub placement_index : List Text → RulePlacement → Result RuleSetError ℕ
placement_index rules prepend = ok 0
placement_index rules append = ok (length rules)
placement_index rules (before anchor) = exact_rule_index rules anchor
placement_index rules (after anchor) = do index ← exact_rule_index rules anchor; ok (index + 1)

-- `Vec::insert` at an index that is not above the length.
unfoldable pub insert_at : ℕ → Text → List Text → List Text
insert_at index rule rules = take index rules ++ rule ∷ drop index rules

unfoldable pub add_to :
    ℕ → List Text → Text → RulePlacement → Result RuleSetError (ℕ × LocalRuleSet)
add_to revision rules rule placement = do
  _ ← checked_rule (parse_rule rule)
  index ← placement_index rules placement
  _ ← refuse_existing (matching_rule_indexes rules rule)
  next ← next_revision revision
  ok (index, initialized_at (insert_at index rule rules) next)

-- `&mut self.rules`: an uninitialized set refuses every change.
unfoldable pub rules_or_error : Option (List Text) → Result RuleSetError (List Text)
rules_or_error none = err rules_uninitialized
rules_or_error (some rules) = ok rules

unfoldable pub initialized_rules : LocalRuleSet → Result RuleSetError (List Text)
initialized_rules s = rules_or_error s.rules

unfoldable pub add : LocalRuleSet → Text → RulePlacement → Result RuleSetError (ℕ × LocalRuleSet)
add s rule placement = do rules ← initialized_rules s; add_to s.revision rules rule placement

-- `rules[index]`, which panics out of range: the index is always one that was found.
unfoldable pub first_or_empty : List Text → Text
first_or_empty [] = []
first_or_empty (rule ∷ rules) = rule

unfoldable pub rule_at : ℕ → List Text → Text
rule_at index rules = first_or_empty (drop index rules)

-- The end of `replace`, at the index of the old rule.
unfoldable pub write_rule : ℕ → List Text → ℕ → Text → Result RuleSetError (ℕ × LocalRuleSet)
write_rule revision rules index new_rule =
    if same_text (rule_at index rules) new_rule
    then ok (index, initialized_at rules revision)
    else (do
      next ← next_revision revision
      ok (index, initialized_at (take index rules ++ new_rule ∷ drop (index + 1) rules) next))

unfoldable pub replace_to : ℕ → List Text → Text → Text → Result RuleSetError (ℕ × LocalRuleSet)
replace_to revision rules old_rule new_rule = do
  _ ← checked_rule (parse_rule new_rule)
  index ← exact_rule_index rules old_rule
  _ ← refuse_existing (
      keep (λ matching_index. not (matching_index == index)) (matching_rule_indexes rules new_rule))
  write_rule revision rules index new_rule

unfoldable pub replace : LocalRuleSet → Text → Text → Result RuleSetError (ℕ × LocalRuleSet)
replace s old_rule new_rule = do
  rules ← initialized_rules s
  replace_to s.revision rules old_rule new_rule

unfoldable pub remove_from : ℕ → List Text → Text → Result RuleSetError (Text × LocalRuleSet)
remove_from revision rules rule = do
  index ← exact_rule_index rules rule
  next ← next_revision revision
  ok (rule_at index rules, initialized_at (take index rules ++ drop (index + 1) rules) next)

unfoldable pub remove : LocalRuleSet → Text → Result RuleSetError (Text × LocalRuleSet)
remove s rule = do rules ← initialized_rules s; remove_from s.revision rules rule

-- The `collect` of `list_page`: the entries from an index on, or the first error.
unfoldable pub parsed_entries : ℕ → List Text → Result RuleParseError (List RuleListEntry)
parsed_entries index [] = ok []
parsed_entries index (rule ∷ rules) = do
  parsed ← parse_rule rule
  entries ← parsed_entries (index + 1) rules
  ok (record { index = index; rule = rule; parsed = parsed } ∷ entries)

-- `rules.get(offset..end).unwrap_or_default()`: nothing when the offset is above the end.
unfoldable pub page_rules : ℕ → ℕ → List Text → List Text
page_rules offset limit rules =
    let end = min (saturating_add offset limit) (length rules) in
    if leb offset end then take (end - offset) (drop offset rules) else []

unfoldable pub page_of : ℕ → ℕ → Option (List Text) → Result RuleParseError RuleListPage
page_of offset limit none =
    ok (record { initialized = false; total = 0; offset = offset; entries = [] })
page_of offset limit (some rules) = do
  entries ← parsed_entries offset (page_rules offset limit rules)
  ok (record { initialized = true; total = length rules; offset = offset; entries = entries })

unfoldable pub list_page : LocalRuleSet → ℕ → ℕ → Result RuleParseError RuleListPage
list_page s offset limit = page_of offset limit s.rules

-- The `collect` of `from_yaml`.
unfoldable pub string_or_error : ℕ → Result RuleStringError Text → Result RuleDocumentError Text
string_or_error index (ok rule) = ok rule
string_or_error index (err source) = err (invalid_rule_string index source)

unfoldable pub rule_or_error :
    ℕ → Result RuleParseError ParsedRule → Result RuleDocumentError (Unit {0})
rule_or_error index (ok parsed) = ok tt
rule_or_error index (err source) = err (invalid_rule_at index source)

unfoldable pub checked_rules : ℕ → ℕ → List Text → Result RuleDocumentError (List Text)
checked_rules index max_rule_bytes [] = ok []
checked_rules index max_rule_bytes (value ∷ values) = do
  rule ← string_or_error index (rule_string value max_rule_bytes)
  _ ← rule_or_error index (parse_rule rule)
  rules ← checked_rules (index + 1) max_rule_bytes values
  ok (rule ∷ rules)

module _ (read_rules : Text → Result Text (List Text)) where
  unfoldable pub document_or_error : Result Text (List Text) → Result RuleDocumentError (List Text)
  document_or_error (ok rules) = ok rules
  document_or_error (err message) = err (invalid_yaml message)

  unfoldable pub read_document : Text → Result RuleDocumentError (List Text)
  read_document document = document_or_error (read_rules document)

  unfoldable pub from_yaml : Text → ℕ → RuleSetLimits → Result RuleDocumentError LocalRuleSet
  from_yaml document revision limits =
      if ltb limits.max_document_bytes (byte_length document)
      then err (document_too_large (byte_length document) limits.max_document_bytes)
      else (do
        values ← read_document document
        if ltb limits.max_rule_count (length values)
            then err (too_many_rules (length values) limits.max_rule_count)
            else (do
              rules ← checked_rules 0 limits.max_rule_bytes values
              ok (initialized_at rules revision)))

module _ (write_rules : List Text → Result Text Text) where
  unfoldable pub written : Result Text Text → Result RuleDocumentError Text
  written (ok document) = ok document
  written (err message) = err (serialization_failed message)

  unfoldable pub rules_to_yaml : Option (List Text) → Result RuleDocumentError Text
  rules_to_yaml none = err document_uninitialized
  rules_to_yaml (some rules) = written (write_rules rules)

  unfoldable pub to_yaml : LocalRuleSet → Result RuleDocumentError Text
  to_yaml s = rules_to_yaml s.rules
