-- ===== src/Rule/Set/Changes.antt =====
-- `add`, `replace` and `remove` of src/rule.rs.
use ratash.Common.{
  ℕ, ◌+◌, ◌≤◌, ◌<◌, ◌^◌, ◌≡◌, refl, sym, ap, ◌∙◌, Option, none, some, List, [], ◌∷◌, ◌++◌, length,
  take, drop, length-append, length-take, take-append-drop, arith,
}
use ratash.Common.Result.{Result, ok, err, bind-ok, ok-injective}
use ratash.Common.Text.{Text}
use ratash.Rule.Types.{RuleParseError, ParsedRule}
use ratash.Rule.Parse.{parse_rule}
use ratash.Rule.Set.{
  LocalRuleSet, RulePlacement, prepend, append, before, after, initialized_at, next_revision,
  revision_or_error, matching_rule_indexes, exact_rule_index, refuse_existing, checked_rule,
  placement_index, insert_at, add_to, rules_or_error, initialized_rules, add, rule_at,
  first_or_empty, remove_from, remove,
}
use ratash.Rule.Set.Indexes.{
  count, count-append, take-append, drop-append, OnceAt, indexes-count_zero,
  exact_rule_index-OnceAt, OnceAt-exact_rule_index,
}

-- The text is accepted by `parse_rule`.
unfoldable pub IsRule : Text → Type 0
IsRule rule = (parsed : ParsedRule) × (parse_rule rule ≡ ok parsed)

pub checked_rule-IsRule :
    (rule : Text) (r : Result RuleParseError ParsedRule) {u : Unit {0}}
    → parse_rule rule ≡ r
    → checked_rule r ≡ ok u
    → IsRule rule
unfolding checked_rule IsRule
checked_rule-IsRule rule (ok parsed) same h = (parsed, same)
checked_rule-IsRule rule (err e) same h = cc (h)

pub next_revision-ok :
    (revision next : ℕ) → next_revision revision ≡ ok next → (next ≡ revision + 1) × (next < 2 ^ 64)
unfolding next_revision revision_or_error
next_revision-ok revision next h = (ground (arith, h), ground (arith, h))

pub next_revision_lem :
    (revision : ℕ) → revision + 1 < 2 ^ 64 → next_revision revision ≡ ok (revision + 1)
unfolding next_revision revision_or_error
next_revision_lem revision h = ground (arith, h)

pub refuse_existing-ok :
    (indexes : List ℕ) {u : Unit {0}} → refuse_existing indexes ≡ ok u → indexes ≡ []
unfolding refuse_existing
refuse_existing-ok [] h = refl
refuse_existing-ok (i ∷ indexes) h = cc (h)

index_below :
    (rules : List Text) (target : Text) (index : ℕ)
    → exact_rule_index rules target ≡ ok index
    → index < length rules
index_below rules target index h =
    let once = exact_rule_index-OnceAt rules target index h in
    rw once.splits (omega (arith, length-append once.front (target ∷ once.back), once.index_is))

-- The index of a placement is one at which a rule can be inserted.
placement_index_le :
    (rules : List Text) (placement : RulePlacement) (index : ℕ)
    → placement_index rules placement ≡ ok index
    → index ≤ length rules
unfolding placement_index
placement_index_le rules prepend index h = omega (arith, ok-injective h)
placement_index_le rules append index h = omega (arith, ok-injective h)
placement_index_le rules (before anchor) index h = omega (arith, index_below rules anchor index h)
placement_index_le rules (after anchor) index h =
    let (i, (found, same)) = bind-ok (exact_rule_index rules anchor) _ h in
    omega (arith, index_below rules anchor i found, ok-injective same)

-- A successful `add`.
pub record Added (s : LocalRuleSet) (rule : Text) (index : ℕ) (t : LocalRuleSet) : Type 0 where
  pub front : List Text
  pub back : List Text
  pub rules_are : s.rules ≡ some (front ++ back)
  pub index_is : index ≡ length front
  pub result_is : t ≡ initialized_at (front ++ rule ∷ back) (s.revision + 1)
  pub is_new : count rule (front ++ back) ≡ 0
  pub is_rule : IsRule rule
  pub revision_lt : s.revision + 1 < 2 ^ 64

rules_or_error-ok :
    (o : Option (List Text)) (rules : List Text) → rules_or_error o ≡ ok rules → o ≡ some rules
unfolding rules_or_error
rules_or_error-ok none rules e = cc (e)
rules_or_error-ok (some xs) rules e = ap some (ok-injective e)

pub initialized_rules-ok :
    (s : LocalRuleSet) (rules : List Text) → initialized_rules s ≡ ok rules → s.rules ≡ some rules
unfolding initialized_rules
initialized_rules-ok s rules h = rules_or_error-ok s.rules rules h

-- A successful `add` inserts a rule that parses and that was not in the set before, at the index
-- that it returns, and gives the set the next revision.
pub add-Added :
    (s : LocalRuleSet) (rule : Text) (placement : RulePlacement) (index : ℕ) (t : LocalRuleSet)
    → add s rule placement ≡ ok (index, t)
    → Added s rule index t
unfolding add add_to insert_at matching_rule_indexes
add-Added s rule placement index t h =
    let (rules, (here, h0)) = bind-ok (initialized_rules s) _ h in
    let (u, (parses, h1)) = bind-ok (checked_rule (parse_rule rule)) _ h0 in
    let (i, (place, h2)) = bind-ok (placement_index rules placement) _ h1 in
    let (v, (fresh, h3)) = bind-ok (refuse_existing (matching_rule_indexes rules rule)) _ h2 in
    let (next, (grows, h4)) = bind-ok (next_revision s.revision) _ h3 in
    let same = ok-injective h4 in
    let (next_is, next_lt) = next_revision-ok s.revision next grows in
    let inside = placement_index_le rules placement i place in
    record {
      front = take i rules;
      back = drop i rules;
      rules_are = initialized_rules-ok s rules here ∙ ap some (sym (take-append-drop i rules));
      index_is = omega (arith, ap (λ r. r.0) same, length-take i rules, inside);
      result_is =
          sym (ap (λ r. r.1) same)
          ∙ ap (initialized_at (take i rules ++ rule ∷ drop i rules)) next_is;
      is_new =
          rw (take-append-drop i rules)
            (indexes-count_zero 0 rules rule (refuse_existing-ok _ fresh));
      is_rule = checked_rule-IsRule rule (parse_rule rule) refl parses;
      revision_lt = omega (arith, next_is, next_lt);
    }

Added-once :
    (s : LocalRuleSet) (rule : Text) (index : ℕ) (t : LocalRuleSet) (a : Added s rule index t)
    → OnceAt (a.front ++ rule ∷ a.back) rule (length a.front)
Added-once s rule index t a = record {
  front = a.front;
  back = a.back;
  splits = refl;
  index_is = refl;
  fresh_front = omega (arith, count-append rule a.front a.back, a.is_new);
  fresh_back = omega (arith, count-append rule a.front a.back, a.is_new);
}

drop_behind : (xs ys : List Text) (y : Text) → drop (length xs + 1) (xs ++ y ∷ ys) ≡ ys
drop_behind [] ys y = refl
drop_behind (x ∷ xs) ys y = ground (arith, drop_behind xs ys y)

-- Removing a rule that was added gives the rule and the rules before the `add` back, in their
-- order, at a revision that is greater by two; the revisions have to fit a u64.
pub remove-add :
    (s : LocalRuleSet) (rule : Text) (placement : RulePlacement) (index : ℕ) (t : LocalRuleSet)
    → add s rule placement ≡ ok (index, t)
    → s.revision + 2 < 2 ^ 64
    → remove t rule ≡ ok (rule, record { revision = s.revision + 2; rules = s.rules })
unfolding remove remove_from initialized_rules rules_or_error initialized_at rule_at first_or_empty
remove-add s rule placement index t h room =
    let a = add-Added s rule placement index t h in
    rw a.result_is (
      rw
        (
          OnceAt-exact_rule_index _ rule (length a.front) (Added-once s rule index t a),
          next_revision_lem (s.revision + 1) (omega arith),
        )
        (rw
          (
            take-append a.front (rule ∷ a.back),
            drop_behind a.front a.back rule,
            drop-append a.front (rule ∷ a.back),
            a.rules_are,
          )
          (ap (λ n. ok (rule, initialized_at (a.front ++ a.back) n)) (omega arith))))
