-- ===== src/Rule/Set/Replacing.antt =====
-- `replace` and `remove` of src/rule.rs.
use ratash.Common.{
  ℕ, suc, ◌+◌, ◌<◌, ◌≡◌, ◌≢◌, refl, sym, ap, ◌∙◌, not, some, List, [], ◌∷◌, ◌++◌, length, drop,
  arith, ◌==◌, if◌then◌else◌, Bool-cases, inl, inr, keep,
}
use ratash.Common.Result.{Result, ok, bind-ok, ok-injective}
use ratash.Common.Text.{Text, same_text, same_text_iff}
use ratash.Rule.Parse.{parse_rule}
use ratash.Rule.Set.{
  LocalRuleSet, RuleSetError, initialized_at, next_revision, matching_rule_indexes, indexes_from,
  exact_rule_index, refuse_existing, checked_rule, initialized_rules, rule_at, first_or_empty,
  replace_to, replace, write_rule, remove_from, remove,
}
use ratash.Rule.Set.Indexes.{
  count, count-append, take-append, drop-append, OnceAt, exact_rule_index-OnceAt,
}
use ratash.Rule.Set.Changes.{
  IsRule, checked_rule-IsRule, refuse_existing-ok, next_revision-ok, initialized_rules-ok,
}

zero_add : (n : ℕ) → 0 + n ≡ n
zero_add n = omega arith

add_zero : (n : ℕ) → n + 0 ≡ n
add_zero n = omega arith

shift : (n k : ℕ) → n + suc k ≡ n + 1 + k
shift n k = omega arith

clash : (i k : ℕ) (rest : List ℕ) → i ≢ k → keep (λ k. not (k == i)) (k ∷ rest) ≡ [] → ⊥
clash i k rest ne h = ground (arith, h)

dropped :
    (start : ℕ) (old : Text) (back : List Text) (target : Text)
    → keep (λ k. not (k == start)) (indexes_from start (old ∷ back) target) ≡ []
    → keep (λ k. not (k == start)) (indexes_from (start + 1) back target) ≡ []
unfolding indexes_from
dropped start old back target h = ground (arith, h)

-- Every index but one is refused, so a rule stands at most there.
others_after :
    (i start : ℕ) (rules : List Text) (target : Text)
    → i < start
    → keep (λ k. not (k == i)) (indexes_from start rules target) ≡ []
    → count target rules ≡ 0
unfolding indexes_from count
others_after i start [] target lt h = refl
others_after i start (rule ∷ rules) target lt h = elim (Bool-cases (same_text rule target)) [
  | inl e ↦ absurd (clash i start (indexes_from (start + 1) rules target) (omega arith) (rw e at h))
  | inr e ↦ rw e (others_after i (start + 1) rules target (omega arith) (rw e at h))
]

others_around :
    (start : ℕ) (front back : List Text) (old target : Text)
    → keep (λ k. not (k == start + length front)) (indexes_from start (front ++ old ∷ back) target)
      ≡ []
    → (count target front ≡ 0) × (count target back ≡ 0)
unfolding indexes_from count
others_around start [] back old target h = (
  refl,
  others_after start (start + 1) back target (omega arith)
      (dropped start old back target (rw (add_zero start) at h)),
)
others_around start (rule ∷ front) back old target h = elim (Bool-cases (same_text rule target)) [
  | inl e ↦ absurd (
      clash (start + suc (length front)) start
        (indexes_from (start + 1) (front ++ old ∷ back) target) (omega arith) (rw e at h))
  | inr e ↦ rw e (
      others_around (start + 1) front back old target
        (rw (shift start (length front)) at (rw e at h)))
]

-- A successful `replace`.
pub record Replaced (s : LocalRuleSet) (old new : Text) (index : ℕ) (t : LocalRuleSet)
    : Type 0 where
  pub front : List Text
  pub back : List Text
  pub rules_are : s.rules ≡ some (front ++ old ∷ back)
  pub index_is : index ≡ length front
  pub result_is : t.rules ≡ some (front ++ new ∷ back)
  pub revision_is : t.revision ≡ (if same_text old new then s.revision else s.revision + 1)
  pub old_once : (count old front ≡ 0) × (count old back ≡ 0)
  pub new_once : (count new front ≡ 0) × (count new back ≡ 0)
  pub is_rule : IsRule new

rule_at_front :
    (front back : List Text) (rule : Text) → rule_at (length front) (front ++ rule ∷ back) ≡ rule
unfolding rule_at first_or_empty
rule_at_front front back rule = rw (drop-append front (rule ∷ back)) refl

drop_next : (xs ys : List Text) (y : Text) → drop (length xs + 1) (xs ++ y ∷ ys) ≡ ys
drop_next [] ys y = refl
drop_next (x ∷ xs) ys y = ground (arith, drop_next xs ys y)

-- The end of `replace`, at the place where the old rule stands.
set_rule :
    (revision : ℕ) (front back : List Text) (old new : Text) (index : ℕ) (t : LocalRuleSet)
    → write_rule revision (front ++ old ∷ back) (length front) new ≡ ok (index, t)
    → (index ≡ length front)
      × ((t.rules ≡ some (front ++ new ∷ back))
          × (t.revision ≡ (if same_text old new then revision else revision + 1)))
unfolding initialized_at write_rule
set_rule revision front back old new index t h =
    let k =
      rw (rule_at_front front back old, take-append front (old ∷ back), drop_next front back old) at
        h in
    elim (Bool-cases (same_text old new)) [
      | inl e ↦
          let same = ok-injective (rw e at k) in
          (
            sym (ap (λ r. r.0) same),
            (
              sym (ap (λ r. r.1.rules) same)
                  ∙ ap (λ x. some (front ++ x ∷ back)) ((same_text_iff old new).0 e),
              rw e (sym (ap (λ r. r.1.revision) same)),
            ),
          )
      | inr e ↦
          let (next, (grows, last)) = bind-ok (next_revision revision) _ (rw e at k) in
          let same = ok-injective last in
          (
            sym (ap (λ r. r.0) same),
            (
              sym (ap (λ r. r.1.rules) same),
              rw e (sym (ap (λ r. r.1.revision) same) ∙ (next_revision-ok revision next grows).0),
            ),
          )
    ]

found_write :
    (revision : ℕ) (rules : List Text) (old new : Text) (i : ℕ) (once : OnceAt rules old i)
    {r : Result RuleSetError (ℕ × LocalRuleSet)}
    → write_rule revision rules i new ≡ r
    → write_rule revision (once.front ++ old ∷ once.back) (length once.front) new ≡ r
found_write revision rules old new i once h =
    ap (λ k. write_rule revision (once.front ++ old ∷ once.back) k new) (sym once.index_is)
    ∙ ap (λ x. write_rule revision x i new) (sym once.splits)
    ∙ h

found_others :
    (rules : List Text) (old new : Text) (i : ℕ) (once : OnceAt rules old i)
    → keep (λ k. not (k == i)) (indexes_from 0 rules new) ≡ []
    → (count new once.front ≡ 0) × (count new once.back ≡ 0)
found_others rules old new i once h = others_around 0 once.front once.back old new (
    ap (λ k. keep (λ m. not (m == k)) (indexes_from 0 (once.front ++ old ∷ once.back) new))
      (zero_add (length once.front) ∙ sym once.index_is)
    ∙ ap (λ x. keep (λ m. not (m == i)) (indexes_from 0 x new)) (sym once.splits)
    ∙ h)

-- A successful `replace` puts a rule that parses in the place of the one that stood there alone,
-- at the index that it returns. The new rule stands nowhere else. The revision grows by one, or
-- stays when the two rules are the same.
pub replace-Replaced :
    (s : LocalRuleSet) (old new : Text) (index : ℕ) (t : LocalRuleSet)
    → replace s old new ≡ ok (index, t)
    → Replaced s old new index t
unfolding replace replace_to matching_rule_indexes
replace-Replaced s old new index t h =
    let (rules, (here, h0)) = bind-ok (initialized_rules s) _ h in
    let (u, (parses, h1)) = bind-ok (checked_rule (parse_rule new)) _ h0 in
    let (i, (place, h2)) = bind-ok (exact_rule_index rules old) _ h1 in
    let once = exact_rule_index-OnceAt rules old i place in
    let (v, (others, h3)) =
      bind-ok (refuse_existing (keep (λ k. not (k == i)) (matching_rule_indexes rules new))) _ h2 in
    let free = refuse_existing-ok _ others in
    let (index_is, (result, revision)) =
      set_rule s.revision once.front once.back old new index t
        (found_write s.revision rules old new i once h3) in
    record {
      front = once.front;
      back = once.back;
      rules_are = initialized_rules-ok s rules here ∙ ap some once.splits;
      index_is = index_is;
      result_is = result;
      revision_is = revision;
      old_once = (once.fresh_front, once.fresh_back);
      new_once = found_others rules old new i once free;
      is_rule = checked_rule-IsRule new (parse_rule new) refl parses;
    }

-- A successful `remove`.
pub record Removed (s : LocalRuleSet) (rule : Text) (removed : Text) (t : LocalRuleSet)
    : Type 0 where
  pub front : List Text
  pub back : List Text
  pub rules_are : s.rules ≡ some (front ++ rule ∷ back)
  pub removed_is : removed ≡ rule
  pub result_is : t ≡ initialized_at (front ++ back) (s.revision + 1)
  pub is_gone : count rule (front ++ back) ≡ 0

-- A successful `remove` takes out the one place where the rule stands, returns the rule, and gives
-- the set the next revision.
pub remove-Removed :
    (s : LocalRuleSet) (rule removed : Text) (t : LocalRuleSet)
    → remove s rule ≡ ok (removed, t)
    → Removed s rule removed t
unfolding remove remove_from
remove-Removed s rule removed t h =
    let (rules, (here, h0)) = bind-ok (initialized_rules s) _ h in
    let (i, (place, h1)) = bind-ok (exact_rule_index rules rule) _ h0 in
    let once = exact_rule_index-OnceAt rules rule i place in
    let (next, (grows, h2)) = bind-ok (next_revision s.revision) _ h1 in
    let same = ok-injective (
      rw
        (
          once.index_is,
          once.splits,
          rule_at_front once.front once.back rule,
          take-append once.front (rule ∷ once.back),
          drop_next once.front once.back rule,
        )
        at h2) in
    record {
      front = once.front;
      back = once.back;
      rules_are = initialized_rules-ok s rules here ∙ ap some once.splits;
      removed_is = sym (ap (λ r. r.0) same);
      result_is =
          sym (ap (λ r. r.1) same)
          ∙ ap (initialized_at (once.front ++ once.back))
              (next_revision-ok s.revision next grows).0;
      is_gone =
          omega (arith, count-append rule once.front once.back, once.fresh_front, once.fresh_back);
    }
