-- ===== src/Rule/Set/Indexes.antt =====
-- The searches of src/rule.rs: `matching_rule_indexes` and `exact_rule_index`.
use ratash.Common.{
  ℕ, ◌+◌, ◌≡◌, refl, ap, List, [], ◌∷◌, ◌++◌, length, take, drop, arith, if◌then◌else◌, Bool-cases,
  inl, inr,
}
use ratash.Common.Result.{ok, ok-injective}
use ratash.Common.Text.{Text, same_text, same_text_iff, same_text_refl}
use ratash.Rule.Set.{indexes_from, matching_rule_indexes, only_index, exact_rule_index}

-- The number of times that a rule stands in a list.
unfoldable pub count : Text → List Text → ℕ
count target [] = 0
count target (rule ∷ rules) =
    let rest = count target rules in if same_text rule target then 1 + rest else rest

pub count-append :
    (target : Text) (xs ys : List Text)
    → count target (xs ++ ys) ≡ count target xs + count target ys
unfolding count
count-append target [] ys = omega arith
count-append target (x ∷ xs) ys = ground (arith, count-append target xs ys)

pub take-append : (xs ys : List Text) → take (length xs) (xs ++ ys) ≡ xs
take-append [] ys = refl
take-append (x ∷ xs) ys = rw (take-append xs ys)

pub drop-append : (xs ys : List Text) → drop (length xs) (xs ++ ys) ≡ ys
drop-append [] ys = refl
drop-append (x ∷ xs) ys = drop-append xs ys

-- The rule stands once in the list, behind as many rules as the index says.
pub record OnceAt (rules : List Text) (target : Text) (index : ℕ) : Type 0 where
  pub front : List Text
  pub back : List Text
  pub splits : rules ≡ front ++ target ∷ back
  pub index_is : index ≡ length front
  pub fresh_front : count target front ≡ 0
  pub fresh_back : count target back ≡ 0

-- No index is found exactly when the rule does not stand in the list.
pub indexes-count_zero :
    (index : ℕ) (rules : List Text) (target : Text)
    → indexes_from index rules target ≡ []
    → count target rules ≡ 0
unfolding indexes_from count
indexes-count_zero index [] target h = refl
indexes-count_zero index (rule ∷ rules) target h = elim (Bool-cases (same_text rule target)) [
  | inl e ↦ cc (rw e at h)
  | inr e ↦ rw e (indexes-count_zero (index + 1) rules target (rw e at h))
]

pub count_zero-indexes :
    (index : ℕ) (rules : List Text) (target : Text)
    → count target rules ≡ 0
    → indexes_from index rules target ≡ []
unfolding indexes_from count
count_zero-indexes index [] target h = refl
count_zero-indexes index (rule ∷ rules) target h = elim (Bool-cases (same_text rule target)) [
  | inl e ↦ absurd (omega (arith, rw e at h))
  | inr e ↦ rw e (count_zero-indexes (index + 1) rules target (rw e at h))
]

-- Searching behind a front that lacks the rule.
pub indexes_found :
    (index : ℕ) (front back : List Text) (target : Text)
    → count target front ≡ 0
    → count target back ≡ 0
    → indexes_from index (front ++ target ∷ back) target ≡ (index + length front) ∷ []
unfolding indexes_from count
indexes_found index [] back target hf hb =
    rw (same_text_refl target, count_zero-indexes (index + 1) back target hb) (ground arith)
indexes_found index (rule ∷ front) back target hf hb = elim (Bool-cases (same_text rule target)) [
  | inl e ↦ absurd (omega (arith, rw e at hf))
  | inr e ↦ rw (e, indexes_found (index + 1) front back target (rw e at hf) hb) (ground arith)
]

only_found :
    (start : ℕ) (rules : List Text) (target : Text) (index : ℕ)
    → indexes_from start rules target ≡ index ∷ []
    → (k : ℕ) × (OnceAt rules target k × (index ≡ start + k))
unfolding indexes_from count
only_found start [] target index h = cc (h)
only_found start (rule ∷ rules) target index h = elim (Bool-cases (same_text rule target)) [
  | inl e ↦
      let here : index ≡ start = cc (rw e at h) in
      let none_left : indexes_from (start + 1) rules target ≡ [] = cc (rw e at h) in
      (
        0,
        (
          record {
            front = [];
            back = rules;
            splits = rw ((same_text_iff rule target).0 e) refl;
            index_is = refl;
            fresh_front = refl;
            fresh_back = indexes-count_zero (start + 1) rules target none_left;
          },
          omega (arith, here),
        ),
      )
  | inr e ↦
      let (k, (once, place)) = only_found (start + 1) rules target index (rw e at h) in
      (
        k + 1,
        (
          record {
            front = rule ∷ once.front;
            back = once.back;
            splits = ap (◌∷◌ rule) once.splits;
            index_is = omega (arith, once.index_is);
            fresh_front = rw e once.fresh_front;
            fresh_back = once.fresh_back;
          },
          omega (arith, place),
        ),
      )
]

only_index-ok :
    (indexes : List ℕ) (index : ℕ) → only_index indexes ≡ ok index → indexes ≡ index ∷ []
unfolding only_index
only_index-ok [] index h = cc (h)
only_index-ok (i ∷ []) index h = ap (λ k. k ∷ []) (ok-injective h)
only_index-ok (i ∷ j ∷ indexes) index h = cc (h)

-- `exact_rule_index` finds a rule that stands once.
pub exact_rule_index-OnceAt :
    (rules : List Text) (target : Text) (index : ℕ)
    → exact_rule_index rules target ≡ ok index
    → OnceAt rules target index
unfolding exact_rule_index matching_rule_indexes
exact_rule_index-OnceAt rules target index h =
    let (k, (once, place)) =
      only_found 0 rules target index (only_index-ok (indexes_from 0 rules target) index h) in
    record {
      front = once.front;
      back = once.back;
      splits = once.splits;
      index_is = omega (arith, place, once.index_is);
      fresh_front = once.fresh_front;
      fresh_back = once.fresh_back;
    }

pub OnceAt-exact_rule_index :
    (rules : List Text) (target : Text) (index : ℕ)
    → OnceAt rules target index
    → exact_rule_index rules target ≡ ok index
unfolding exact_rule_index matching_rule_indexes only_index
OnceAt-exact_rule_index rules target index once =
    rw (once.splits, indexes_found 0 once.front once.back target once.fresh_front once.fresh_back)
      (ap ok (omega (arith, once.index_is)))
