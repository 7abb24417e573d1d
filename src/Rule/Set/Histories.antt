-- ===== src/Rule/Set/Histories.antt =====
-- Histories of changes of the local rule set of src/rule.rs.
use ratash.Common.{
  ℕ, ◌+◌, ◌≤◌, ◌≡◌, ap, some, List, [], ◌∷◌, ◌++◌, arith, All, All-append, if◌then◌else◌,
  Bool-cases, inl, inr,
}
use ratash.Common.Result.{Result, ok, err, Result-cases}
use ratash.Common.Text.{Text, same_text, same_text_iff}
use ratash.Rule.Set.{
  LocalRuleSet, RulePlacement, RuleSetError, initialized_at, add, replace, remove,
}
use ratash.Rule.Set.Indexes.{count, count-append}
use ratash.Rule.Set.Changes.{IsRule, Added, add-Added}
use ratash.Rule.Set.Replacing.{Replaced, replace-Replaced, Removed, remove-Removed}

-- Every rule parses, and none stands twice.
pub record IsSound (rules : List Text) : Type 0 where
  pub once : (rule : Text) → count rule rules ≤ 1
  pub parsed : All IsRule rules

-- The same of the rules of a set, if it has been initialized.
unfoldable pub IsSoundSet : LocalRuleSet → Type 0
IsSoundSet s = (rules : List Text) → s.rules ≡ some rules → IsSound rules

pub data Change : Type 0 where
  adding : Text → RulePlacement → Change
  replacing : Text → Text → Change
  removing : Text → Change

abbrev pub kept_or :
    {A : Type 0} → LocalRuleSet → Result RuleSetError (A × LocalRuleSet) → LocalRuleSet
kept_or s (ok r) = r.1
kept_or s (err e) = s

-- A change that is refused leaves the set as it was.
unfoldable pub make : Change → LocalRuleSet → LocalRuleSet
make (adding rule placement) s = kept_or s (add s rule placement)
make (replacing old new) s = kept_or s (replace s old new)
make (removing rule) s = kept_or s (remove s rule)

unfoldable pub make_all : List Change → LocalRuleSet → LocalRuleSet
make_all [] s = s
make_all (change ∷ changes) s = make_all changes (make change s)

count_middle :
    (target : Text) (front back : List Text) (rule : Text)
    → count target (front ++ rule ∷ back)
      ≡ count target front + count target back + (if same_text rule target then 1 else 0)
unfolding count
count_middle target front back rule = ground (arith, count-append target front (rule ∷ back))

All-front : (xs ys : List Text) → All IsRule (xs ++ ys) → All IsRule xs
All-front [] ys h = tt
All-front (x ∷ xs) ys h = (h.0, All-front xs ys h.1)

All-back : (xs ys : List Text) → All IsRule (xs ++ ys) → All IsRule ys
All-back [] ys h = h
All-back (x ∷ xs) ys h = All-back xs ys h.1

-- A rule that stands in neither part can be put between them.
put_between :
    (front back : List Text) (rule : Text)
    → ((target : Text) → count target front + count target back ≤ 1)
    → (count rule front ≡ 0) × (count rule back ≡ 0)
    → All IsRule front
    → All IsRule back
    → IsRule rule
    → IsSound (front ++ rule ∷ back)
put_between front back rule le (zf, zb) hf hb hr = record {
  once = λ target. elim (Bool-cases (same_text rule target)) [
    | inl e ↦
        let same = (same_text_iff rule target).0 e in
        rw (count_middle target front back rule, e) (omega (arith, rw same at zf, rw same at zb))
    | inr e ↦ rw (count_middle target front back rule, e) (omega (arith, le target))
  ];
  parsed = All-append IsRule front (rule ∷ back) hf (hr, hb);
}

take_between :
    (front back : List Text) (rule : Text)
    → IsSound (front ++ rule ∷ back)
    → ((target : Text) → count target front + count target back ≤ 1)
      × (All IsRule front × All IsRule back)
take_between front back rule v = (
  λ target. ground (arith, count_middle target front back rule, v.once target),
  (All-front front (rule ∷ back) v.parsed, (All-back front (rule ∷ back) v.parsed).1),
)

of_rules :
    (rules : List Text) (s : LocalRuleSet) → s.rules ≡ some rules → IsSound rules → IsSoundSet s
unfolding IsSoundSet
of_rules rules s same v other h = let equal : rules ≡ other = cc (same, h) in rw equal at v

Added-IsSoundSet :
    (s : LocalRuleSet) (rule : Text) (index : ℕ) (t : LocalRuleSet)
    → Added s rule index t
    → IsSoundSet s
    → IsSoundSet t
unfolding IsSoundSet initialized_at
Added-IsSoundSet s rule index t a v =
    let old = v (a.front ++ a.back) a.rules_are in
    let zero = rw (count-append rule a.front a.back) at a.is_new in
    of_rules (a.front ++ rule ∷ a.back) t (ap (λ u. u.rules) a.result_is) (
      put_between a.front a.back rule
        (λ target. rw (count-append target a.front a.back) at (old.once target))
        (omega (arith, zero), omega (arith, zero)) (All-front a.front a.back old.parsed)
        (All-back a.front a.back old.parsed) a.is_rule)

Replaced-IsSoundSet :
    (s : LocalRuleSet) (old new : Text) (index : ℕ) (t : LocalRuleSet)
    → Replaced s old new index t
    → IsSoundSet s
    → IsSoundSet t
unfolding IsSoundSet
Replaced-IsSoundSet s old new index t r v =
    let (le, (hf, hb)) =
      take_between r.front r.back old (v (r.front ++ old ∷ r.back) r.rules_are) in
    of_rules (r.front ++ new ∷ r.back) t r.result_is
      (put_between r.front r.back new le r.new_once hf hb r.is_rule)

Removed-IsSoundSet :
    (s : LocalRuleSet) (rule removed : Text) (t : LocalRuleSet)
    → Removed s rule removed t
    → IsSoundSet s
    → IsSoundSet t
unfolding IsSoundSet initialized_at
Removed-IsSoundSet s rule removed t r v =
    let (le, (hf, hb)) =
      take_between r.front r.back rule (v (r.front ++ rule ∷ r.back) r.rules_are) in
    of_rules (r.front ++ r.back) t (ap (λ u. u.rules) r.result_is) (record {
      once = λ target. rw (count-append target r.front r.back) (le target);
      parsed = All-append IsRule r.front r.back hf hb;
    })

make-IsSoundSet : (change : Change) (s : LocalRuleSet) → IsSoundSet s → IsSoundSet (make change s)
unfolding make
make-IsSoundSet (adding rule placement) s v = elim (Result-cases (add s rule placement)) [
  | inl ((index, t), e) ↦
      rw e (Added-IsSoundSet s rule index t (add-Added s rule placement index t e) v)
  | inr (e, same) ↦ rw same v
]
make-IsSoundSet (replacing old new) s v = elim (Result-cases (replace s old new)) [
  | inl ((index, t), e) ↦
      rw e (Replaced-IsSoundSet s old new index t (replace-Replaced s old new index t e) v)
  | inr (e, same) ↦ rw same v
]
make-IsSoundSet (removing rule) s v = elim (Result-cases (remove s rule)) [
  | inl ((removed, t), e) ↦
      rw e (Removed-IsSoundSet s rule removed t (remove-Removed s rule removed t e) v)
  | inr (e, same) ↦ rw same v
]

-- If every rule of a set parses and none stands twice, or the set is not initialized, then this
-- still holds after every history of additions, replacements and removals, whether they succeed
-- or are refused.
pub make_all-IsSoundSet :
    (changes : List Change) (s : LocalRuleSet) → IsSoundSet s → IsSoundSet (make_all changes s)
unfolding make_all
make_all-IsSoundSet [] s v = v
make_all-IsSoundSet (change ∷ changes) s v =
    make_all-IsSoundSet changes (make change s) (make-IsSoundSet change s v)
