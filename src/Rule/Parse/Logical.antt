-- ===== src/Rule/Parse/Logical.antt =====
-- `logical_payload_end` and `parse_logical_rule` of src/rule.rs against a grammar of the payloads.
use ratash.Common.{
  ℕ, suc, ◌+◌, ◌≡◌, ◌≢◌, refl, ap, ◌∙◌, Bool, true, false, ◌||◌, some, List, [], ◌∷◌, ◌++◌, reverse,
  length, length-append, take, drop, arith, All, ◌==◌,
}
use mathlib.Core.List.{append_assoc, reverse-append, reverse-reverse}
use ratash.Common.Result.{ok}
use ratash.Common.Text.{Text, trim, trim_start, is_whitespace, joined}
use ratash.Rule.Types.{RuleType, missing_policy_target, as_str}
use ratash.Rule.Parse.{
  comma, ScanStep, closed, scanning, scan_step, scan, logical_payload_end, end_or_error,
  strip_comma, next_field, after_next, parse_logical_rule, parse_rule,
}
use ratash.Rule.Parse.RoundTrip.{
  IsField, trimmed_fields_lem, required_field-ne, shape, logical, parse_shape, parse_rule_typed,
}

-- What may stand between the brackets of a character class: every character but a backslash and
-- a closing bracket, and a backslash with the character that it escapes.
pub data InClass : Text → Type 0 where
  class_end : InClass []
  member : {c : ℕ} {k : Text} → (c == b'\\' || c == b']') ≡ false → InClass k → InClass (c ∷ k)
  escaped_member : {c : ℕ} {k : Text} → InClass k → InClass (b'\\' ∷ c ∷ k)

-- What may stand between two parentheses: every character but a backslash, an opening bracket and
-- a parenthesis; a backslash with the character that it escapes; a character class in brackets;
-- and again such a text between parentheses.
pub data Inside : Text → Type 0 where
  done : Inside []
  plain :
      {c : ℕ} {s : Text}
      → (c == b'\\' || (c == b'[' || (c == b'(' || c == b')'))) ≡ false
      → Inside s
      → Inside (c ∷ s)
  escape : {c : ℕ} {s : Text} → Inside s → Inside (b'\\' ∷ c ∷ s)
  class : (k : Text) {s : Text} → InClass k → Inside s → Inside (b'[' ∷ (k ++ b']' ∷ s))
  group : (inner : Text) {s : Text} → Inside inner → Inside s → Inside (b'(' ∷ (inner ++ b')' ∷ s))

step_class :
    (depth c : ℕ)
    → (c == b'\\' || c == b']') ≡ false
    → scan_step depth false true c ≡ scanning depth false true
unfolding scan_step
step_class depth c h = ground (arith, h)

step_plain :
    (depth c : ℕ)
    → (c == b'\\' || (c == b'[' || (c == b'(' || c == b')'))) ≡ false
    → scan_step (depth + 1) false false c ≡ scanning (depth + 1) false false
unfolding scan_step
step_plain depth c h = ground (arith, h)

step_close :
    (depth : ℕ) → scan_step (depth + 1 + 1) false false b')' ≡ scanning (depth + 1) false false
unfolding scan_step
step_close depth = ground arith

step_open : (depth : ℕ) → scan_step depth false false b'(' ≡ scanning (depth + 1) false false
unfolding scan_step
step_open depth = refl

step_escape :
    (depth : ℕ) (in_class : Bool)
    → scan_step depth false in_class b'\\' ≡ scanning depth true in_class
unfolding scan_step
step_escape depth in_class = refl

step_escaped :
    (depth : ℕ) (in_class : Bool) (c : ℕ)
    → scan_step depth true in_class c ≡ scanning depth false in_class
unfolding scan_step
step_escaped depth in_class c = refl

step_bracket : (depth : ℕ) → scan_step depth false false b'[' ≡ scanning depth false true
unfolding scan_step
step_bracket depth = refl

step_unbracket : (depth : ℕ) → scan_step depth false true b']' ≡ scanning depth false false
unfolding scan_step
step_unbracket depth = refl

scan_next :
    (depth : ℕ) (escaped in_class : Bool) (c : ℕ) {next : ScanStep}
    → scan_step depth escaped in_class c ≡ next
    → (index : ℕ) (rest : Text)
    → scan index (scanning depth escaped in_class) (c ∷ rest) ≡ scan (index + 1) next rest
unfolding scan
scan_next depth escaped in_class c h index rest = ap (λ next. scan (index + 1) next rest) h

-- Scanning goes on at an index that is the same number.
at_index : {i j : ℕ} (step : ScanStep) (rest : Text) → i ≡ j → scan i step rest ≡ scan j step rest
at_index step rest h = ap (λ i. scan i step rest) h

scan_class :
    {k : Text} (members : InClass k) (rest : Text) (index depth : ℕ)
    → scan index (scanning depth false true) (k ++ b']' ∷ rest)
      ≡ scan (index + length k + 1) (scanning depth false false) rest
scan_class class_end rest index depth =
    scan_next depth false true b']' (step_unbracket depth) index rest
    ∙ at_index (scanning depth false false) rest (omega arith)
scan_class (member {c} {k} h members) rest index depth =
    scan_next depth false true c (step_class depth c h) index (k ++ b']' ∷ rest)
    ∙ scan_class members rest (index + 1) depth
    ∙ at_index (scanning depth false false) rest (omega arith)
scan_class (escaped_member {c} {k} members) rest index depth =
    scan_next depth false true b'\\' (step_escape depth true) index (c ∷ (k ++ b']' ∷ rest))
    ∙ scan_next depth true true c (step_escaped depth true c) (index + 1) (k ++ b']' ∷ rest)
    ∙ scan_class members rest (index + 1 + 1) depth
    ∙ at_index (scanning depth false false) rest (omega arith)

pub scan-Inside :
    {s : Text} (inside : Inside s) (rest : Text) (index depth : ℕ)
    → scan index (scanning (depth + 1) false false) (s ++ rest)
      ≡ scan (index + length s) (scanning (depth + 1) false false) rest
scan-Inside done rest index depth = at_index (scanning (depth + 1) false false) rest (omega arith)
scan-Inside (plain {c} {s} h inside) rest index depth =
    scan_next (depth + 1) false false c (step_plain depth c h) index (s ++ rest)
    ∙ scan-Inside inside rest (index + 1) depth
    ∙ at_index (scanning (depth + 1) false false) rest (omega arith)
scan-Inside (escape {c} {s} inside) rest index depth =
    scan_next (depth + 1) false false b'\\' (step_escape (depth + 1) false) index (c ∷ (s ++ rest))
    ∙ scan_next (depth + 1) true false c (step_escaped (depth + 1) false c) (index + 1) (s ++ rest)
    ∙ scan-Inside inside rest (index + 1 + 1) depth
    ∙ at_index (scanning (depth + 1) false false) rest (omega arith)
scan-Inside (class k {s} h inside) rest index depth =
    scan_next (depth + 1) false false b'[' (step_bracket (depth + 1)) index _
    ∙ ap (scan (index + 1) (scanning (depth + 1) false true)) (append_assoc k (b']' ∷ s) rest)
    ∙ scan_class h (s ++ rest) (index + 1) (depth + 1)
    ∙ scan-Inside inside rest (index + 1 + length k + 1) depth
    ∙ at_index (scanning (depth + 1) false false) rest (omega (arith, length-append k (b']' ∷ s)))
scan-Inside (group inner {s} g inside) rest index depth =
    scan_next (depth + 1) false false b'(' (step_open (depth + 1)) index _
    ∙ ap (scan (index + 1) (scanning (depth + 1 + 1) false false))
        (append_assoc inner (b')' ∷ s) rest)
    ∙ scan-Inside g (b')' ∷ (s ++ rest)) (index + 1) (depth + 1)
    ∙ scan_next (depth + 1 + 1) false false b')' (step_close depth) (index + 1 + length inner)
        (s ++ rest)
    ∙ scan-Inside inside rest (index + 1 + length inner + 1) depth
    ∙ at_index (scanning (depth + 1) false false) rest
        (omega (arith, length-append inner (b')' ∷ s)))

step_last : scan_step 1 false false b')' ≡ closed
unfolding scan_step
step_last = refl

scan_closed : (index : ℕ) (rest : Text) → scan index closed rest ≡ some index
unfolding scan
scan_closed index rest = refl

-- The end is found behind the parenthesis that closes the first one.
pub logical_payload_end-group :
    (inner rest : Text)
    → Inside inner
    → logical_payload_end (b'(' ∷ (inner ++ b')' ∷ rest)) ≡ some (length inner + 2)
unfolding logical_payload_end
logical_payload_end-group inner rest inside =
    scan_next 0 false false b'(' (step_open 0) 0 (inner ++ b')' ∷ rest)
    ∙ scan-Inside inside (b')' ∷ rest) 1 0
    ∙ scan_next 1 false false b')' step_last (1 + length inner) rest
    ∙ scan_closed (1 + length inner + 1) rest
    ∙ ap some (omega arith)

trim-grouped : (inner : Text) → trim (b'(' ∷ (inner ++ b')' ∷ [])) ≡ b'(' ∷ (inner ++ b')' ∷ [])
unfolding trim trim_start is_whitespace
trim-grouped inner = rw (reverse-append (b'(' ∷ inner) (b')' ∷ [])) (
    reverse-append (b')' ∷ []) (reverse (b'(' ∷ inner))
    ∙ ap (λ x. x ++ b')' ∷ []) (reverse-reverse (b'(' ∷ inner)))

take_past : (xs ys : Text) (y : ℕ) → take (length xs + 1) (xs ++ y ∷ ys) ≡ xs ++ y ∷ []
take_past [] ys y = refl
take_past (x ∷ xs) ys y = ground (arith, take_past xs ys y)

drop_past : (xs ys : Text) (y : ℕ) → drop (length xs + 1) (xs ++ y ∷ ys) ≡ ys
drop_past [] ys y = refl
drop_past (x ∷ xs) ys y = ground (arith, drop_past xs ys y)

take-group :
    (inner rest : Text)
    → take (length inner + 2) (b'(' ∷ (inner ++ b')' ∷ rest)) ≡ b'(' ∷ (inner ++ b')' ∷ [])
take-group inner rest =
    ap (λ n. take n (b'(' ∷ (inner ++ b')' ∷ rest))) {x = length inner + 2}
      {y = suc (length inner + 1)} (omega arith)
    ∙ ap (◌∷◌ b'(') (take_past inner rest b')')

drop-group : (inner rest : Text) → drop (length inner + 2) (b'(' ∷ (inner ++ b')' ∷ rest)) ≡ rest
drop-group inner rest =
    ap (λ n. drop n (b'(' ∷ (inner ++ b')' ∷ rest))) {x = length inner + 2}
      {y = suc (length inner + 1)} (omega arith)
    ∙ drop_past inner rest b')'

logical_fields :
    (rule : Text) (t : RuleType) (inner target : Text) (params : List Text)
    → Inside inner
    → All IsField (target ∷ params)
    → target ≢ []
    → parse_logical_rule rule t (b'(' ∷ (inner ++ b')' ∷ comma ∷ joined comma (target ∷ params)))
      ≡ ok (record {
        original = rule;
        rule_type = t;
        payload = some (b'(' ∷ (inner ++ b')' ∷ []));
        policy_target = target;
        params = params;
      })
unfolding parse_logical_rule next_field after_next end_or_error strip_comma trim_start is_whitespace
logical_fields rule t inner target params inside h nt =
    let rest = comma ∷ joined comma (target ∷ params) in
    rw
      (
        logical_payload_end-group inner rest inside,
        drop-group inner rest,
        take-group inner rest,
        trim-grouped inner,
        trimmed_fields_lem (target ∷ params) h (cc),
        required_field-ne target (missing_policy_target t) nt,
      )
      refl

-- A logical rule, whose payload is a text between parentheses that are balanced outside of
-- escapes and character classes, is read back as its payload, its target and its parameters: the
-- payload ends at the parenthesis that closes the first one, whatever commas it holds.
pub parse_rule-logical :
    (t : RuleType) (inner target : Text) (params : List Text)
    → shape t ≡ logical
    → Inside inner
    → All IsField (target ∷ params)
    → target ≢ []
    → parse_rule
        (as_str t ++ comma ∷ (b'(' ∷ (inner ++ b')' ∷ comma ∷ joined comma (target ∷ params))))
      ≡ ok (record {
        original =
            as_str t ++ comma ∷ (b'(' ∷ (inner ++ b')' ∷ comma ∷ joined comma (target ∷ params)));
        rule_type = t;
        payload = some (b'(' ∷ (inner ++ b')' ∷ []));
        policy_target = target;
        params = params;
      })
unfolding parse_shape
parse_rule-logical t inner target params is_logical inside h nt =
    let tail = b'(' ∷ (inner ++ b')' ∷ comma ∷ joined comma (target ∷ params)) in
    parse_rule_typed t tail
    ∙ ap (λ k. parse_shape k (as_str t ++ comma ∷ tail) t tail) is_logical
    ∙ logical_fields (as_str t ++ comma ∷ tail) t inner target params inside h nt
