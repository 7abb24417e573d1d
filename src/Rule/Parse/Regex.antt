-- ===== src/Rule/Parse/Regex.antt =====
-- `parse_regex_rule` of src/rule.rs on texts that are put together from their parts. The payload
-- may hold commas: the target and the parameters are found from the end.
use ratash.Common.{
  ℕ, suc, zero, ◌≤◌, ◌≡◌, ◌≢◌, refl, sym, ap, ◌∙◌, true, false, not, ◌||◌, none, some, List, [],
  ◌∷◌, ◌++◌, reverse, length, length-append, arith, All, All-append, Bool-cases, ◌⊎◌, inl, inr,
}
use mathlib.Core.List.{append-nil, append_assoc, reverse-cons, reverse-reverse}
use ratash.Common.Result.{ok}
use ratash.Common.Text.{
  Text, codes, trim, trim_start, is_whitespace, rsplit_once, contains_char, joined, Lacks,
  same_text, same_text_iff,
}
use ratash.Rule.Types.{RuleType, missing_policy_target, missing_payload, as_str}
use ratash.Rule.Parse.{
  comma, is_rule_parameter, strip_params, split_or_error, parse_regex_rule, parse_rule,
}
use ratash.Rule.Parse.RoundTrip.{
  IsField, required_field-ne, shape, regex, parse_shape, parse_rule_typed,
}

-- The two parameters that a rule can have.
abbrev pub IsParameter : Text → Type 0
IsParameter p = (p ≡ codes "no-resolve") ⊎ (p ≡ codes "src")

rsplit_once-Lacks : (s : Text) → Lacks comma s → rsplit_once comma s ≡ none
unfolding rsplit_once
rsplit_once-Lacks [] h = refl
rsplit_once-Lacks (c ∷ s) h = rw (rsplit_once-Lacks s h.1) (ground (arith, h.0))

-- The last separator is the one in front of a text without any.
rsplit_once-append : (s t : Text) → Lacks comma t → rsplit_once comma (s ++ comma ∷ t) ≡ some (s, t)
unfolding rsplit_once
rsplit_once-append [] t h = rw (rsplit_once-Lacks t h) refl
rsplit_once-append (c ∷ s) t h = rw (rsplit_once-append s t h) refl

contains_char-append : (s t : Text) → contains_char comma (s ++ comma ∷ t) ≡ true
contains_char-append [] t = refl
contains_char-append (c ∷ s) t = ground (arith, contains_char-append s t)

contains_char-Lacks : (s : Text) → Lacks comma s → contains_char comma s ≡ false
contains_char-Lacks [] h = refl
contains_char-Lacks (c ∷ s) h = ground (arith, h.0, contains_char-Lacks s h.1)

parameter-Lacks : (p : Text) → IsParameter p → Lacks comma p
parameter-Lacks p (inl same) = rw same (omega arith)
parameter-Lacks p (inr same) = rw same (omega arith)

trim-parameter : (p : Text) → IsParameter p → trim p ≡ p
unfolding trim trim_start is_whitespace
trim-parameter p (inl same) = rw same refl
trim-parameter p (inr same) = rw same refl

is_rule_parameter-IsParameter : (p : Text) → IsParameter p → is_rule_parameter p ≡ true
unfolding is_rule_parameter
is_rule_parameter-IsParameter p (inl same) = rw same refl
is_rule_parameter-IsParameter p (inr same) = rw same refl

same_or_no : (s : Text) (t : Text) → s ≢ t → same_text s t ≡ false
same_or_no s t ne = elim (Bool-cases (same_text s t)) [
  | inl e ↦ absurd (ne ((same_text_iff s t).0 e))
  | inr e ↦ e
]

is_rule_parameter-not : (p : Text) → (IsParameter p → ⊥) → is_rule_parameter p ≡ false
unfolding is_rule_parameter
is_rule_parameter-not p h =
    rw
      (
        same_or_no p (codes "no-resolve") (λ e. h (inl e)),
        same_or_no p (codes "src") (λ e. h (inr e)),
      )
      refl

-- Parameters behind a text, the last one first.
abbrev behind : Text → List Text → Text
behind base [] = base
behind base (q ∷ qs) = behind base qs ++ comma ∷ q

joined-snoc :
    (field : Text) (fields : List Text) (last : Text)
    → joined comma (field ∷ (fields ++ last ∷ [])) ≡ joined comma (field ∷ fields) ++ comma ∷ last
unfolding joined
joined-snoc field [] last = refl
joined-snoc field (next ∷ fields) last =
    ap (λ s. field ++ comma ∷ s) (joined-snoc next fields last)
    ∙ sym (append_assoc field (comma ∷ joined comma (next ∷ fields)) (comma ∷ last))

joined-behind :
    (payload target : Text) (qs : List Text)
    → joined comma (payload ∷ target ∷ reverse qs) ≡ behind (payload ++ comma ∷ target) qs
joined-behind payload target [] = unfold joined in refl
joined-behind payload target (q ∷ qs) =
    ap (λ rest. joined comma (payload ∷ target ∷ rest)) (reverse-cons q qs)
    ∙ joined-snoc payload (target ∷ reverse qs) q
    ∙ ap (λ s. s ++ comma ∷ q) (joined-behind payload target qs)

contains_char-behind :
    (payload target : Text) (qs : List Text)
    → contains_char comma (behind (payload ++ comma ∷ target) qs) ≡ true
contains_char-behind payload target [] = contains_char-append payload target
contains_char-behind payload target (q ∷ qs) =
    contains_char-append (behind (payload ++ comma ∷ target) qs) q

length-behind : (base : Text) (qs : List Text) → length qs ≤ length (behind base qs)
length-behind base [] = omega arith
length-behind base (q ∷ qs) =
    omega (arith, length-behind base qs, length-append (behind base qs) (comma ∷ q))

-- The target ends the loop: it is no parameter, or no comma stands in front of it but the one
-- behind the payload.
abbrev pub EndsParameters : Text → Text → Type 0
EndsParameters payload target = (IsParameter target → ⊥) ⊎ Lacks comma payload

stopped :
    (payload target : Text)
    → trim target ≡ target
    → EndsParameters payload target
    → (not (is_rule_parameter (trim target)) || not (contains_char comma payload)) ≡ true
stopped payload target same (inl other) = rw (same, is_rule_parameter-not target other) refl
stopped payload target same (inr lacks) = rw (contains_char-Lacks payload lacks) (ground arith)

strip_end :
    (fuel : ℕ) (payload target : Text) (params : List Text)
    → IsField target
    → EndsParameters payload target
    → strip_params fuel (payload ++ comma ∷ target) params ≡ (payload ++ comma ∷ target, params)
unfolding strip_params
strip_end zero payload target params h ends = refl
strip_end (suc fuel) payload target params h ends =
    rw
      (
        strip_params,
        rsplit_once-append payload target h.lacks,
        stopped payload target h.trimmed ends,
      )
      refl

-- The loop takes every parameter off, from the last to the first.
strip_params-behind :
    (fuel : ℕ) (payload target : Text) (qs params : List Text)
    → length qs ≤ fuel
    → IsField target
    → EndsParameters payload target
    → All IsParameter qs
    → strip_params fuel (behind (payload ++ comma ∷ target) qs) params
      ≡ (payload ++ comma ∷ target, params ++ qs)
unfolding strip_params
strip_params-behind fuel payload target [] params enough h ends hs =
    strip_end fuel payload target params h ends
    ∙ ap (λ p. (payload ++ comma ∷ target, p)) (sym (append-nil params))
strip_params-behind zero payload target (q ∷ qs) params enough h ends hs =
    absurd (omega (arith, enough))
strip_params-behind (suc fuel) payload target (q ∷ qs) params enough h ends hs =
    let before = behind (payload ++ comma ∷ target) qs in
    rw
      (
        strip_params,
        rsplit_once-append before q (parameter-Lacks q hs.0),
        trim-parameter q hs.0,
        is_rule_parameter-IsParameter q hs.0,
        contains_char-behind payload target qs,
      )
      (strip_params-behind fuel payload target qs (params ++ q ∷ []) (omega (arith, enough)) h ends
          hs.1
        ∙ ap (λ p. (payload ++ comma ∷ target, p)) (append_assoc params (q ∷ []) qs))

All-reverse : (ps : List Text) → All IsParameter ps → All IsParameter (reverse ps)
All-reverse [] h = tt
All-reverse (p ∷ ps) h =
    rw (reverse-cons p ps)
      (All-append IsParameter (reverse ps) (p ∷ []) (All-reverse ps h.1) (h.0, tt))

stripped :
    (payload target : Text) (params : List Text)
    → IsField target
    → EndsParameters payload target
    → All IsParameter params
    → let text = joined comma (payload ∷ target ∷ params) in
      strip_params (length text) text [] ≡ (payload ++ comma ∷ target, reverse params)
stripped payload target params h ends hs =
    let qs = reverse params in
    let same : joined comma (payload ∷ target ∷ params) ≡ behind (payload ++ comma ∷ target) qs =
      ap (λ ps. joined comma (payload ∷ target ∷ ps)) (sym (reverse-reverse params))
      ∙ joined-behind payload target qs in
    rw same (
      strip_params-behind (length (behind (payload ++ comma ∷ target) qs)) payload target qs []
        (length-behind (payload ++ comma ∷ target) qs) h ends (All-reverse params hs))

regex_fields :
    (rule : Text) (t : RuleType) (payload target : Text) (params : List Text)
    → trim payload ≡ payload
    → payload ≢ []
    → IsField target
    → target ≢ []
    → EndsParameters payload target
    → All IsParameter params
    → parse_regex_rule rule t (joined comma (payload ∷ target ∷ params))
      ≡ ok (record {
        original = rule;
        rule_type = t;
        payload = some payload;
        policy_target = target;
        params = params;
      })
unfolding parse_regex_rule split_or_error
regex_fields rule t payload target params trimmed np h nt ends hs =
    rw
      (
        stripped payload target params h ends hs,
        rsplit_once-append payload target h.lacks,
        trimmed,
        h.trimmed,
        required_field-ne payload (missing_payload t) np,
        required_field-ne target (missing_policy_target t) nt,
        reverse-reverse params,
      )
      refl

-- A rule whose payload is a regular expression, spelled with its name, its payload, its target and
-- its parameters between commas, is read back as these parts, whatever commas the payload holds.
-- The payload and the target are not empty and have no blank at an end, the target holds no
-- comma, every parameter is `no-resolve` or `src`, and the target is neither of them unless the
-- payload holds no comma.
pub parse_rule-regex :
    (t : RuleType) (payload target : Text) (params : List Text)
    → shape t ≡ regex
    → trim payload ≡ payload
    → payload ≢ []
    → IsField target
    → target ≢ []
    → EndsParameters payload target
    → All IsParameter params
    → parse_rule (as_str t ++ comma ∷ joined comma (payload ∷ target ∷ params))
      ≡ ok (record {
        original = as_str t ++ comma ∷ joined comma (payload ∷ target ∷ params);
        rule_type = t;
        payload = some payload;
        policy_target = target;
        params = params;
      })
unfolding parse_shape
parse_rule-regex t payload target params is_regex trimmed np h nt ends hs =
    let tail = joined comma (payload ∷ target ∷ params) in
    parse_rule_typed t tail
    ∙ ap (λ k. parse_shape k (as_str t ++ comma ∷ tail) t tail) is_regex
    ∙ regex_fields (as_str t ++ comma ∷ tail) t payload target params trimmed np h nt ends hs
