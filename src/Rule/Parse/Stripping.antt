-- ===== src/Rule/Parse/Stripping.antt =====
-- The loop of `parse_regex_rule` of src/rule.rs that takes the parameters off the end.
use ratash.Common.{
  ℕ, suc, zero, ◌+◌, ◌≤◌, ◌<◌, ◌≡◌, refl, ap, true, false, not, ◌||◌, Option, none, some, List, [],
  ◌∷◌, ◌++◌, length, arith, ◌==◌, Bool-cases, inl, inr,
}
use ratash.Common.Text.{Text, trim, rsplit_once, last_split, contains_char}
use ratash.Rule.Parse.{comma, is_rule_parameter, strip_params}

last_split-length :
    (c : ℕ) (s head tail : Text) (o : Option (Text × Text))
    → ((front back : Text) → o ≡ some (front, back) → length s ≡ length front + length back + 1)
    → last_split comma c s o ≡ some (head, tail)
    → suc (length s) ≡ length head + length tail + 1
last_split-length c s head tail (some (front, back)) le h =
    let same_head : c ∷ front ≡ head = cc (h) in
    let same_tail : back ≡ tail = cc (h) in
    rw (← same_head, ← same_tail) (omega (arith, le front back refl))
last_split-length c s head tail none le h = elim (Bool-cases (c == comma)) [
  | inl b ↦
      let same_head : [] ≡ head = cc (rw b at h) in
      let same_tail : s ≡ tail = cc (rw b at h) in rw (← same_head, ← same_tail) (omega arith)
  | inr b ↦ cc (rw b at h)
]

-- The two parts and the separator are the whole text.
rsplit_once-length :
    (s : Text) (head tail : Text)
    → rsplit_once comma s ≡ some (head, tail)
    → length s ≡ length head + length tail + 1
unfolding rsplit_once
rsplit_once-length [] head tail h = cc (h)
rsplit_once-length (c ∷ s) head tail h =
    last_split-length c s head tail (rsplit_once comma s) (rsplit_once-length s) h

-- The condition under which the loop goes on with the head.
abbrev pub Stops : Text → Option (Text × Text) → Type 0
Stops text none = Unit
Stops text (some (head, tail)) =
    (not (is_rule_parameter (trim tail)) || not (contains_char comma head)) ≡ true

strip_end :
    (fuel : ℕ) (text : Text) (params : List Text) (o : Option (Text × Text))
    → rsplit_once comma text ≡ o
    → Stops text o
    → strip_params (suc fuel) text params ≡ (text, params)
unfolding strip_params
strip_end fuel text params none same stop = rw (strip_params, same) refl
strip_end fuel text params (some (head, tail)) same stop = rw (strip_params, same, stop) refl

strip_more :
    (fuel : ℕ) (text : Text) (params : List Text) (head tail : Text)
    → rsplit_once comma text ≡ some (head, tail)
    → (not (is_rule_parameter (trim tail)) || not (contains_char comma head)) ≡ false
    → strip_params (suc fuel) text params ≡ strip_params fuel head (params ++ trim tail ∷ [])
unfolding strip_params
strip_more fuel text params head tail same go = rw (strip_params, same, go) refl

-- Nothing is left to strip.
abbrev pub IsStripped : Text → Type 0
IsStripped text = Stops text (rsplit_once comma text)

stop_here :
    (fuel : ℕ) (text : Text) (params : List Text) (o : Option (Text × Text))
    → rsplit_once comma text ≡ o
    → Stops text o
    → IsStripped (strip_params (suc fuel) text params).0
stop_here fuel text params o same stop =
    rw (ap (λ r. r.0) (strip_end fuel text params o same stop)) (rw (← same) at stop)

strip_step :
    (fuel : ℕ) (text : Text) (params : List Text) (o : Option (Text × Text))
    → rsplit_once comma text ≡ o
    → ((head : Text) (more : List Text)
        → length head < length text
        → IsStripped (strip_params fuel head more).0)
    → IsStripped (strip_params (suc fuel) text params).0
strip_step fuel text params none same rest = stop_here fuel text params none same tt
strip_step fuel text params (some (head, tail)) same rest =
    elim (Bool-cases (not (is_rule_parameter (trim tail)) || not (contains_char comma head))) [
      | inl b ↦ stop_here fuel text params (some (head, tail)) same b
      | inr b ↦ rw (ap (λ r. r.0) (strip_more fuel text params head tail same b)) (
          rest head (params ++ trim tail ∷ [])
            (omega (arith, rsplit_once-length text head tail same)))
    ]

-- The loop of `parse_regex_rule` ends because its condition fails, and never because it has run
-- for as many rounds as the text is long: what is left has no comma, or its last field is no
-- parameter, or there is no other comma in front of that field.
pub strip_params-IsStripped :
    (fuel : ℕ) (text : Text) (params : List Text)
    → length text ≤ fuel
    → IsStripped (strip_params fuel text params).0
strip_params-IsStripped zero [] params h = unfold strip_params rsplit_once in tt
strip_params-IsStripped zero (c ∷ s) params h = absurd (omega (arith, h))
strip_params-IsStripped (suc fuel) text params h =
    strip_step fuel text params (rsplit_once comma text) refl
      (λ head more lt. strip_params-IsStripped fuel head more (omega (arith, lt, h)))
