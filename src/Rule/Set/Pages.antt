-- ===== src/Rule/Set/Pages.antt =====
-- `list_page`, `from_yaml` and `to_yaml` of src/rule.rs.
use ratash.Common.{
  ℕ, suc, zero, ◌+◌, ◌≤◌, ◌<◌, ◌^◌, min, ◌≡◌, refl, sym, ap, ◌∙◌, true, some, List, [], ◌∷◌, map,
  length, take, drop, length-drop, arith, All, All-take, leb, ltb, Bool-cases, inl, inr,
  saturating_add,
}
use ratash.Common.Result.{Result, ok, err, bind-ok, ok-injective}
use ratash.Common.Text.{Text, byte_length}
use ratash.Rule.Types.{RuleParseError, ParsedRule}
use ratash.Rule.Parse.{parse_rule, rule_string, RuleStringError}
use ratash.Rule.Set.{
  LocalRuleSet, RuleListEntry, RuleListPage, RuleSetLimits, initialized_at, parsed_entries,
  page_rules, page_of, list_page, string_or_error, rule_or_error, checked_rules, document_or_error,
  read_document, from_yaml,
}
use ratash.Rule.Set.Changes.{IsRule}

-- The entries are numbered from a start on.
abbrev pub Numbered : ℕ → List RuleListEntry → Type 0
Numbered start [] = Unit
Numbered start (entry ∷ entries) = (entry.index ≡ start) × Numbered (start + 1) entries

-- Rules that parse give an entry each, with its index and its parts.
pub record Lists (start : ℕ) (rules : List Text) (entries : List RuleListEntry) : Type 0 where
  pub rules_are : map (λ e. e.rule) entries ≡ rules
  pub parsed : All (λ e. parse_rule e.rule ≡ ok e.parsed) entries
  pub numbered : Numbered start entries

parsed_entries-Lists :
    (start : ℕ) (rules : List Text)
    → All IsRule rules
    → (entries : List RuleListEntry) × ((parsed_entries start rules ≡ ok entries)
        × Lists start rules entries)
unfolding parsed_entries IsRule
parsed_entries-Lists start [] h =
    ([], (refl, record { rules_are = refl; parsed = tt; numbered = tt }))
parsed_entries-Lists start (rule ∷ rules) ((parsed, same), h) =
    let (entries, (listed, lists)) = parsed_entries-Lists (start + 1) rules h in
    (
      record { index = start; rule = rule; parsed = parsed } ∷ entries,
      (
        rw (same, listed) refl,
        record {
          rules_are = ap (◌∷◌ rule) lists.rules_are;
          parsed = (same, lists.parsed);
          numbered = (refl, lists.numbered);
        },
      ),
    )

take_whole : (n : ℕ) (xs : List Text) → length xs ≤ n → take n xs ≡ xs
take_whole zero [] h = refl
take_whole zero (x ∷ xs) h = absurd (omega (arith, h))
take_whole (suc n) [] h = refl
take_whole (suc n) (x ∷ xs) h = ap (◌∷◌ x) (take_whole n xs (omega (arith, h)))

drop_whole : (n : ℕ) (xs : List Text) → length xs ≤ n → drop n xs ≡ []
drop_whole zero [] h = refl
drop_whole zero (x ∷ xs) h = absurd (omega (arith, h))
drop_whole (suc n) [] h = refl
drop_whole (suc n) (x ∷ xs) h = drop_whole n xs (omega (arith, h))

take-min : (n : ℕ) (xs : List Text) (m : ℕ) → (m ≡ min n (length xs)) → take m xs ≡ take n xs
take-min n xs m h = elim (Bool-cases (leb n (length xs))) [
  | inl e ↦ ap (λ k. take k xs) (ground (arith, e, h))
  | inr e ↦
      ap (λ k. take k xs) (ground (arith, e, h))
      ∙ take_whole (length xs) xs (omega arith)
      ∙ sym (take_whole n xs (ground (arith, e)))
]

take_nil : (n : ℕ) → ◌≡◌ {A = List Text} [] (take n [])
take_nil zero = refl
take_nil (suc n) = refl

All-drop : (n : ℕ) (xs : List Text) → All IsRule xs → All IsRule (drop n xs)
All-drop zero xs h = h
All-drop (suc n) [] h = tt
All-drop (suc n) (x ∷ xs) h = All-drop n xs h.1

page_rules_lem :
    (offset limit : ℕ) (rules : List Text)
    → length rules < 2 ^ 64
    → page_rules offset limit rules ≡ take limit (drop offset rules)
unfolding page_rules
page_rules_lem offset limit rules room =
    elim (Bool-cases (leb offset (min (saturating_add offset limit) (length rules)))) [
      | inl e ↦
          rw e (
            take-min limit (drop offset rules) _
              (ground (arith, e, room, length-drop offset rules)))
      | inr e ↦ rw (e, drop_whole offset rules (ground (arith, e, room))) (take_nil limit)
    ]

page_entries :
    (offset limit : ℕ) (rules : List Text)
    → length rules < 2 ^ 64
    → All IsRule rules
    → (page : RuleListPage) × ((page_of offset limit (some rules) ≡ ok page)
        × ((page.total ≡ length rules)
            × Lists offset (take limit (drop offset rules)) page.entries))
unfolding page_of
page_entries offset limit rules room h =
    let (entries, (listed, lists)) =
      parsed_entries-Lists offset (take limit (drop offset rules))
        (All-take IsRule limit (drop offset rules) (All-drop offset rules h)) in
    (
      record { initialized = true; total = length rules; offset = offset; entries = entries },
      (rw (page_rules_lem offset limit rules room, listed) refl, (refl, lists)),
    )

-- If every rule of an initialized set parses, a page never fails, whatever its offset and limit:
-- it tells the number of all rules, and its entries are those of the set behind the offset, as
-- many as the limit allows, numbered from the offset on and each with its parts.
pub list_page-Lists :
    (s : LocalRuleSet) (rules : List Text) (offset limit : ℕ)
    → s.rules ≡ some rules
    → length rules < 2 ^ 64
    → All IsRule rules
    → (page : RuleListPage) × ((list_page s offset limit ≡ ok page)
        × ((page.total ≡ length rules)
            × Lists offset (take limit (drop offset rules)) page.entries))
unfolding list_page
list_page-Lists s rules offset limit same room h = rw same (page_entries offset limit rules room h)

-- What `from_yaml` has checked.
pub record Checked (limits : RuleSetLimits) (rules : List Text) : Type 0 where
  pub count_le : length rules ≤ limits.max_rule_count
  pub bytes_le : All (λ rule. byte_length rule ≤ limits.max_rule_bytes) rules
  pub rules_parse : All IsRule rules

rule_string-ok :
    (value : Text) (max_bytes : ℕ) (rule : Text)
    → rule_string value max_bytes ≡ ok rule
    → (value ≡ rule) × (byte_length value ≤ max_bytes)
unfolding rule_string
rule_string-ok value max_bytes rule h = elim (Bool-cases (ltb max_bytes (byte_length value))) [
  | inl e ↦ cc (rw e at h)
  | inr e ↦ (ok-injective (rw e at h), ground (arith, e))
]

string_or_error-ok :
    (index : ℕ) (r : Result RuleStringError Text) (rule : Text)
    → string_or_error index r ≡ ok rule
    → r ≡ ok rule
unfolding string_or_error
string_or_error-ok index (ok x) rule h = ap ok (ok-injective h)
string_or_error-ok index (err e) rule h = cc (h)

rule_or_error-ok :
    (index : ℕ) (rule : Text) (r : Result RuleParseError ParsedRule) {u : Unit {0}}
    → parse_rule rule ≡ r
    → rule_or_error index r ≡ ok u
    → IsRule rule
unfolding rule_or_error IsRule
rule_or_error-ok index rule (ok parsed) same h = (parsed, same)
rule_or_error-ok index rule (err e) same h = cc (h)

checked_rules-ok :
    (index max_bytes : ℕ) (values rules : List Text)
    → checked_rules index max_bytes values ≡ ok rules
    → (values ≡ rules) × (All (λ rule. byte_length rule ≤ max_bytes) values × All IsRule values)
unfolding checked_rules
checked_rules-ok index max_bytes [] rules h = (ok-injective h, (tt, tt))
checked_rules-ok index max_bytes (value ∷ values) rules h =
    let (rule, (fits, h0)) = bind-ok (string_or_error index (rule_string value max_bytes)) _ h in
    let (u, (parses, h1)) = bind-ok (rule_or_error index (parse_rule rule)) _ h0 in
    let (rest, (checked, h2)) = bind-ok (checked_rules (index + 1) max_bytes values) _ h1 in
    let (same, small) =
      rule_string-ok value max_bytes rule (string_or_error-ok index _ rule fits) in
    let (others, (bytes, all)) = checked_rules-ok (index + 1) max_bytes values rest checked in
    (
      rw (same, others) (ok-injective h2),
      (
        (small, bytes),
        (rw (← same) at (rule_or_error-ok index rule (parse_rule rule) refl parses), all),
      ),
    )

module _ (read_rules : Text → Result Text (List Text)) where
  document_or_error-ok :
      (r : Result Text (List Text)) (rules : List Text)
      → document_or_error read_rules r ≡ ok rules
      → r ≡ ok rules
  unfolding document_or_error
  document_or_error-ok (ok x) rules h = ap ok (ok-injective h)
  document_or_error-ok (err e) rules h = cc (h)

  -- A success of `from_yaml` means that the document and the rules that were read from it keep
  -- the limits and that every rule parses; the set holds the rules as they were read, in their
  -- order, at the given revision.
  pub from_yaml-Checked :
      (document : Text) (revision : ℕ) (limits : RuleSetLimits) (s : LocalRuleSet)
      → from_yaml read_rules document revision limits ≡ ok s
      → (byte_length document ≤ limits.max_document_bytes)
        × ((rules : List Text) × ((read_rules document ≡ ok rules)
              × ((s ≡ initialized_at rules revision) × Checked limits rules)))
  unfolding from_yaml read_document
  from_yaml-Checked document revision limits s h =
      elim (Bool-cases (ltb limits.max_document_bytes (byte_length document))) [
        | inl e ↦ cc (rw e at h)
        | inr e ↦
            let (values, (values_read, h0)) =
              bind-ok (document_or_error read_rules (read_rules document)) _ (rw e at h) in
            elim (Bool-cases (ltb limits.max_rule_count (length values))) [
              | inl f ↦ cc (rw f at h0)
              | inr f ↦
                  let (rules, (checked, h1)) =
                    bind-ok (checked_rules 0 limits.max_rule_bytes values) _ (rw f at h0) in
                  let (same, (bytes, all)) =
                    checked_rules-ok 0 limits.max_rule_bytes values rules checked in
                  (
                    ground (arith, e),
                    (
                      values,
                      (
                        document_or_error-ok (read_rules document) values values_read,
                        (
                          sym (ok-injective h1) ∙ ap (λ x. initialized_at x revision) (sym same),
                          record {
                            count_le = ground (arith, f);
                            bytes_le = bytes;
                            rules_parse = all;
                          },
                        ),
                      ),
                    ),
                  )
            ]
      ]

  read_page :
      (revision offset page_limit : ℕ) (limits : RuleSetLimits) (s : LocalRuleSet)
      (rules : List Text)
      → limits.max_rule_count < 2 ^ 64
      → s ≡ initialized_at rules revision
      → Checked limits rules
      → (page : RuleListPage) × ((list_page s offset page_limit ≡ ok page)
          × ((page.total ≡ length rules)
              × Lists offset (take page_limit (drop offset rules)) page.entries))
  unfolding initialized_at
  read_page revision offset page_limit limits s rules room same c =
      list_page-Lists s rules offset page_limit (ap (λ x. x.rules) same)
        (omega (arith, c.count_le, room)) c.rules_parse

  -- A set that `from_yaml` has read under a limit on the number of rules that a `usize` can hold
  -- keeps the limits: the document and each rule are within their bytes, the rules are within
  -- their number, and each parses. The set holds the rules as they were read, in their order, at
  -- the given revision, and no page of it fails: whatever its offset and its limit, it tells the
  -- number of all rules, and its entries are those behind the offset, as many as the limit allows,
  -- numbered from the offset on and each with its parts.
  pub list_page-from_yaml :
      (document : Text) (revision offset page_limit : ℕ) (limits : RuleSetLimits) (s : LocalRuleSet)
      → limits.max_rule_count < 2 ^ 64
      → from_yaml read_rules document revision limits ≡ ok s
      → (byte_length document ≤ limits.max_document_bytes)
        × ((rules : List Text) × ((read_rules document ≡ ok rules)
              × ((s ≡ initialized_at rules revision)
                  × (Checked limits rules
                      × ((page : RuleListPage) × ((list_page s offset page_limit ≡ ok page)
                            × ((page.total ≡ length rules)
                                × Lists offset
                                    (take page_limit (drop offset rules))
                                    page.entries)))))))
  list_page-from_yaml document revision offset page_limit limits s room h =
      let (small, (rules, (was_read, (same, c)))) =
        from_yaml-Checked document revision limits s h in
      (
        small,
        (
          rules,
          (was_read, (same, (c, read_page revision offset page_limit limits s rules room same c))),
        ),
      )
