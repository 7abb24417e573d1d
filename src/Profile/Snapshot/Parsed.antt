-- ===== src/Profile/Snapshot/Parsed.antt =====
-- `ProfileSnapshot::parse` of src/profile.rs against what a document is.
use ratash.Common.{
  ℕ, ◌+◌, ◌≤◌, ◌≡◌, ◌≢◌, sym, ap, ◌∙◌, true, false, ◌&&◌, Option, none, some, List, [], ◌∷◌, length,
  arith, ◌==◌, ltb, Bool-cases, Option-cases, inl, inr, ◌⊎◌,
}
use ratash.Common.Result.{ok, bind-ok, ok-injective}
use ratash.Common.Text.{Text, codes, same_text_iff, same_text_refl}
use ratash.Profile.Snapshot.{
  Value, Values, Mapping, null, boolean, number, string, sequence, mapping, tagged, no_values,
  value_and, no_entries, entry_and, SnapshotLimits, ProfileSnapshot, yaml_depth, values_depth,
  entries_depth, is_key, entry_of, string_rules, rules_of, extract_rules, without_mark,
  yaml_or_error, mapping_or_error, parse,
}

-- A sequence of strings.
abbrev pub strings : List Text → Values
strings [] = no_values
strings (rule ∷ rules) = value_and (string rule) (strings rules)

pub data InValues (value : Value) : Values → Type 0 where
  first : {values : Values} → InValues value (value_and value values)
  further :
      {other : Value} {values : Values}
      → InValues value values
      → InValues value (value_and other values)

pub data HasEntry (key value : Value) : Mapping → Type 0 where
  first_entry : {entries : Mapping} → HasEntry key value (entry_and key value entries)
  further_entry :
      {other_key other : Value} {entries : Mapping}
      → HasEntry key value entries
      → HasEntry key value (entry_and other_key other entries)

-- A chain of so many values, each inside the one before: as a member of a sequence, as a key or a
-- value of a mapping, or behind a tag.
pub data Nested : ℕ → Value → Type 0 where
  alone : (value : Value) → Nested 1 value
  member :
      {n : ℕ} {value : Value} {values : Values}
      → InValues value values
      → Nested n value
      → Nested (n + 1) (sequence values)
  key :
      {n : ℕ} {k value : Value} {entries : Mapping}
      → HasEntry k value entries
      → Nested n k
      → Nested (n + 1) (mapping entries)
  entry :
      {n : ℕ} {k value : Value} {entries : Mapping}
      → HasEntry k value entries
      → Nested n value
      → Nested (n + 1) (mapping entries)
  behind_tag :
      {n : ℕ} {tag : Text} {value : Value} → Nested n value → Nested (n + 1) (tagged tag value)

-- The rules of a document: the strings of the sequence under the key `rules`, all of them, or none
-- if there is no such key.
abbrev pub IsRules : Mapping → List Text → Type 0
IsRules document rules =
    HasEntry (string (codes "rules")) (sequence (strings rules)) document
    ⊎ ((rules ≡ []) × ((value : Value) → HasEntry (string (codes "rules")) value document → ⊥))

-- The bytes without the byte order mark in front of them, if there is one.
pub data Unmarked : List ℕ → List ℕ → Type 0 where
  marked : (body : List ℕ) → Unmarked (0xef ∷ 0xbb ∷ 0xbf ∷ body) body
  bare : {raw : List ℕ} → ((rest : List ℕ) → raw ≢ 0xef ∷ 0xbb ∷ 0xbf ∷ rest) → Unmarked raw raw

values_depth-InValues : (v : Value) (vs : Values) → InValues v vs → yaml_depth v ≤ values_depth vs
unfolding values_depth
values_depth-InValues v no_values i = elim i [ ]
values_depth-InValues v (value_and w vs) first = omega arith
values_depth-InValues v (value_and w vs) (further i) = omega (arith, values_depth-InValues v vs i)

entries_depth-HasEntry :
    (k v : Value) (m : Mapping)
    → HasEntry k v m
    → (yaml_depth k ≤ entries_depth m) × (yaml_depth v ≤ entries_depth m)
unfolding entries_depth
entries_depth-HasEntry k v no_entries i = elim i [ ]
entries_depth-HasEntry k v (entry_and k' v' m) first_entry = (omega arith, omega arith)
entries_depth-HasEntry k v (entry_and k' v' m) (further_entry i) =
    let (a, b) = entries_depth-HasEntry k v m i in (omega (arith, a), omega (arith, b))

yaml_depth-positive : (v : Value) → 1 ≤ yaml_depth v
unfolding yaml_depth
yaml_depth-positive null = omega arith
yaml_depth-positive (boolean b) = omega arith
yaml_depth-positive (number n) = omega arith
yaml_depth-positive (string s) = omega arith
yaml_depth-positive (sequence vs) = omega arith
yaml_depth-positive (mapping m) = omega arith
yaml_depth-positive (tagged t v) = omega arith

-- No chain is longer than the depth.
Nested-le : {n : ℕ} {v : Value} → Nested n v → n ≤ yaml_depth v
unfolding yaml_depth
Nested-le (alone v) = yaml_depth-positive v
Nested-le (member {n} {value} {values} i d) =
    omega (arith, Nested-le d, values_depth-InValues value values i)
Nested-le (key {n} {k} {value} {entries} i d) =
    omega (arith, Nested-le d, (entries_depth-HasEntry k value entries i).0)
Nested-le (entry {n} {k} {value} {entries} i d) =
    omega (arith, Nested-le d, (entries_depth-HasEntry k value entries i).1)
Nested-le (behind_tag d) = omega (arith, Nested-le d)

string_rules-ok :
    (index : ℕ) (vs : Values) (rules : List Text)
    → string_rules index vs ≡ ok rules
    → vs ≡ strings rules
unfolding string_rules
string_rules-ok index no_values rules h = ap strings (ok-injective h)
string_rules-ok index (value_and (string rule) vs) rules h =
    let (rest, (listed, same)) = bind-ok (string_rules (index + 1) vs) _ h in
    ap (value_and (string rule)) (string_rules-ok (index + 1) vs rest listed)
    ∙ ap strings (ok-injective same)
string_rules-ok index (value_and null vs) rules h = cc (h)
string_rules-ok index (value_and (boolean b) vs) rules h = cc (h)
string_rules-ok index (value_and (number n) vs) rules h = cc (h)
string_rules-ok index (value_and (sequence s) vs) rules h = cc (h)
string_rules-ok index (value_and (mapping m) vs) rules h = cc (h)
string_rules-ok index (value_and (tagged t v) vs) rules h = cc (h)

is_key-string : (name : Text) (k : Value) → is_key name k ≡ true → k ≡ string name
unfolding is_key
is_key-string name (string s) h = ap string ((same_text_iff s name).0 h)
is_key-string name null h = cc (h)
is_key-string name (boolean b) h = cc (h)
is_key-string name (number n) h = cc (h)
is_key-string name (sequence s) h = cc (h)
is_key-string name (mapping m) h = cc (h)
is_key-string name (tagged t v) h = cc (h)

is_key_self : (name : Text) → is_key name (string name) ≡ true
unfolding is_key
is_key_self name = same_text_refl name

entry_of-HasEntry :
    (name : Text) (m : Mapping) (v : Value) → entry_of name m ≡ some v → HasEntry (string name) v m
unfolding entry_of
entry_of-HasEntry name no_entries v h = cc (h)
entry_of-HasEntry name (entry_and k w m) v h = elim (Bool-cases (is_key name k)) [
  | inl e ↦ let same : w ≡ v = cc (rw e at h) in rw (is_key-string name k e, same) first_entry
  | inr e ↦ further_entry (entry_of-HasEntry name m v (rw e at h))
]

entry_of-none :
    (name : Text) (m : Mapping) (v : Value)
    → entry_of name m ≡ none
    → HasEntry (string name) v m
    → ⊥
unfolding entry_of
entry_of-none name no_entries v h i = elim i [ ]
entry_of-none name (entry_and k w m) v h first_entry = cc (rw (is_key_self name) at h)
entry_of-none name (entry_and k w m) v h (further_entry i) = elim (Bool-cases (is_key name k)) [
  | inl e ↦ cc (rw e at h)
  | inr e ↦ entry_of-none name m v (rw e at h) i
]

rules_of-sequence :
    (v : Value) (rules : List Text) → rules_of (some v) ≡ ok rules → v ≡ sequence (strings rules)
unfolding rules_of
rules_of-sequence (sequence vs) rules h = ap sequence (string_rules-ok 0 vs rules h)
rules_of-sequence null rules h = cc (h)
rules_of-sequence (boolean b) rules h = cc (h)
rules_of-sequence (number n) rules h = cc (h)
rules_of-sequence (string s) rules h = cc (h)
rules_of-sequence (mapping m) rules h = cc (h)
rules_of-sequence (tagged t v) rules h = cc (h)

rules_of-none : (rules : List Text) → rules_of none ≡ ok rules → rules ≡ []
unfolding rules_of
rules_of-none rules h = sym (ok-injective h)

extract_rules-IsRules :
    (m : Mapping) (rules : List Text) → extract_rules m ≡ ok rules → IsRules m rules
unfolding extract_rules
extract_rules-IsRules m rules h = elim (Option-cases (entry_of (codes "rules") m)) [
  | inl e ↦ inr (rules_of-none rules (rw e at h), λ v i. entry_of-none (codes "rules") m v e i)
  | inr (v, e) ↦
      inl (rw (← rules_of-sequence v rules (rw e at h)) (entry_of-HasEntry (codes "rules") m v e))
]

IsRules-along :
    {m m' : Mapping} {rules rules' : List Text}
    → m ≡ m'
    → rules ≡ rules'
    → IsRules m rules
    → IsRules m' rules'
IsRules-along e e' r = rw (← e, ← e') r

tail_of : List ℕ → List ℕ
tail_of [] = []
tail_of (a ∷ bytes) = bytes

head_of : List ℕ → ℕ
head_of [] = 0
head_of (a ∷ bytes) = a

not_marked :
    (a b d : ℕ) (raw rest : List ℕ)
    → (a == 0xef && (b == 0xbb && d == 0xbf)) ≡ false
    → a ∷ b ∷ d ∷ raw ≡ 0xef ∷ 0xbb ∷ 0xbf ∷ rest
    → ⊥
unfolding head_of tail_of
not_marked a b d raw rest e h =
    let same_a : a ≡ 0xef = ap head_of h in
    let same_b : b ≡ 0xbb = ap (λ l. head_of (tail_of l)) h in
    let same_d : d ≡ 0xbf = ap (λ l. head_of (tail_of (tail_of l))) h in
    ground (arith, e, same_a, same_b, same_d)

without_mark-Unmarked : (raw : List ℕ) → Unmarked raw (without_mark raw)
unfolding without_mark
without_mark-Unmarked [] = bare (λ rest h. cc (h))
without_mark-Unmarked (a ∷ []) = bare (λ rest h. cc (h))
without_mark-Unmarked (a ∷ b ∷ []) = bare (λ rest h. cc (h))
without_mark-Unmarked (a ∷ b ∷ d ∷ raw) =
    elim (Bool-cases (a == 0xef && (b == 0xbb && d == 0xbf))) [
      | inl e ↦
          let same_a : a ≡ 0xef = ground (arith, e) in
          let same_b : b ≡ 0xbb = ground (arith, e) in
          let same_d : d ≡ 0xbf = ground (arith, e) in rw (same_a, same_b, same_d) (marked raw)
      | inr e ↦ rw e (bare (λ rest h. not_marked a b d raw rest e h))
    ]

not_above : (n m : ℕ) → ltb n m ≡ false → m ≤ n
not_above n m h = ground (arith, h)

yaml_or_error-ok : (o : Option Value) (v : Value) → yaml_or_error o ≡ ok v → o ≡ some v
unfolding yaml_or_error
yaml_or_error-ok none v h = cc (h)
yaml_or_error-ok (some w) v h = ap some (ok-injective h)

mapping_or_error-ok : (v : Value) (m : Mapping) → mapping_or_error v ≡ ok m → v ≡ mapping m
unfolding mapping_or_error
mapping_or_error-ok (mapping d) m h = ap mapping (ok-injective h)
mapping_or_error-ok null m h = cc (h)
mapping_or_error-ok (boolean b) m h = cc (h)
mapping_or_error-ok (number n) m h = cc (h)
mapping_or_error-ok (string s) m h = cc (h)
mapping_or_error-ok (sequence s) m h = cc (h)
mapping_or_error-ok (tagged t v) m h = cc (h)

module _ (from_slice : List ℕ → Option Value) (sha256_hex : List ℕ → Text) where
  -- What a snapshot that was parsed is known to satisfy.
  pub record Parsed (raw : List ℕ) (limits : SnapshotLimits) (s : ProfileSnapshot) : Type 0 where
    pub keeps_raw : s.raw ≡ raw
    pub bytes_le : length raw ≤ limits.max_bytes
    pub body : List ℕ
    pub unmarked : Unmarked raw body
    pub is_read : from_slice body ≡ some (mapping s.document)
    pub depth_le : (n : ℕ) → Nested n (mapping s.document) → n ≤ limits.max_depth
    pub rules_are : IsRules s.document s.rule_strings
    pub hash_is : s.content_sha256 ≡ sha256_hex raw

  -- A snapshot that `parse` accepts keeps the bytes as they came, within the limit; its document
  -- is the mapping that was read from the bytes behind a byte order mark, or from all of them if
  -- none stands in front; no chain of values inside one another is longer in it than the limit;
  -- its rules are the strings of the sequence under `rules`, which holds nothing else, or there is
  -- no such key and no rule; and its hash is that of the bytes as they came.
  pub parse-Parsed :
      (raw : List ℕ) (limits : SnapshotLimits) (s : ProfileSnapshot)
      → parse from_slice sha256_hex raw limits ≡ ok s
      → Parsed raw limits s
  unfolding parse
  parse-Parsed raw limits s h = elim (Bool-cases (ltb limits.max_bytes (length raw))) [
    | inl e ↦ cc (rw e at h)
    | inr e ↦
        let (v, (found, h0)) =
          bind-ok (yaml_or_error (from_slice (without_mark raw))) _ (rw e at h) in
        elim (Bool-cases (ltb limits.max_depth (yaml_depth v))) [
          | inl f ↦ cc (rw f at h0)
          | inr f ↦
              let (d, (whole, h1)) = bind-ok (mapping_or_error v) _ (rw f at h0) in
              let (rules, (listed, h2)) = bind-ok (extract_rules d) _ h1 in
              let same = ok-injective h2 in
              let is_mapping = mapping_or_error-ok v d whole in
              let document = ap (λ x. x.document) same in
              record {
                keeps_raw = sym (ap (λ x. x.raw) same);
                body = without_mark raw;
                unmarked = without_mark-Unmarked raw;
                bytes_le = ground (arith, e);
                is_read =
                    yaml_or_error-ok (from_slice (without_mark raw)) v found
                    ∙ ap some is_mapping
                    ∙ ap (λ x. some (mapping x)) document;
                depth_le = λ n c. omega (
                  arith,
                  Nested-le (rw (← document) at c),
                  not_above limits.max_depth (yaml_depth (mapping d)) (rw is_mapping at f),
                );
                rules_are =
                    IsRules-along document (ap (λ x. x.rule_strings) same)
                      (extract_rules-IsRules d rules listed);
                hash_is = sym (ap (λ x. x.content_sha256) same);
              }
        ]
  ]
