-- ===== src/Profile/Examples.antt =====
-- A document and a catalog on which the theorems on src/profile.rs are run.
use ratash.Common.{ℕ, ◌≡◌, refl, Option, none, some, List, [], ◌∷◌, arith, inr}
use ratash.Common.Map
use ratash.Common.Result.{ok, err}
use ratash.Common.Text.{Text, codes}
use ratash.Profile.Snapshot.{
  Value, Mapping, string, sequence, mapping, no_values, value_and, no_entries, entry_and,
  SnapshotLimits, ProfileSnapshot, parse, yaml_depth, without_mark, yaml_or_error, mapping_or_error,
  extract_rules, rules_of, string_rules, entry_of, is_key,
}
use ratash.Profile.Snapshot.Parsed.{Parsed, parse-Parsed}
use ratash.Profile.Catalog.{
  Profile, ProfileCatalog, RefreshContext, new, new_profile, insert, insert_all, restore,
  checked_active, candidates, resolve_parsed, resolve, refresh_context, refresh_profile,
  commit_refresh, or_error, with_error, only_candidate, stale_revision,
}
use ratash.Profile.Catalog.Names.{IsKeyed, Resolved, resolve-Resolved}
use ratash.Profile.Catalog.Histories.{
  Change, adding, activating, removing, refreshing, make, make_all, IsSound, make_all-IsSound,
}
use ratash.Profile.Catalog.Outcomes.{refreshed}
use ratash.Profile.Catalog.Refresh.{commit_refresh-unchanged}
use ratash.Profile.Catalog.Commit.{commit_refresh_once}

abbrev parse_number : Text → Option ℕ
parse_number (n ∷ []) = some n
parse_number _ = none

abbrev snapshot_of : List ℕ → ProfileSnapshot
snapshot_of raw = record {
  raw = raw;
  document = no_entries;
  rule_strings = [];
  content_sha256 = [];
}

abbrev profile_of : ℕ → Text → Profile Text
profile_of id name = new_profile id name (codes "https://a") (snapshot_of (1 ∷ [])) 10 20

abbrev two_profiles : List (Profile Text)
two_profiles = profile_of 1 (codes "one") ∷ profile_of 2 (codes "two") ∷ []

-- The second profile is active.
abbrev catalog : ProfileCatalog Text
catalog = record {
  profiles = (1, profile_of 1 (codes "one")) ∷ (2, profile_of 2 (codes "two")) ∷ [];
  active_profile_id = some 2;
  active_revision = 3;
}

abbrev context : RefreshContext
context = record { profile_revision = 1; active_revision = some 3 }

restored : restore two_profiles 2 3 ≡ ok catalog
unfolding restore insert_all insert checked_active with_error new Map.get Map.insert new_profile
restored = refl

resolved : resolve parse_number (codes "two") catalog ≡ ok 2
unfolding resolve resolve_parsed candidates only_candidate new_profile
resolved = refl

taken : refresh_context 2 catalog ≡ ok context
unfolding refresh_context or_error Map.get new_profile
taken = refl

catalog-IsSorted : Map.IsSorted catalog.profiles
catalog-IsSorted = (omega arith, tt)

catalog-IsKeyed : IsKeyed catalog.profiles
unfolding IsKeyed make_all
catalog-IsKeyed =
    (make_all-IsSound parse_number [] catalog (inr (two_profiles, 2, 3, restored))).keyed

resolve-Resolved_example : Resolved (parse_number (codes "two")) (codes "two") catalog.profiles 2
resolve-Resolved_example =
    resolve-Resolved parse_number (codes "two") catalog 2 catalog-IsSorted catalog-IsKeyed resolved

abbrev changes : List (Change Text)
changes =
    activating (codes "one")
    ∷ removing (codes "two")
    ∷ adding (profile_of 3 (codes "two"))
    ∷ refreshing 1 (record { profile_revision = 1; active_revision = some 4 }) (snapshot_of []) 30
        40
    ∷ []

make_all-IsSound_example : IsSound (make_all parse_number changes catalog)
make_all-IsSound_example =
    make_all-IsSound parse_number changes catalog (inr (two_profiles, 2, 3, restored))

-- The other profile is refreshed while this one is downloaded.
abbrev between : List (Change Text)
between =
    refreshing 1 (record { profile_revision = 1; active_revision = none }) (snapshot_of []) 30 40
    ∷ []

abbrev committed : ProfileCatalog Text
committed = record {
  profiles =
      (
        1,
        record (profile_of 1 (codes "one")) {
          snapshot = snapshot_of [];
          revision = 2;
          last_success_at_unix_ms = 30;
          next_refresh_at_unix_ms = 40;
        },
      )
      ∷ (
        2,
        record (profile_of 2 (codes "two")) {
          snapshot = snapshot_of (5 ∷ []);
          revision = 2;
          last_success_at_unix_ms = 50;
          next_refresh_at_unix_ms = 60;
        },
      )
      ∷ [];
  active_profile_id = some 2;
  active_revision = 3;
}

commits :
    commit_refresh 2 context (snapshot_of (5 ∷ [])) 50 60 (make_all parse_number between catalog)
    ≡ ok (2, committed)
unfolding commit_refresh refresh_profile or_error Map.get Map.insert new_profile make_all make
commits = refl

commit_refresh-unchanged_example :
    (Map.get 2 (make_all parse_number between catalog).profiles ≡ Map.get 2 catalog.profiles)
    × ((make_all parse_number between catalog).active_profile_id ≡ some 2
        → (catalog.active_profile_id ≡ some 2)
          × (catalog.active_revision ≡ (make_all parse_number between catalog).active_revision))
commit_refresh-unchanged_example =
    commit_refresh-unchanged parse_number 2 context between (snapshot_of (5 ∷ [])) 50 60 2 catalog
      committed taken (tt, tt) commits

commit_refresh_once_example :
    (t : ProfileCatalog Text) × (p : Profile Text) × ((commit_refresh 2 context
          (snapshot_of (5 ∷ []))
          50
          60
          catalog
        ≡ ok (2, t))
      × ((Map.get 2 t.profiles ≡ some (refreshed p (snapshot_of (5 ∷ [])) 2 50 60))
          × (commit_refresh 2 context (snapshot_of (6 ∷ [])) 50 60 t ≡ err (stale_revision 1 2))))
commit_refresh_once_example =
    commit_refresh_once 2 context (snapshot_of (5 ∷ [])) (snapshot_of (6 ∷ [])) 50 60 catalog taken
      (ground arith)

-- `rules: [A]` behind a byte order mark, as a reader would return it.
abbrev document : Mapping
document =
    entry_and (string (codes "rules")) (sequence (value_and (string (codes "A")) no_values))
      no_entries

abbrev from_slice : List ℕ → Option Value
from_slice [] = none
from_slice (_ ∷ _) = some (mapping document)

abbrev raw : List ℕ
raw = 0xef ∷ 0xbb ∷ 0xbf ∷ 65 ∷ []

abbrev limits : SnapshotLimits
limits = record { max_bytes = 4; max_depth = 3 }

abbrev snapshot : ProfileSnapshot
snapshot = record {
  raw = raw;
  document = document;
  rule_strings = codes "A" ∷ [];
  content_sha256 = 7 ∷ [];
}

parsed : parse from_slice (λ _. 7 ∷ []) raw limits ≡ ok snapshot
unfolding parse yaml_depth without_mark yaml_or_error mapping_or_error extract_rules rules_of
    string_rules entry_of is_key
parsed = refl

parse-Parsed_example : Parsed from_slice (λ _. 7 ∷ []) raw limits snapshot
parse-Parsed_example = parse-Parsed from_slice (λ _. 7 ∷ []) raw limits snapshot parsed
