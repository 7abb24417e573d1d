-- ===== src/Profile/Catalog.antt =====
-- `ProfileCatalog` of src/profile.rs. The type of a subscription URL and the parser of a UUID are
-- parameters.
pub mod Outcomes
pub mod Names
pub mod Histories
pub mod Refresh
pub mod Commit
use ratash.Common.{
  ℕ, ◌+◌, Bool, true, false, not, ◌&&◌, ◌||◌, Option, none, some, List, [], ◌∷◌, map, length, ◌==◌,
  ltb, if◌then◌else◌, is_some, same_option, checked_add, keep,
}
use ratash.Common.Map
use ratash.Common.Map.{Map}
use ratash.Common.Result.{Result, ok, err, ◌>>=◌}
use ratash.Common.Text.{Text, same_text}
use ratash.Constants.{profile_count_max}
use ratash.Profile.Snapshot.{ProfileSnapshot}

pub data RefreshStage : Type 0 where
  download : RefreshStage
  parsing : RefreshStage
  validate : RefreshStage
  apply : RefreshStage

pub record RefreshFailure : Type 0 where
  pub stage : RefreshStage
  pub safe_message : Text

pub record RefreshContext : Type 0 where
  pub profile_revision : ℕ
  pub active_revision : Option ℕ

pub record Profile (Url : Type 0) : Type 0 where
  pub id : ℕ
  pub name : Text
  pub subscription_url : Url
  pub snapshot : ProfileSnapshot
  pub revision : ℕ
  pub last_success_at_unix_ms : ℕ
  pub last_error : Option RefreshFailure
  pub next_refresh_at_unix_ms : ℕ
  pub selections : List (Text × ℕ)

pub record ProfileCatalog (Url : Type 0) : Type 0 where
  pub profiles : Map (Profile Url)
  pub active_profile_id : Option ℕ
  pub active_revision : ℕ

pub data ProfileSelectorError : Type 0 where
  not_found : ProfileSelectorError
  ambiguous : List ℕ → ProfileSelectorError
  active : ProfileSelectorError
  active_revision_exhausted : ProfileSelectorError

pub data ProfileInsertError : Type 0 where
  duplicate_id : ℕ → ProfileInsertError

pub data ProfileRestoreError : Type 0 where
  invalid_profile_count : ProfileRestoreError
  duplicate_profile_id : ProfileRestoreError
  active_profile_missing : ProfileRestoreError
  invalid_active_revision : ProfileRestoreError

pub data RefreshCommitError : Type 0 where
  profile_removed : RefreshCommitError
  stale_revision : ℕ → ℕ → RefreshCommitError
  active_revision_changed : Option ℕ → ℕ → RefreshCommitError
  revision_exhausted : RefreshCommitError

-- `ok_or` and `map_err`.
unfoldable pub or_error : {E A : Type 0} → Option A → E → Result E A
or_error none e = err e
or_error (some a) e = ok a

unfoldable pub with_error : {E F A : Type 0} → F → Result E A → Result F A
with_error e (ok a) = ok a
with_error e (err _) = err e

-- The slice patterns of `resolve`.
unfoldable pub only_candidate : List ℕ → Result ProfileSelectorError ℕ
only_candidate [] = err not_found
only_candidate (id ∷ []) = ok id
only_candidate candidate_ids = err (ambiguous candidate_ids)

module _ {Url : Type 0} where
  unfoldable pub new_profile : ℕ → Text → Url → ProfileSnapshot → ℕ → ℕ → Profile Url
  new_profile id name subscription_url snapshot last_success_at_unix_ms next_refresh_at_unix_ms =
      record {
        id = id;
        name = name;
        subscription_url = subscription_url;
        snapshot = snapshot;
        revision = 1;
        last_success_at_unix_ms = last_success_at_unix_ms;
        last_error = none;
        next_refresh_at_unix_ms = next_refresh_at_unix_ms;
        selections = [];
      }

  unfoldable pub new : ProfileCatalog Url
  new = record { profiles = []; active_profile_id = none; active_revision = 0 }

  unfoldable pub insert :
      Profile Url → ProfileCatalog Url → Result ProfileInsertError (ProfileCatalog Url)
  insert profile s =
      if Map.contains profile.id s.profiles
      then err (duplicate_id profile.id)
      else ok (record s { profiles = Map.insert profile.id profile s.profiles })

  -- The loop of `restore`.
  unfoldable pub insert_all :
      List (Profile Url) → ProfileCatalog Url → Result ProfileRestoreError (ProfileCatalog Url)
  insert_all [] s = ok s
  insert_all (profile ∷ profiles) s = do
    s' ← with_error duplicate_profile_id (insert profile s)
    insert_all profiles s'

  -- The end of `restore`.
  unfoldable pub checked_active :
      ℕ → ℕ → ProfileCatalog Url → Result ProfileRestoreError (ProfileCatalog Url)
  checked_active active_profile_id active_revision s =
      if not (Map.contains active_profile_id s.profiles)
      then err active_profile_missing
      else ok (record s {
        active_profile_id = some active_profile_id;
        active_revision = active_revision;
      })

  unfoldable pub restore :
      List (Profile Url) → ℕ → ℕ → Result ProfileRestoreError (ProfileCatalog Url)
  restore profiles active_profile_id active_revision =
      if length profiles == 0 || ltb profile_count_max (length profiles)
      then err invalid_profile_count
      else if active_revision == 0
      then err invalid_active_revision
      else (do s ← insert_all profiles new; checked_active active_profile_id active_revision s)

  -- The identifiers of the profiles of a name, in the order of the map.
  unfoldable pub candidates : Text → Map (Profile Url) → List ℕ
  candidates selector [] = []
  candidates selector ((_, profile) ∷ profiles) =
      let rest = candidates selector profiles in
      if same_text profile.name selector then profile.id ∷ rest else rest

  -- `resolve`, of a selector that was or was not parsed as an identifier.
  unfoldable pub resolve_parsed :
      Option ℕ → Text → ProfileCatalog Url → Result ProfileSelectorError ℕ
  resolve_parsed (some id) selector s = if Map.contains id s.profiles then ok id else err not_found
  resolve_parsed none selector s = only_candidate (candidates selector s.profiles)

  unfoldable pub activate_id :
      ℕ → ProfileCatalog Url → Result ProfileSelectorError (ℕ × ProfileCatalog Url)
  activate_id id s = if same_option s.active_profile_id (some id) then ok (id, s) else (do
    revision ← or_error (checked_add s.active_revision 1) active_revision_exhausted
    ok (id, record s { active_revision = revision; active_profile_id = some id }))

  unfoldable pub remove_id :
      ℕ → ProfileCatalog Url → Result ProfileSelectorError (Profile Url × ProfileCatalog Url)
  remove_id id s = if same_option s.active_profile_id (some id) then err active else (do
    profile ← or_error (Map.get id s.profiles) not_found
    ok (profile, record s { profiles = Map.remove id s.profiles }))

  unfoldable pub refresh_context : ℕ → ProfileCatalog Url → Result RefreshCommitError RefreshContext
  refresh_context id s = do
    profile ← or_error (Map.get id s.profiles) profile_removed
    ok (record {
      profile_revision = profile.revision;
      active_revision =
          if same_option s.active_profile_id (some id) then some s.active_revision else none;
    })

  -- The rest of `commit_refresh`, for the profile that was found.
  unfoldable pub refresh_profile :
      ℕ
      → RefreshContext
      → ProfileSnapshot
      → ℕ
      → ℕ
      → ProfileCatalog Url
      → Profile Url
      → Result RefreshCommitError (ℕ × ProfileCatalog Url)
  refresh_profile id context snapshot success_at_unix_ms next_refresh_at_unix_ms s profile =
      if not (profile.revision == context.profile_revision)
      then err (stale_revision context.profile_revision profile.revision)
      else if same_option s.active_profile_id (some id)
          && not (same_option context.active_revision (some s.active_revision))
      then err (active_revision_changed context.active_revision s.active_revision)
      else (do
        revision ← or_error (checked_add profile.revision 1) revision_exhausted
        ok (
          revision,
          record s {
            profiles =
                Map.insert id
                  (record profile {
                    snapshot = snapshot;
                    revision = revision;
                    last_success_at_unix_ms = success_at_unix_ms;
                    last_error = none;
                    next_refresh_at_unix_ms = next_refresh_at_unix_ms;
                  })
                  s.profiles;
          },
        ))

  unfoldable pub commit_refresh :
      ℕ
      → RefreshContext
      → ProfileSnapshot
      → ℕ
      → ℕ
      → ProfileCatalog Url
      → Result RefreshCommitError (ℕ × ProfileCatalog Url)
  commit_refresh id context snapshot success_at_unix_ms next_refresh_at_unix_ms s = do
    profile ← or_error (Map.get id s.profiles) profile_removed
    refresh_profile id context snapshot success_at_unix_ms next_refresh_at_unix_ms s profile

  module _ (parse_id : Text → Option ℕ) where
    unfoldable pub resolve : Text → ProfileCatalog Url → Result ProfileSelectorError ℕ
    resolve selector s = resolve_parsed (parse_id selector) selector s

    unfoldable pub activate :
        Text → ProfileCatalog Url → Result ProfileSelectorError (ℕ × ProfileCatalog Url)
    activate selector s = do id ← resolve selector s; activate_id id s

    unfoldable pub remove :
        Text → ProfileCatalog Url → Result ProfileSelectorError (Profile Url × ProfileCatalog Url)
    remove selector s = do id ← resolve selector s; remove_id id s
