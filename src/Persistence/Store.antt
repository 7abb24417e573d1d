-- ===== src/Persistence/Store.antt =====
-- `PersistenceStore` of src/persistence.rs. SHA-256, the text of an identifier and the JSON
-- encoder and decoder of serde are parameters.
pub mod Reading
pub mod Keeping
pub mod Commits
pub mod Loading
pub mod Protocol
use ratash.Common.{
  ℕ, ◌≡◌, Bool, true, false, not, Option, none, some, List, ◌==◌, if◌then◌else◌, same_option, ltb,
  length, u64_max,
}
use ratash.Common.Result.{Result, ok, err}
use ratash.Common.Attempt.{◌>>=◌, succeed, fail, result, Attempt, map_err}
use ratash.Common.Text.{Text}
use ratash.Transaction.Types.{
  TransactionBundle, PreparedTransaction, CommittedManifest, RecoveryState,
}
use ratash.Persistence.Disk.{
  Io, Disk, IoErrorKind, StoredPath, object_path, transaction_path, prepared_json, manifest_json,
  not_found, already_exists, invalid_data, system_call, read_file, put_immutable,
  replace_private_file, remove_file, sync_directory, create_private_directory,
}

pub record TransactionBundleDto : Type 0 where
  pub schema_version : ℕ
  pub supervisor_state : ℕ
  pub profile_snapshot : ℕ
  pub local_rule_set : ℕ
  pub effective_configuration : ℕ
  pub profile_revision : ℕ
  pub local_rule_set_revision : ℕ
  pub active_profile_id : Text
  pub runtime_generation : ℕ

-- What the store uses of other crates. An encoder or a decoder can fail.
pub record Formats : Type 0 where
  pub sha256 : List ℕ → ℕ
  pub id_text : ℕ → Text
  pub parse_id : Text → Option ℕ
  pub write_bundle : TransactionBundleDto → Option (List ℕ)
  pub read_bundle : List ℕ → Option TransactionBundleDto
  pub write_prepared : PreparedTransaction → Option (List ℕ)
  pub read_prepared : List ℕ → Option PreparedTransaction
  pub write_manifest : CommittedManifest → Option (List ℕ)
  pub read_manifest : List ℕ → Option CommittedManifest

-- What is written is read back.
pub record AreFormats (f : Formats) : Type 0 where
  pub id : (i : ℕ) → f.parse_id (f.id_text i) ≡ some i
  pub bundle :
      (x : TransactionBundleDto) (b : List ℕ) → f.write_bundle x ≡ some b → f.read_bundle b ≡ some x
  pub prepared :
      (x : PreparedTransaction) (b : List ℕ)
      → f.write_prepared x ≡ some b
      → f.read_prepared b ≡ some x
  pub manifest :
      (x : CommittedManifest) (b : List ℕ)
      → f.write_manifest x ≡ some b
      → f.read_manifest b ≡ some x

-- `serialize` and `deserialize`, and a check that fails with `invalid_data`.
unfoldable pub or_invalid : {A : Type 0} → Option A → Io A
or_invalid none = fail invalid_data
or_invalid (some a) = succeed a

unfoldable pub ensure : Bool → Io (Unit {0})
ensure true = succeed tt
ensure false = fail invalid_data

unfoldable pub same_prepared : Option PreparedTransaction → PreparedTransaction → Bool
same_prepared none p = false
same_prepared (some q) p =
    if q.candidate == p.candidate then same_option q.previous p.previous else false

unfoldable pub current_of : Option CommittedManifest → Option ℕ
current_of none = none
current_of (some manifest) = some manifest.current

unfoldable pub decoded :
    {A : Type 0} → (List ℕ → Option A) → Result IoErrorKind (List ℕ) → Io (Option A)
decoded decode (ok content) = do a ← or_invalid (decode content); succeed (some a)
decoded decode (err not_found) = succeed none
decoded decode (err e) = fail e

unfoldable pub read_optional_json : {A : Type 0} → (List ℕ → Option A) → StoredPath → Io (Option A)
read_optional_json decode path = do content ← result (read_file path); decoded decode content

unfoldable pub refuse_journal : Option PreparedTransaction → Io (Unit {0})
refuse_journal none = succeed tt
refuse_journal (some _) = fail already_exists

-- `schema_version != 1`.
unfoldable pub bundle_of : (Text → Option ℕ) → TransactionBundleDto → Io TransactionBundle
bundle_of parse_id dto = do
  _ ← ensure (dto.schema_version == 1)
  active_profile_id ← or_invalid (parse_id dto.active_profile_id)
  succeed (record {
    supervisor_state = dto.supervisor_state;
    profile_snapshot = dto.profile_snapshot;
    local_rule_set = dto.local_rule_set;
    effective_configuration = dto.effective_configuration;
    profile_revision = dto.profile_revision;
    local_rule_set_revision = dto.local_rule_set_revision;
    active_profile_id = active_profile_id;
    runtime_generation = dto.runtime_generation;
  })

-- `open` creates the root and the two directories in it.
unfoldable pub open_store : Io (Unit {0})
open_store = do _ ← create_private_directory; _ ← create_private_directory; create_private_directory

module _ (f : Formats) where
  unfoldable pub dto_of : TransactionBundle → TransactionBundleDto
  dto_of bundle = record {
    schema_version = 1;
    supervisor_state = bundle.supervisor_state;
    profile_snapshot = bundle.profile_snapshot;
    local_rule_set = bundle.local_rule_set;
    effective_configuration = bundle.effective_configuration;
    profile_revision = bundle.profile_revision;
    local_rule_set_revision = bundle.local_rule_set_revision;
    active_profile_id = f.id_text bundle.active_profile_id;
    runtime_generation = bundle.runtime_generation;
  }

  unfoldable pub put_object : List ℕ → Io ℕ
  put_object content = do
    _ ← put_immutable (object_path (f.sha256 content)) content
    succeed (f.sha256 content)

  -- `metadata` and `read_to_end` are calls of their own.
  unfoldable pub read_object_limited : ℕ → ℕ → Io (List ℕ)
  read_object_limited id limit = do
    content ← read_file (object_path id)
    _ ← system_call
    _ ← ensure (not (ltb limit (length content)))
    _ ← system_call
    _ ← ensure (not (ltb limit (length content)))
    _ ← ensure (f.sha256 content == id)
    succeed content

  abbrev pub read_object : ℕ → Io (List ℕ)
  read_object id = read_object_limited id u64_max

  unfoldable pub read_hashed_file : StoredPath → ℕ → Io (List ℕ)
  read_hashed_file path expected = do
    content ← read_file path
    _ ← ensure (f.sha256 content == expected)
    succeed content

  unfoldable pub read_manifest : Io (Option CommittedManifest)
  read_manifest = read_optional_json f.read_manifest manifest_json

  unfoldable pub read_journal : Io (Option PreparedTransaction)
  read_journal = read_optional_json f.read_prepared prepared_json

  unfoldable pub load_transaction : ℕ → Io TransactionBundle
  load_transaction id = do
    content ← read_hashed_file (transaction_path id) id
    dto ← or_invalid (f.read_bundle content)
    bundle_of f.parse_id dto

  unfoldable pub recover : Io RecoveryState
  recover = do
    committed ← read_manifest
    prepared ← read_journal
    succeed (record { committed = committed; prepared = prepared })

  unfoldable pub clear_prepared : PreparedTransaction → Io (Unit {0})
  clear_prepared prepared = do
    journal ← read_journal
    _ ← ensure (same_prepared journal prepared)
    _ ← remove_file prepared_json
    sync_directory

  unfoldable pub verify_bundle_objects : TransactionBundle → Io (Unit {0})
  verify_bundle_objects bundle = do
    _ ← read_object bundle.supervisor_state
    _ ← read_object bundle.profile_snapshot
    _ ← read_object bundle.local_rule_set
    _ ← read_object bundle.effective_configuration
    succeed tt

  unfoldable pub prepare : TransactionBundle → Io PreparedTransaction
  prepare bundle = do
    journal ← read_journal
    _ ← refuse_journal journal
    _ ← verify_bundle_objects bundle
    serialized ← or_invalid (f.write_bundle (dto_of bundle))
    _ ← put_immutable (transaction_path (f.sha256 serialized)) serialized
    manifest ← read_manifest
    journal_bytes ← or_invalid (
        f.write_prepared
          (record { candidate = f.sha256 serialized; previous = current_of manifest }))
    _ ← replace_private_file prepared_json journal_bytes
    succeed (record { candidate = f.sha256 serialized; previous = current_of manifest })

  unfoldable pub commit_prepared : PreparedTransaction → Io (Unit {0})
  commit_prepared prepared = do
    journal ← read_journal
    _ ← ensure (same_prepared journal prepared)
    manifest ← read_manifest
    _ ← ensure (same_option (current_of manifest) prepared.previous)
    bundle ← load_transaction prepared.candidate
    _ ← verify_bundle_objects bundle
    bytes ←
        or_invalid
          (f.write_manifest (record { current = prepared.candidate; previous = prepared.previous }))
    replace_private_file manifest_json bytes
