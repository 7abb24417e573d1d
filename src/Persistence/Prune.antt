-- ===== src/Persistence/Prune.antt =====
-- `prune_unreachable` of src/persistence.rs. The entries of a directory come in an order that the
-- system chooses, so that the listings are arguments. The JSON reader is a parameter; of a string
-- it returns the digest that the string spells, if it spells one.
pub mod Retaining
pub mod Retained
pub mod Spared
pub mod Keeping
use ratash.Common.{
  ℕ, ◌+◌, Bool, true, false, not, ◌||◌, Option, none, some, List, [], ◌∷◌, ◌++◌, length, ltb, ◌==◌,
  if◌then◌else◌, keep,
}
use ratash.Common.Map
use ratash.Common.Map.{Map}
use ratash.Common.Result.{Result, ok, err}
use ratash.Common.Attempt.{◌>>=◌, succeed, fail, result}
use ratash.Constants.{supervisor_state_max_bytes}
use ratash.Transaction.Types.{TransactionBundle, PreparedTransaction, CommittedManifest}
use ratash.Persistence.Disk.{
  Disk, Io, IoErrorKind, StoredPath, object_path, transaction_path, prepared_json, manifest_json,
  invalid_data, file_at, system_call, read_file, remove_file, sync_directory,
}
use ratash.Persistence.Store.{Formats, or_invalid, ensure, decoded, bundle_of}

abbrev pub entry_limit : ℕ
entry_limit = 4096

abbrev pub removal_limit : ℕ
removal_limit = 256

abbrev pub reference_limit : ℕ
reference_limit = 1024

abbrev pub bundle_max_bytes : ℕ
bundle_max_bytes = 4096

abbrev pub metadata_max_bytes : ℕ
metadata_max_bytes = 1024

-- The set of the retained digests, a `BTreeSet`.
abbrev pub Digests : Type 0
Digests = Map (Unit {0})

unfoldable pub retain : ℕ → Digests → Digests
retain id retained = Map.insert id tt retained

unfoldable pub retain_optional : Option ℕ → Digests → Digests
retain_optional none retained = retained
retain_optional (some id) retained = retain id retained

unfoldable pub retain_manifest : Option CommittedManifest → Digests → Digests
retain_manifest none retained = retained
retain_manifest (some m) retained = retain_optional m.previous (retain m.current retained)

unfoldable pub retain_prepared : Option PreparedTransaction → Digests → Digests
retain_prepared none retained = retained
retain_prepared (some p) retained = retain_optional p.previous (retain p.candidate retained)

unfoldable pub retain_bundle_objects : TransactionBundle → Digests → Digests
retain_bundle_objects b retained =
    retain b.effective_configuration
      (retain b.local_rule_set (retain b.profile_snapshot (retain b.supervisor_state retained)))

mutual
  pub data Json : Type 0 where
    scalar : Json
    json_string : Option ℕ → Json
    array : Jsons → Json
    object : Jsons → Json

  pub data Jsons : Type 0 where
    no_json : Jsons
    json_and : Json → Jsons → Jsons

unfoldable pub within_references : Digests → Io Digests
within_references retained =
    if ltb reference_limit (length retained) then fail invalid_data else succeed retained

-- The loop of `collect_json_object_references`, which takes the last pending value first.
unfoldable mutual
  pub collect_value : Json → Digests → Io Digests
  collect_value scalar retained = succeed retained
  collect_value (json_string none) retained = succeed retained
  collect_value (json_string (some id)) retained = within_references (retain id retained)
  collect_value (array items) retained = collect_values items retained
  collect_value (object items) retained = collect_values items retained

  pub collect_values : Jsons → Digests → Io Digests
  collect_values no_json retained = succeed retained
  collect_values (json_and value items) retained = do
    later ← collect_values items retained
    collect_value value later

-- `is_ascii_whitespace`.
unfoldable pub is_blank : ℕ → Bool
is_blank byte = byte == 9 || (byte == 10 || (byte == 12 || (byte == 13 || byte == 32)))

-- Whether the first byte that is not blank opens an object or an array.
unfoldable pub opens_json : List ℕ → Bool
opens_json [] = false
opens_json (byte ∷ content) =
    let rest = opens_json content in if is_blank byte then rest else byte == 123 || byte == 91

unfoldable pub read_regular_file_limited : StoredPath → ℕ → Io (List ℕ)
read_regular_file_limited path limit = do
  content ← read_file path
  _ ← system_call
  _ ← system_call
  _ ← ensure (not (ltb limit (length content)))
  _ ← system_call
  _ ← ensure (not (ltb limit (length content)))
  succeed content

unfoldable pub read_optional_regular_json :
    {A : Type 0} → (List ℕ → Option A) → StoredPath → ℕ → Io (Option A)
read_optional_regular_json decode path limit = do
  content ← result (read_regular_file_limited path limit)
  decoded decode content

-- An entry of a directory: the digest that its name spells, if it does, and whether it is a file.
pub record DirEntry : Type 0 where
  pub digest : Option ℕ
  pub is_file : Bool

pub data PruneEntryKind : Type 0 where
  object_entry : PruneEntryKind
  transaction_entry : PruneEntryKind

unfoldable pub path_of : PruneEntryKind → ℕ → StoredPath
path_of object_entry id = object_path id
path_of transaction_entry id = transaction_path id

pub record Collected : Type 0 where
  pub scanned_entries : ℕ
  pub has_more : Bool
  pub candidates : List (PruneEntryKind × ℕ)

pub record PersistencePruneResult : Type 0 where
  pub scanned_entries : ℕ
  pub removed_objects : ℕ
  pub removed_transactions : ℕ
  pub has_more : Bool

unfoldable pub push_candidate : PruneEntryKind → ℕ → Collected → Collected
push_candidate kind id c =
    if length c.candidates == removal_limit
    then record c { has_more = true }
    else record c { candidates = c.candidates ++ (kind, id) ∷ [] }

-- The rest of a round, for an entry whose name is a digest or is not.
unfoldable pub consider : PruneEntryKind → Digests → Bool → Option ℕ → Collected → Io Collected
consider kind retained is_file none c = succeed c
consider kind retained is_file (some id) c =
    if Map.contains id retained
    then succeed c
    else (do _ ← system_call; succeed (if is_file then push_candidate kind id c else c))

unfoldable pub collect_entries : PruneEntryKind → Digests → List DirEntry → Collected → Io Collected
collect_entries kind retained [] c = succeed c
collect_entries kind retained (entry ∷ entries) c =
    if c.scanned_entries == entry_limit then succeed (record c { has_more = true }) else (do
      _ ← system_call
      c' ←
          consider kind retained entry.is_file entry.digest
            (record c { scanned_entries = c.scanned_entries + 1 })
      collect_entries kind retained entries c')

unfoldable pub collect_prune_candidates :
    PruneEntryKind → Digests → List DirEntry → Collected → Io Collected
collect_prune_candidates kind retained entries c = do
  _ ← system_call
  collect_entries kind retained entries c

unfoldable pub counted : PruneEntryKind → PersistencePruneResult → PersistencePruneResult
counted object_entry r = record r { removed_objects = r.removed_objects + 1 }
counted transaction_entry r = record r { removed_transactions = r.removed_transactions + 1 }

-- The file of a candidate may be gone.
unfoldable pub remove_found :
    PruneEntryKind → ℕ → PersistencePruneResult → Option (List ℕ) → Io PersistencePruneResult
remove_found kind id r none = succeed r
remove_found kind id r (some _) = do _ ← remove_file (path_of kind id); succeed (counted kind r)

unfoldable pub look_up : StoredPath → Io (Option (List ℕ))
look_up path w = (ok (file_at path w), w)

unfoldable pub remove_candidates :
    List (PruneEntryKind × ℕ) → PersistencePruneResult → Io PersistencePruneResult
remove_candidates [] r = succeed r
remove_candidates ((kind, id) ∷ candidates) r = do
  _ ← system_call
  file ← look_up (path_of kind id)
  r' ← remove_found kind id r file
  remove_candidates candidates r'

unfoldable pub sync_if : Bool → Io (Unit {0})
sync_if true = sync_directory
sync_if false = succeed tt

module _ (f : Formats) (read_json : List ℕ → Option Json) where
  unfoldable pub collect_json_object_references : List ℕ → Digests → Io Digests
  collect_json_object_references content retained =
      if opens_json content
      then (do value ← or_invalid (read_json content); collect_value value retained)
      else succeed retained

  unfoldable pub read_regular_hashed_file_limited : StoredPath → ℕ → ℕ → Io (List ℕ)
  read_regular_hashed_file_limited path expected limit = do
    content ← read_regular_file_limited path limit
    _ ← ensure (f.sha256 content == expected)
    succeed content

  -- The loop of `retained_content` over the retained transactions.
  unfoldable pub retained_by : Digests → Digests → Io Digests
  retained_by [] retained = succeed retained
  retained_by ((id, _) ∷ transactions) retained = do
    content ← read_regular_hashed_file_limited (transaction_path id) id bundle_max_bytes
    dto ← or_invalid (f.read_bundle content)
    bundle ← bundle_of f.parse_id dto
    state ←
        read_regular_hashed_file_limited (object_path bundle.supervisor_state)
          bundle.supervisor_state supervisor_state_max_bytes
    more ← collect_json_object_references state (retain_bundle_objects bundle retained)
    retained_by transactions more

  unfoldable pub retained_content : Io (Digests × Digests)
  retained_content = do
    committed ← read_optional_regular_json f.read_manifest manifest_json metadata_max_bytes
    prepared ← read_optional_regular_json f.read_prepared prepared_json metadata_max_bytes
    objects ← retained_by (retain_prepared prepared (retain_manifest committed [])) []
    succeed (retain_prepared prepared (retain_manifest committed []), objects)

  unfoldable pub prune_unreachable : List DirEntry → List DirEntry → Io PersistencePruneResult
  prune_unreachable object_entries transaction_entries = do
    retained ← retained_content
    c ←
        collect_prune_candidates object_entry retained.1 object_entries
          (record { scanned_entries = 0; has_more = false; candidates = [] })
    c' ← collect_prune_candidates transaction_entry retained.0 transaction_entries c
    r ← remove_candidates c'.candidates (record {
      scanned_entries = c'.scanned_entries;
      removed_objects = 0;
      removed_transactions = 0;
      has_more = c'.has_more;
    })
    _ ← sync_if (ltb 0 r.removed_objects)
    _ ← sync_if (ltb 0 r.removed_transactions)
    succeed r
