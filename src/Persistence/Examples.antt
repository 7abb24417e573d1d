-- ===== src/Persistence/Examples.antt =====
-- A disk and an encoding on which the theorems on src/persistence.rs are run.
use ratash.Common.{
  ℕ, ◌+◌, ◌*◌, ◌≡◌, refl, ap, true, false, Option, none, some, List, [], ◌∷◌, arith,
}
use ratash.Common.Map
use ratash.Common.Result.{ok, err}
use ratash.Common.Attempt.{Outcome, ◌>>=◌, succeed, fail, result, read}
use ratash.Common.Text.{Text}
use ratash.Transaction.Types.{
  TransactionBundle, RuntimeBundle, PreparedTransaction, CommittedManifest, ManagedCoreHandle,
  ConfigTransactionCoordinator, spawned,
}
use ratash.Transaction.Success.{StoreCommits}
use ratash.Persistence.Disk.{
  manifest_json, prepared_json, Disk, file_at, write_file, delete_file, next_fault, system_call,
  found_or_error, found_file, change, read_file, rename, write_and_sync, sync_directory,
  remove_temporary, or_removed, write_new, put_unless_stored, put_immutable, replace_private_file,
}
use ratash.Persistence.Store.{
  TransactionBundleDto, Formats, AreFormats, or_invalid, ensure, current_of, decoded,
  read_optional_json, refuse_journal, dto_of, read_object_limited, read_manifest, read_journal,
  load_transaction, recover, clear_prepared, verify_bundle_objects, prepare, commit_prepared,
}
use ratash.Persistence.Store.Reading.{IsRead}
use ratash.Persistence.Store.Commits.{Committed, OldOrCommitted, commit_prepared-atomic}
use ratash.Persistence.Store.Loading.{ObjectIn, load_transaction-prepare}
use ratash.Persistence.Store.Protocol.{IsReady}
use ratash.Persistence.Store.Protocol.Complete.{recover-clear_prepared}
use ratash.Persistence.Prune.{Json, DirEntry, prune_unreachable}
use ratash.Persistence.Prune.Retaining.{IsObject, current}
use ratash.Persistence.Prune.Spared.{prune_unreachable-spared}
use ratash.Persistence.Port.{on_store, name, OthersKeep, store_port-StoreCommits}

abbrev digest : List ℕ → ℕ
digest [] = 7
digest (x ∷ xs) = x + 31 * digest xs

abbrev option_bytes : Option ℕ → List ℕ
option_bytes none = []
option_bytes (some n) = n ∷ []

abbrev bytes_option : List ℕ → Option ℕ
bytes_option [] = none
bytes_option (n ∷ _) = some n

abbrev parse_number : Text → Option ℕ
parse_number (n ∷ []) = some n
parse_number _ = none

abbrev write_dto : TransactionBundleDto → List ℕ
write_dto x =
    x.schema_version ∷ x.supervisor_state ∷ x.profile_snapshot ∷ x.local_rule_set
    ∷ x.effective_configuration ∷ x.profile_revision ∷ x.local_rule_set_revision
    ∷ x.runtime_generation ∷ x.active_profile_id

abbrev read_dto : List ℕ → Option TransactionBundleDto
read_dto (a ∷ b ∷ c ∷ d ∷ e ∷ g ∷ h ∷ i ∷ text) = some (record {
  schema_version = a;
  supervisor_state = b;
  profile_snapshot = c;
  local_rule_set = d;
  effective_configuration = e;
  profile_revision = g;
  local_rule_set_revision = h;
  active_profile_id = text;
  runtime_generation = i;
})
read_dto _ = none

abbrev read_journal_bytes : List ℕ → Option PreparedTransaction
read_journal_bytes [] = none
read_journal_bytes (c ∷ rest) = some (record { candidate = c; previous = bytes_option rest })

abbrev read_manifest_bytes : List ℕ → Option CommittedManifest
read_manifest_bytes [] = none
read_manifest_bytes (c ∷ rest) = some (record { current = c; previous = bytes_option rest })

abbrev formats : Formats
formats = record {
  sha256 = digest;
  id_text = λ n. n ∷ [];
  parse_id = parse_number;
  write_bundle = λ x. some (write_dto x);
  read_bundle = read_dto;
  write_prepared = λ p. some (p.candidate ∷ option_bytes p.previous);
  read_prepared = read_journal_bytes;
  write_manifest = λ m. some (m.current ∷ option_bytes m.previous);
  read_manifest = read_manifest_bytes;
}

same_bytes_read :
    {A : Type 0} (decode : List ℕ → Option A) (x : A) (l b : List ℕ)
    → decode l ≡ some x
    → ◌≡◌ {A = Option (List ℕ)} (some l) (some b)
    → decode b ≡ some x
same_bytes_read decode x l b read same = let e : l ≡ b = cc (same) in rw (← e) read

option_read : (o : Option ℕ) → bytes_option (option_bytes o) ≡ o
option_read none = refl
option_read (some n) = refl

formats_hold : AreFormats formats
formats_hold = record {
  id = λ i. refl;
  bundle = λ x b h. same_bytes_read read_dto x (write_dto x) b refl h;
  prepared = λ x b h.
      same_bytes_read read_journal_bytes x _ b
        (ap (λ o. some (record { candidate = x.candidate; previous = o })) (option_read x.previous))
        h;
  manifest = λ x b h.
      same_bytes_read read_manifest_bytes x _ b
        (ap (λ o. some (record { current = x.current; previous = o })) (option_read x.previous)) h;
}

-- Every object is the one of the configuration.
abbrev bundle : TransactionBundle
bundle = record {
  supervisor_state = 225;
  profile_snapshot = 225;
  local_rule_set = 225;
  effective_configuration = 225;
  profile_revision = 5;
  local_rule_set_revision = 6;
  active_profile_id = 7;
  runtime_generation = 2;
}

abbrev disk : Disk
disk = record {
  objects = (225, 8 ∷ []) ∷ [];
  transactions = [];
  prepared = none;
  manifest = some (11 ∷ []);
  faults = [];
}

abbrev committed_eleven : Option CommittedManifest
committed_eleven = some (record { current = 11; previous = none })

object_in : ObjectIn formats 225 disk
unfolding file_at Map.get
object_in = record { content = 8 ∷ []; found = refl; intact = refl; short = ground arith }

disk-IsReady : IsReady formats bundle committed_eleven disk
unfolding IsRead file_at dto_of current_of
disk-IsReady = record {
  calm = refl;
  no_journal = refl;
  readable = (11 ∷ [], (refl, refl));
  objects = record {
    supervisor_state = object_in;
    profile_snapshot = object_in;
    local_rule_set = object_in;
    effective_configuration = object_in;
  };
  bytes = _;
  encoded = refl;
  journal = _;
  journal_encoded = refl;
  manifest = _;
  manifest_encoded = refl;
}

recover-clear_prepared_example :
    (p : PreparedTransaction) × (w1 : Disk) × (w2 : Disk) × (w3 : Disk) × ((prepare formats bundle
          disk
        ≡ (ok p, w1))
      × ((p.previous ≡ current_of committed_eleven)
          × ((commit_prepared formats p w1 ≡ (ok tt, w2))
              × ((clear_prepared formats p w2 ≡ (ok tt, w3))
                  × (recover formats w3 ≡ (
                    ok (record {
                      committed = some (record { current = p.candidate; previous = p.previous });
                      prepared = none;
                    }),
                    w3,
                  ))))))
recover-clear_prepared_example =
    recover-clear_prepared formats formats_hold bundle committed_eleven disk disk-IsReady

abbrev bundle_bytes : List ℕ
bundle_bytes = 1 ∷ 225 ∷ 225 ∷ 225 ∷ 225 ∷ 5 ∷ 6 ∷ 2 ∷ 7 ∷ []

abbrev journal : PreparedTransaction
journal = record { candidate = digest bundle_bytes; previous = some 11 }

abbrev disk_prepared : Disk
disk_prepared = record disk {
  transactions = (digest bundle_bytes, bundle_bytes) ∷ [];
  prepared = some (digest bundle_bytes ∷ 11 ∷ []);
}

prepared_run : prepare formats bundle disk ≡ (ok journal, disk_prepared)
unfolding file_at Map.get Map.insert write_file delete_file next_fault system_call found_or_error
    found_file change read_file rename write_and_sync sync_directory remove_temporary or_removed
    write_new put_unless_stored put_immutable replace_private_file or_invalid ensure current_of
    decoded read_optional_json refuse_journal dto_of read_object_limited read_manifest read_journal
    verify_bundle_objects prepare ◌>>=◌ succeed fail result
prepared_run = refl

load_transaction-prepare_example :
    load_transaction formats journal.candidate ((prepare formats bundle disk).1)
    ≡ (ok bundle, (prepare formats bundle disk).1)
load_transaction-prepare_example =
    load_transaction-prepare formats formats_hold bundle journal disk (ap (λ r. r.0) prepared_run)
      (ap (λ r. r.1.faults) prepared_run)

-- The call of the commit right after the rename fails.
abbrev disk_failing : Disk
disk_failing = record disk_prepared {
  faults =
      false ∷ false ∷ false ∷ false ∷ false ∷ false ∷ false ∷ false ∷ false ∷ false ∷ false ∷ false
      ∷ false ∷ false ∷ false ∷ false ∷ false ∷ false ∷ false ∷ false ∷ true ∷ [];
}

commit_prepared-atomic_example :
    Outcome
      (λ _. Committed formats journal.candidate)
      (λ _. OldOrCommitted formats (some (11 ∷ [])) journal.candidate)
      (commit_prepared formats journal disk_failing)
commit_prepared-atomic_example = commit_prepared-atomic formats formats_hold journal disk_failing

abbrev core_of : ℕ → ManagedCoreHandle
core_of generation = record {
  pid = 7;
  process_start_identity = 1 ∷ [];
  endpoint = record { socket_path = 47 ∷ []; secret = [] };
  instance_generation = 1;
  runtime_generation = generation;
}

abbrev core_at : Option ℕ → Option ManagedCoreHandle
core_at none = none
core_at (some generation) = some (core_of generation)

abbrev runtime_of : ℕ → RuntimeBundle
runtime_of generation = record {
  generation = generation;
  generation_root = 47 ∷ [];
  manifest_sha256 = 1 ∷ [];
  compiler_policy_sha256 = 2 ∷ [];
  mihomo_binary_sha256 = 3 ∷ [];
}

abbrev World : Type 0
World = Disk × Option ℕ

abbrev no_json_read : List ℕ → Option Json
no_json_read content = none

abbrev listing : World → List DirEntry × List DirEntry
listing w = (record { digest = some 225; is_file = true } ∷ [], [])

-- Its runtime is the generation that runs.
abbrev coordinator : ConfigTransactionCoordinator World
coordinator = record {
  store = record {
    read_object_limited = λ id limit w. (ok [], w);
    prepare = λ b w. (err tt, w);
    recover = λ w. (err tt, w);
    commit_prepared = λ p w. (ok tt, w);
    clear_prepared = λ p w. (ok tt, w);
    load_transaction = λ id w. (ok bundle, w);
    prune_unreachable = λ w. (ok tt, w);
  };
  runtime = record {
    apply_candidate = λ b w. (
      ok (record { disposition = spawned; managed_core = core_of b.generation }),
      (w.0, some b.generation),
    );
    status = λ w. (ok (core_at w.1), w);
    stop = λ w. (ok tt, (w.0, none));
  };
  bundles = record {
    resolve = λ b w. (ok (runtime_of b.runtime_generation), w);
    prune_generations = λ r w. (ok tt, w);
  };
  validate = λ e root w. (ok tt, w);
  confirm_ready = λ h w. (ok tt, w);
  current_revisions = λ w. (
    record {
      profile = 5;
      active_profile = 1;
      local_rule_set = 6;
      compiler_policy_sha256 = 2 ∷ [];
      core_version = 9 ∷ [];
    },
    w,
  );
  shutdown_requested = λ w. (false, w);
  lock_coordinator = λ w. (ok tt, w);
  try_lock_coordinator = λ w. (ok tt, w);
  lock_lifecycle = λ w. (ok tt, w);
}

others_keep : (id : ℕ) → OthersKeep coordinator (λ w. Committed formats id w.0)
unfolding Outcome
others_keep id = record {
  resolve = λ b. record { from = λ w r. r };
  prune_generations = λ g. record { from = λ w r. r };
  status = record { from = λ w r. r };
  confirm_ready = λ h. record { from = λ w r. r };
  validate = λ e root. record { from = λ w r. r };
  current_revisions = λ w r. r;
  shutdown_requested = λ w r. r;
  lock_lifecycle = record { from = λ w r. r };
}

store_port-StoreCommits_example :
    StoreCommits
      (on_store formats no_json_read listing coordinator)
      (name formats)
      (λ id w. Committed formats id w.0)
store_port-StoreCommits_example =
    store_port-StoreCommits formats formats_hold no_json_read listing coordinator others_keep

-- The objects directory lists the object of the committed bundle and one that nothing names.
abbrev disk_committed : Disk
disk_committed = record {
  objects = (7, []) ∷ (225, 8 ∷ []) ∷ [];
  transactions = (digest bundle_bytes, bundle_bytes) ∷ [];
  prepared = none;
  manifest = some (digest bundle_bytes ∷ []);
  faults = [];
}

abbrev listed : List DirEntry
listed =
    record { digest = some 7; is_file = true } ∷ record { digest = some 225; is_file = true } ∷ []

manifest_held :
    IsRead read_manifest_bytes manifest_json
      (some (record { current = digest bundle_bytes; previous = none }))
      disk_committed
unfolding IsRead file_at
manifest_held = (digest bundle_bytes ∷ [], (refl, refl))

no_journal_held : IsRead read_journal_bytes prepared_json none disk_committed
unfolding IsRead file_at
no_journal_held = refl

transaction_held : Map.get (digest bundle_bytes) disk_committed.transactions ≡ some bundle_bytes
unfolding Map.get
transaction_held = refl

abbrev committed_dto : TransactionBundleDto
committed_dto = record {
  schema_version = 1;
  supervisor_state = 225;
  profile_snapshot = 225;
  local_rule_set = 225;
  effective_configuration = 225;
  profile_revision = 5;
  local_rule_set_revision = 6;
  active_profile_id = 7 ∷ [];
  runtime_generation = 2;
}

prune_unreachable-spared_example :
    let v = (prune_unreachable formats no_json_read listed [] disk_committed).1 in
    (v.manifest ≡ disk_committed.manifest)
    × ((v.prepared ≡ disk_committed.prepared)
        × ((Map.get (digest bundle_bytes) v.transactions
              ≡ Map.get (digest bundle_bytes) disk_committed.transactions)
            × ((id : ℕ)
                → IsObject committed_dto id
                → Map.get id v.objects ≡ Map.get id disk_committed.objects)))
prune_unreachable-spared_example =
    prune_unreachable-spared formats no_json_read listed [] disk_committed
      (some (record { current = digest bundle_bytes; previous = none })) none (digest bundle_bytes)
      bundle_bytes committed_dto manifest_held no_journal_held (current _ refl refl)
      transaction_held refl
