-- ===== src/Transaction/Types.antt =====
-- The types and the ports of src/transaction.rs, with the types of src/core.rs, src/persistence.rs,
-- src/config.rs and src/runtime_bundle.rs that they carry. A string is its bytes; an `ObjectId` or
-- a `TransactionId`, which hold a SHA-256 digest, is its number.
use ratash.Common.{ℕ, Bool, Option, List}
use ratash.Common.Attempt.{Attempt}

pub record CandidateRevisions : Type 0 where
  pub profile : ℕ
  pub active_profile : ℕ
  pub local_rule_set : ℕ
  pub compiler_policy_sha256 : List ℕ
  pub core_version : List ℕ

pub record TransactionBundle : Type 0 where
  pub supervisor_state : ℕ
  pub profile_snapshot : ℕ
  pub local_rule_set : ℕ
  pub effective_configuration : ℕ
  pub profile_revision : ℕ
  pub local_rule_set_revision : ℕ
  pub active_profile_id : ℕ
  pub runtime_generation : ℕ

pub record RuntimeBundle : Type 0 where
  pub generation : ℕ
  pub generation_root : List ℕ
  pub manifest_sha256 : List ℕ
  pub compiler_policy_sha256 : List ℕ
  pub mihomo_binary_sha256 : List ℕ

-- The fields of `EffectiveConfiguration` that the coordinator reads.
pub record EffectiveConfiguration : Type 0 where
  pub yaml : List ℕ
  pub core_version : List ℕ
  pub compiler_policy_sha256 : List ℕ

pub record ConfigTransactionCandidate : Type 0 where
  pub transaction : TransactionBundle
  pub runtime : RuntimeBundle
  pub configuration : EffectiveConfiguration
  pub revisions : CandidateRevisions

pub record PreparedTransaction : Type 0 where
  pub candidate : ℕ
  pub previous : Option ℕ

pub record CommittedManifest : Type 0 where
  pub current : ℕ
  pub previous : Option ℕ

pub record RecoveryState : Type 0 where
  pub committed : Option CommittedManifest
  pub prepared : Option PreparedTransaction

pub record RuntimeGenerationRetention : Type 0 where
  pub current : Option ℕ
  pub previous : Option ℕ
  pub prepared : Option ℕ

pub record CoreControlEndpoint : Type 0 where
  pub socket_path : List ℕ
  pub secret : List ℕ

pub record ManagedCoreHandle : Type 0 where
  pub pid : ℕ
  pub process_start_identity : List ℕ
  pub endpoint : CoreControlEndpoint
  pub instance_generation : ℕ
  pub runtime_generation : ℕ

pub data ApplyDisposition : Type 0 where
  spawned : ApplyDisposition
  reloaded : ApplyDisposition

pub record ApplyCandidateResult : Type 0 where
  pub disposition : ApplyDisposition
  pub managed_core : ManagedCoreHandle

pub data RuntimeApplyFailure : Type 0 where
  definite : RuntimeApplyFailure
  indeterminate : RuntimeApplyFailure
  tun_permission_denied : RuntimeApplyFailure
  tun_unsupported : RuntimeApplyFailure

pub data ApplyPath : Type 0 where
  direct : ApplyPath
  candidate_restart : ApplyPath

pub data RecoveryOutcome : Type 0 where
  not_required : RecoveryOutcome
  converged : Option ℕ → RecoveryOutcome
  pending : Option ℕ → RecoveryOutcome
  failed : Option ℕ → RecoveryOutcome

pub record ConfigTransactionSuccess : Type 0 where
  pub candidate_generation : ℕ
  pub committed_generation : ℕ
  pub apply_path : ApplyPath
  pub recovery : RecoveryOutcome

pub data ConfigTransactionErrorKind : Type 0 where
  busy : ConfigTransactionErrorKind
  lock_poisoned : ConfigTransactionErrorKind
  recovery_required : ConfigTransactionErrorKind
  stale_candidate : ConfigTransactionErrorKind
  invalid_candidate : ConfigTransactionErrorKind
  validation : ConfigTransactionErrorKind
  prepare : ConfigTransactionErrorKind
  tun_permission : ConfigTransactionErrorKind
  tun_support : ConfigTransactionErrorKind
  apply : ConfigTransactionErrorKind
  indeterminate_apply : ConfigTransactionErrorKind
  health : ConfigTransactionErrorKind
  commit : ConfigTransactionErrorKind
  cleanup : ConfigTransactionErrorKind
  recovery : ConfigTransactionErrorKind
  shutdown : ConfigTransactionErrorKind

pub record ConfigTransactionError : Type 0 where
  pub kind : ConfigTransactionErrorKind
  pub candidate_generation : Option ℕ
  pub committed_generation : Option ℕ
  pub recovery : RecoveryOutcome

pub record StartupRecovery : Type 0 where
  pub committed_generation : Option ℕ
  pub cleared_prepared_journal : Bool

pub record StartupReapply : Type 0 where
  pub committed_generation : Option ℕ
  pub candidate_generation : ℕ
  pub cleared_prepared_journal : Bool

pub data FailureRecoveryMode : Type 0 where
  converge_committed : FailureRecoveryMode
  stop_startup_candidate : FailureRecoveryMode

pub data TryLockError : Type 0 where
  would_block : TryLockError
  poisoned : TryLockError

-- The ports. The coordinator never looks into an I/O error, so it is `Unit`; `status` returns the
-- one field of `CoreRuntimeStatus` that is read.
pub record TransactionStore (W : Type 0) : Type 0 where
  pub read_object_limited : ℕ → ℕ → Attempt W (Unit {0}) (List ℕ)
  pub prepare : TransactionBundle → Attempt W (Unit {0}) PreparedTransaction
  pub recover : Attempt W (Unit {0}) RecoveryState
  pub commit_prepared : PreparedTransaction → Attempt W (Unit {0}) (Unit {0})
  pub clear_prepared : PreparedTransaction → Attempt W (Unit {0}) (Unit {0})
  pub load_transaction : ℕ → Attempt W (Unit {0}) TransactionBundle
  pub prune_unreachable : Attempt W (Unit {0}) (Unit {0})

pub record RuntimeApplyPort (W : Type 0) : Type 0 where
  pub apply_candidate : RuntimeBundle → Attempt W RuntimeApplyFailure ApplyCandidateResult
  pub status : Attempt W (Unit {0}) (Option ManagedCoreHandle)
  pub stop : Attempt W (Unit {0}) (Unit {0})

pub record RuntimeBundleResolver (W : Type 0) : Type 0 where
  pub resolve : TransactionBundle → Attempt W (Unit {0}) RuntimeBundle
  pub prune_generations : RuntimeGenerationRetention → Attempt W (Unit {0}) (Unit {0})

pub record ConfigTransactionCoordinator (W : Type 0) : Type 0 where
  pub store : TransactionStore W
  pub runtime : RuntimeApplyPort W
  pub bundles : RuntimeBundleResolver W
  pub validate : EffectiveConfiguration → List ℕ → Attempt W (Unit {0}) (Unit {0})
  pub confirm_ready : ManagedCoreHandle → Attempt W (Unit {0}) (Unit {0})
  pub current_revisions : W → CandidateRevisions × W
  pub shutdown_requested : W → Bool × W
  pub lock_coordinator : Attempt W (Unit {0}) (Unit {0})
  pub try_lock_coordinator : Attempt W TryLockError (Unit {0})
  pub lock_lifecycle : Attempt W (Unit {0}) (Unit {0})
