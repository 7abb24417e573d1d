-- ===== src/Transaction/Execute.antt =====
-- `execute_guarded` and its callers of src/transaction.rs, one definition for each of its stages.
use ratash.Common.{
  ℕ, Bool, true, false, not, ◌&&◌, Option, none, some, List, [], ◌∷◌, ◌==◌, ltb, if◌then◌else◌,
  is_some, is_some_and,
}
use ratash.Common.Result.{Result, ok, err, is_ok}
use ratash.Common.Attempt.{Attempt, ◌>>=◌, succeed, fail, map_err, result, read}
use ratash.Constants.{effective_configuration_max_bytes}
use ratash.Transaction.Types.{
  CandidateRevisions, ConfigTransactionCandidate, PreparedTransaction, CommittedManifest,
  RecoveryState, ApplyCandidateResult, RuntimeApplyFailure, ApplyPath, RecoveryOutcome,
  ConfigTransactionSuccess, ConfigTransactionErrorKind, ConfigTransactionError, FailureRecoveryMode,
  TryLockError, ConfigTransactionCoordinator, definite, indeterminate, tun_permission_denied,
  tun_unsupported, direct, candidate_restart, not_required, converged, pending, failed, busy,
  lock_poisoned, recovery_required, stale_candidate, invalid_candidate, validation, prepare,
  tun_permission, tun_support, apply, indeterminate_apply, health, commit, cleanup, recovery,
  shutdown, converge_committed, stop_startup_candidate, would_block, poisoned,
}
use ratash.Transaction.Recovery.{
  same_bytes, confirm, restart_candidate, generation_from_manifest, runtime_retention,
  clear_prepared_and_prune, clear_prepared_unapplied, clear_unapplied_journal,
  recover_failed_candidate,
}

abbrev pub Fallible : Type 0 → Type 0 → Type 0
Fallible W A = Attempt W ConfigTransactionError A

abbrev pub simple : ConfigTransactionErrorKind → ConfigTransactionError
simple kind = record {
  kind = kind;
  candidate_generation = none;
  committed_generation = none;
  recovery = not_required;
}

abbrev pub error :
    ConfigTransactionErrorKind → ℕ → Option ℕ → RecoveryOutcome → ConfigTransactionError
error kind candidate_generation committed_generation outcome = record {
  kind = kind;
  candidate_generation = some candidate_generation;
  committed_generation = committed_generation;
  recovery = outcome;
}

unfoldable pub shutdown_error : ℕ → Option ℕ → Bool → ConfigTransactionError
shutdown_error candidate_generation committed_generation prepared =
    error shutdown candidate_generation committed_generation
      (if prepared then pending committed_generation else not_required)

unfoldable pub same_revisions : CandidateRevisions → CandidateRevisions → Bool
same_revisions a b =
    a.profile == b.profile
    && (a.active_profile == b.active_profile
        && (a.local_rule_set == b.local_rule_set
            && (same_bytes a.compiler_policy_sha256 b.compiler_policy_sha256
                && same_bytes a.core_version b.core_version)))

-- The whole of `generation_is_newer`.
unfoldable pub generation_is_newer : Option ℕ → ℕ → Bool
generation_is_newer none candidate_generation = ltb 0 candidate_generation
generation_is_newer (some current) candidate_generation = ltb current candidate_generation

-- `Path::is_absolute` on Unix: the first byte is `/`.
unfoldable pub is_absolute : List ℕ → Bool
is_absolute [] = false
is_absolute (byte ∷ _) = byte == 47

unfoldable pub is_empty : List ℕ → Bool
is_empty [] = true
is_empty (_ ∷ _) = false

unfoldable pub is_yaml : Result (Unit {0}) (List ℕ) → List ℕ → Bool
is_yaml (ok object) yaml = same_bytes object yaml
is_yaml (err _) yaml = false

unfoldable pub is_structurally_valid :
    ConfigTransactionCandidate → Option ℕ → Result (Unit {0}) (List ℕ) → Bool
is_structurally_valid candidate committed_generation effective_object =
    generation_is_newer committed_generation candidate.runtime.generation
    && (candidate.transaction.runtime_generation == candidate.runtime.generation
        && (candidate.transaction.profile_revision == candidate.revisions.profile
            && (candidate.transaction.local_rule_set_revision == candidate.revisions.local_rule_set
                && (same_bytes candidate.runtime.compiler_policy_sha256
                      candidate.revisions.compiler_policy_sha256
                    && (same_bytes candidate.configuration.compiler_policy_sha256
                          candidate.revisions.compiler_policy_sha256
                        && (same_bytes candidate.configuration.core_version
                              candidate.revisions.core_version
                            && (is_absolute candidate.runtime.generation_root
                                && (not (is_empty candidate.runtime.manifest_sha256)
                                    && (not (is_empty candidate.runtime.mihomo_binary_sha256)
                                        && is_yaml effective_object
                                            candidate.configuration.yaml)))))))))

-- The journal still names the transaction that is already committed.
unfoldable pub is_committed : Option CommittedManifest → PreparedTransaction → Bool
is_committed committed prepared =
    is_some_and committed (λ manifest. manifest.current == prepared.candidate)

-- What the first stage finds: the state after the leftover journal is cleared.
pub record Start : Type 0 where
  pub committed : Option CommittedManifest
  pub committed_generation : Option ℕ

module _ {W : Type 0} (c : ConfigTransactionCoordinator W) where
  unfoldable pub check_shutdown : ℕ → Option ℕ → Bool → Fallible W (Unit {0})
  check_shutdown generation committed_generation prepared = do
    requested ← read c.shutdown_requested
    if requested then fail (shutdown_error generation committed_generation prepared) else succeed tt

  unfoldable pub validate_candidate : ConfigTransactionCandidate → Option ℕ → Fallible W (Unit {0})
  validate_candidate candidate committed_generation = do
    current ← read c.current_revisions
    if same_revisions current candidate.revisions
        then (do
          effective_object ← result (
              c.store.read_object_limited candidate.transaction.effective_configuration
                effective_configuration_max_bytes)
          if is_structurally_valid candidate committed_generation effective_object
              then succeed tt
              else fail (
                  error invalid_candidate candidate.runtime.generation committed_generation
                    not_required))
        else fail
            (error stale_candidate candidate.runtime.generation committed_generation not_required)

  -- The journal that `execute_guarded` finds: none, one that is already committed, which it
  -- clears, or one that has to be recovered first.
  unfoldable pub clear_leftover :
      ℕ → Option ℕ → RecoveryState → Option PreparedTransaction → Fallible W RecoveryState
  clear_leftover generation committed_generation state none = succeed state
  clear_leftover generation committed_generation state (some prepared) =
      if is_committed state.committed prepared
      then (do
        _ ←
            map_err
              (error recovery_required generation committed_generation
                (pending committed_generation))
              (clear_prepared_and_prune c prepared)
        map_err (error recovery generation committed_generation (failed committed_generation))
            c.store.recover)
      else succeed state

  -- From the first check for a shutdown to the check that no journal is left.
  unfoldable pub inspect : ℕ → Fallible W Start
  inspect generation = do
    _ ← check_shutdown generation none false
    state ← map_err (error recovery generation none (failed none)) c.store.recover
    committed_generation ←
        map_err (error recovery generation none (failed none))
          (generation_from_manifest c state.committed)
    _ ← check_shutdown generation committed_generation false
    state' ← clear_leftover generation committed_generation state state.prepared
    if is_some state'.prepared
        then fail
            (error recovery_required generation committed_generation (pending committed_generation))
        else succeed
            (record { committed = state'.committed; committed_generation = committed_generation })

  -- The journal is written: `prepare`, and the clearing when it fails.
  unfoldable pub prepared_or_cleared :
      ℕ → Option ℕ → Result (Unit {0}) PreparedTransaction → Fallible W PreparedTransaction
  prepared_or_cleared generation committed_generation (ok prepared) = succeed prepared
  prepared_or_cleared generation committed_generation (err _) = do
    outcome ← clear_unapplied_journal c committed_generation
    fail (error prepare generation committed_generation outcome)

  unfoldable pub prepare_candidate :
      ConfigTransactionCandidate → Start → Fallible W PreparedTransaction
  prepare_candidate candidate start = do
    _ ← validate_candidate candidate start.committed_generation
    retention ←
        map_err
          (error recovery candidate.runtime.generation start.committed_generation
            (failed start.committed_generation))
          (runtime_retention c start.committed (some candidate.runtime.generation))
    _ ←
        map_err (error cleanup candidate.runtime.generation start.committed_generation not_required)
          (c.bundles.prune_generations retention)
    prepared ← result (c.store.prepare candidate.transaction)
    prepared_or_cleared candidate.runtime.generation start.committed_generation prepared

  unfoldable pub refuse_prepared :
      {A : Type 0} → ConfigTransactionErrorKind → ℕ → Option ℕ → PreparedTransaction → Fallible W A
  refuse_prepared kind generation committed_generation prepared = do
    outcome ← clear_prepared_unapplied c prepared committed_generation
    fail (error kind generation committed_generation outcome)

  -- The candidate is validated and its revisions are checked again, up to the lifecycle lock.
  unfoldable pub validate_prepared :
      ConfigTransactionCandidate → Option ℕ → PreparedTransaction → Fallible W (Unit {0})
  validate_prepared candidate committed_generation prepared = do
    _ ← check_shutdown candidate.runtime.generation committed_generation true
    validated ← result (c.validate candidate.configuration candidate.runtime.generation_root)
    _ ← check_shutdown candidate.runtime.generation committed_generation true
    if is_ok validated
        then (do
          current ← read c.current_revisions
          if same_revisions current candidate.revisions
              then (do
                _ ←
                    map_err
                      (error lock_poisoned candidate.runtime.generation committed_generation
                        (pending committed_generation))
                      c.lock_lifecycle
                check_shutdown candidate.runtime.generation committed_generation true)
              else refuse_prepared stale_candidate candidate.runtime.generation committed_generation
                  prepared)
        else refuse_prepared validation candidate.runtime.generation committed_generation prepared

  unfoldable pub fail_candidate :
      {A : Type 0}
      → ConfigTransactionErrorKind
      → ℕ
      → Option ℕ
      → PreparedTransaction
      → FailureRecoveryMode
      → Fallible W A
  fail_candidate kind generation committed_generation prepared mode = do
    outcome ← recover_failed_candidate c prepared committed_generation mode
    fail (error kind generation committed_generation outcome)

  unfoldable pub restarted_or_failed :
      ConfigTransactionCandidate
      → Option ℕ
      → PreparedTransaction
      → FailureRecoveryMode
      → Result (Unit {0}) ApplyCandidateResult
      → Fallible W (ApplyCandidateResult × ApplyPath)
  restarted_or_failed candidate committed_generation prepared mode (ok applied) =
      succeed (applied, candidate_restart)
  restarted_or_failed candidate committed_generation prepared mode (err _) =
      fail_candidate indeterminate_apply candidate.runtime.generation committed_generation prepared
        mode

  unfoldable pub settle_apply :
      ConfigTransactionCandidate
      → Option ℕ
      → PreparedTransaction
      → FailureRecoveryMode
      → Result RuntimeApplyFailure ApplyCandidateResult
      → Fallible W (ApplyCandidateResult × ApplyPath)
  settle_apply candidate committed_generation prepared mode (ok applied) = succeed (applied, direct)
  settle_apply candidate committed_generation prepared mode (err definite) =
      fail_candidate apply candidate.runtime.generation committed_generation prepared mode
  settle_apply candidate committed_generation prepared mode (err tun_permission_denied) =
      fail_candidate tun_permission candidate.runtime.generation committed_generation prepared mode
  settle_apply candidate committed_generation prepared mode (err tun_unsupported) =
      fail_candidate tun_support candidate.runtime.generation committed_generation prepared mode
  settle_apply candidate committed_generation prepared mode (err indeterminate) = do
    restarted ← result (restart_candidate c candidate.runtime)
    restarted_or_failed candidate committed_generation prepared mode restarted

  unfoldable pub apply_prepared :
      ConfigTransactionCandidate
      → Option ℕ
      → PreparedTransaction
      → FailureRecoveryMode
      → Fallible W (ApplyCandidateResult × ApplyPath)
  apply_prepared candidate committed_generation prepared mode = do
    applied ← result (c.runtime.apply_candidate candidate.runtime)
    _ ← check_shutdown candidate.runtime.generation committed_generation true
    settle_apply candidate committed_generation prepared mode applied

  -- Only a direct apply is confirmed here: a restart confirms by itself.
  unfoldable pub confirm_applied :
      ConfigTransactionCandidate
      → Option ℕ
      → PreparedTransaction
      → FailureRecoveryMode
      → ApplyCandidateResult
      → ApplyPath
      → Fallible W (Unit {0})
  confirm_applied candidate committed_generation prepared mode applied candidate_restart =
      check_shutdown candidate.runtime.generation committed_generation true
  confirm_applied candidate committed_generation prepared mode applied direct = do
    confirmation ← result (confirm c applied candidate.runtime.generation)
    _ ← check_shutdown candidate.runtime.generation committed_generation true
    if is_ok confirmation
        then check_shutdown candidate.runtime.generation committed_generation true
        else fail_candidate health candidate.runtime.generation committed_generation prepared mode

  unfoldable pub resolve_commit :
      PreparedTransaction
      → ℕ
      → Option ℕ
      → FailureRecoveryMode
      → RecoveryState
      → Fallible W RecoveryOutcome
  resolve_commit prepared generation previous_generation mode state =
      if is_committed state.committed prepared
      then (do
        cleared ← result (clear_prepared_and_prune c prepared)
        succeed (if is_ok cleared then converged (some generation) else pending (some generation)))
      else fail_candidate commit generation previous_generation prepared mode

  unfoldable pub recover_commit_failure :
      PreparedTransaction → ℕ → Option ℕ → FailureRecoveryMode → Fallible W RecoveryOutcome
  recover_commit_failure prepared generation previous_generation mode = do
    state ←
        map_err (error commit generation previous_generation (failed previous_generation))
          c.store.recover
    resolve_commit prepared generation previous_generation mode state

  unfoldable pub settle_commit :
      PreparedTransaction
      → ℕ
      → Option ℕ
      → FailureRecoveryMode
      → Result (Unit {0}) (Unit {0})
      → Fallible W RecoveryOutcome
  settle_commit prepared generation committed_generation mode (err _) =
      recover_commit_failure prepared generation committed_generation mode
  settle_commit prepared generation committed_generation mode (ok _) = do
    cleared ← result (clear_prepared_and_prune c prepared)
    succeed (if is_ok cleared then not_required else pending (some generation))

  unfoldable pub commit_candidate :
      ConfigTransactionCandidate
      → Option ℕ
      → PreparedTransaction
      → FailureRecoveryMode
      → ApplyPath
      → Fallible W ConfigTransactionSuccess
  commit_candidate candidate committed_generation prepared mode apply_path = do
    committed ← result (c.store.commit_prepared prepared)
    outcome ←
        settle_commit prepared candidate.runtime.generation committed_generation mode committed
    succeed (record {
      candidate_generation = candidate.runtime.generation;
      committed_generation = candidate.runtime.generation;
      apply_path = apply_path;
      recovery = outcome;
    })

  -- What `execute_guarded` does from the first call of the runtime on.
  unfoldable pub run_prepared :
      ConfigTransactionCandidate
      → Option ℕ
      → PreparedTransaction
      → FailureRecoveryMode
      → Fallible W ConfigTransactionSuccess
  run_prepared candidate committed_generation prepared mode = do
    applied ← apply_prepared candidate committed_generation prepared mode
    _ ← confirm_applied candidate committed_generation prepared mode applied.0 applied.1
    commit_candidate candidate committed_generation prepared mode applied.1

  unfoldable pub execute_guarded :
      ConfigTransactionCandidate → FailureRecoveryMode → Fallible W ConfigTransactionSuccess
  execute_guarded candidate mode = do
    start ← inspect candidate.runtime.generation
    prepared ← prepare_candidate candidate start
    _ ← validate_prepared candidate start.committed_generation prepared
    run_prepared candidate start.committed_generation prepared mode

  unfoldable pub execute : ConfigTransactionCandidate → Fallible W ConfigTransactionSuccess
  execute candidate = do
    _ ← map_err (simple lock_poisoned) c.lock_coordinator
    execute_guarded candidate converge_committed

  unfoldable pub execute_startup_reapply :
      ConfigTransactionCandidate → Fallible W ConfigTransactionSuccess
  execute_startup_reapply candidate = do
    _ ← map_err (simple lock_poisoned) c.lock_coordinator
    execute_guarded candidate stop_startup_candidate

  unfoldable pub reserved : Result TryLockError (Unit {0}) → Fallible W (Unit {0})
  reserved (ok _) = succeed tt
  reserved (err would_block) = fail (simple busy)
  reserved (err poisoned) = fail (simple lock_poisoned)

  unfoldable pub try_reserve_rule : Fallible W (Unit {0})
  try_reserve_rule = do acquired ← result c.try_lock_coordinator; reserved acquired

  unfoldable pub try_execute_rule : ConfigTransactionCandidate → Fallible W ConfigTransactionSuccess
  try_execute_rule candidate = do _ ← try_reserve_rule; execute_guarded candidate converge_committed
