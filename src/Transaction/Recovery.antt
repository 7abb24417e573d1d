-- ===== src/Transaction/Recovery.antt =====
-- The private helpers of `ConfigTransactionCoordinator` of src/transaction.rs: confirming and
-- restarting a candidate, clearing the journal, and converging on the committed generation.
use ratash.Common.{
  ℕ, Bool, true, false, ◌&&◌, Option, none, some, List, [], ◌∷◌, ◌==◌, if◌then◌else◌,
}
use ratash.Common.Result.{Result, ok, err, is_ok}
use ratash.Common.Attempt.{Attempt, ◌>>=◌, succeed, fail, map_err, result, traverse}
use ratash.Transaction.Types.{
  RuntimeBundle, PreparedTransaction, CommittedManifest, RecoveryState, RuntimeGenerationRetention,
  CoreControlEndpoint, ManagedCoreHandle, ApplyCandidateResult, RecoveryOutcome,
  FailureRecoveryMode, ConfigTransactionCoordinator, not_required, converged, failed,
  converge_committed, stop_startup_candidate,
}

unfoldable pub same_bytes : List ℕ → List ℕ → Bool
same_bytes [] [] = true
same_bytes (a ∷ xs) (b ∷ ys) = a == b && same_bytes xs ys
same_bytes _ _ = false

unfoldable pub same_endpoint : CoreControlEndpoint → CoreControlEndpoint → Bool
same_endpoint a b = same_bytes a.socket_path b.socket_path && same_bytes a.secret b.secret

-- The condition of `confirm`: the running core is the applied one and carries the expected
-- generation.
unfoldable pub is_applied : ManagedCoreHandle → ManagedCoreHandle → ℕ → Bool
is_applied actual expected expected_generation =
    actual.pid == expected.pid
    && (same_bytes actual.process_start_identity expected.process_start_identity
        && (same_endpoint actual.endpoint expected.endpoint
            && (actual.instance_generation == expected.instance_generation
                && (actual.runtime_generation == expected_generation
                    && expected.runtime_generation == expected_generation))))

module _ {W : Type 0} (c : ConfigTransactionCoordinator W) where
  unfoldable pub confirm_running :
      ManagedCoreHandle → ℕ → Option ManagedCoreHandle → Attempt W (Unit {0}) (Unit {0})
  confirm_running expected expected_generation none = fail tt
  confirm_running expected expected_generation (some actual) =
      if is_applied actual expected expected_generation then c.confirm_ready actual else fail tt

  unfoldable pub confirm : ApplyCandidateResult → ℕ → Attempt W (Unit {0}) (Unit {0})
  confirm applied expected_generation = do
    managed_core ← c.runtime.status
    confirm_running applied.managed_core expected_generation managed_core

  -- Stop, apply and confirm: the end of `restart_candidate` and of `converge_to_transaction`.
  unfoldable pub restart_candidate : RuntimeBundle → Attempt W (Unit {0}) ApplyCandidateResult
  restart_candidate bundle = do
    _ ← c.runtime.stop
    applied ← map_err tt (c.runtime.apply_candidate bundle)
    _ ← confirm applied bundle.generation
    succeed applied

  unfoldable pub generation_from_transaction : ℕ → Attempt W (Unit {0}) ℕ
  generation_from_transaction id = do
    transaction ← c.store.load_transaction id
    succeed transaction.runtime_generation

  unfoldable pub generation_from_manifest :
      Option CommittedManifest → Attempt W (Unit {0}) (Option ℕ)
  generation_from_manifest = traverse (λ manifest. generation_from_transaction manifest.current)

  unfoldable pub previous_transaction : Option CommittedManifest → Option ℕ
  previous_transaction none = none
  previous_transaction (some manifest) = manifest.previous

  unfoldable pub runtime_retention :
      Option CommittedManifest → Option ℕ → Attempt W (Unit {0}) RuntimeGenerationRetention
  runtime_retention committed prepared = do
    current ← generation_from_manifest committed
    previous ← traverse generation_from_transaction (previous_transaction committed)
    succeed (record { current = current; previous = previous; prepared = prepared })

  unfoldable pub prune_runtime_state : RecoveryState → Attempt W (Unit {0}) (Unit {0})
  prune_runtime_state state = do
    prepared ← traverse (λ prepared. generation_from_transaction prepared.candidate) state.prepared
    retention ← runtime_retention state.committed prepared
    c.bundles.prune_generations retention

  unfoldable pub clear_prepared_and_prune : PreparedTransaction → Attempt W (Unit {0}) (Unit {0})
  clear_prepared_and_prune prepared = do
    _ ← c.store.clear_prepared prepared
    _ ← result c.store.prune_unreachable
    state ← c.store.recover
    prune_runtime_state state

  -- Whether the running core already is of the generation and ready.
  unfoldable pub ready_at :
      ℕ → Result (Unit {0}) (Option ManagedCoreHandle) → Attempt W (Unit {0}) Bool
  ready_at generation (err _) = succeed false
  ready_at generation (ok none) = succeed false
  ready_at generation (ok (some managed_core)) =
      if managed_core.runtime_generation == generation
      then (do ready ← result (c.confirm_ready managed_core); succeed (is_ok ready))
      else succeed false

  unfoldable pub restart_unless_ready : RuntimeBundle → Bool → Attempt W (Unit {0}) (Unit {0})
  restart_unless_ready bundle true = succeed tt
  restart_unless_ready bundle false = do _ ← restart_candidate bundle; succeed tt

  unfoldable pub converge_to_transaction : Option ℕ → Attempt W (Unit {0}) (Unit {0})
  converge_to_transaction none = c.runtime.stop
  converge_to_transaction (some id) = do
    transaction ← c.store.load_transaction id
    bundle ← c.bundles.resolve transaction
    if bundle.generation == transaction.runtime_generation
        then (do
          status ← result c.runtime.status
          ready ← ready_at bundle.generation status
          restart_unless_ready bundle ready)
        else fail tt

  unfoldable pub converge_to_manifest : Option CommittedManifest → Attempt W (Unit {0}) (Unit {0})
  converge_to_manifest none = converge_to_transaction none
  converge_to_manifest (some manifest) = converge_to_transaction (some manifest.current)

  -- A function that returns no error is one for every type of errors.
  unfoldable pub clear_prepared_unapplied :
      {E : Type 0} → PreparedTransaction → Option ℕ → Attempt W E RecoveryOutcome
  clear_prepared_unapplied prepared committed_generation = do
    cleared ← result (clear_prepared_and_prune prepared)
    succeed (if is_ok cleared then converged committed_generation else failed committed_generation)

  unfoldable pub clear_found :
      {E : Type 0} → Option PreparedTransaction → Option ℕ → Attempt W E RecoveryOutcome
  clear_found none committed_generation = succeed not_required
  clear_found (some prepared) committed_generation =
      clear_prepared_unapplied prepared committed_generation

  unfoldable pub clear_recovered :
      {E : Type 0} → Result (Unit {0}) RecoveryState → Option ℕ → Attempt W E RecoveryOutcome
  clear_recovered (err _) committed_generation = succeed (failed committed_generation)
  clear_recovered (ok state) committed_generation = clear_found state.prepared committed_generation

  unfoldable pub clear_unapplied_journal : {E : Type 0} → Option ℕ → Attempt W E RecoveryOutcome
  clear_unapplied_journal committed_generation = do
    recovered ← result c.store.recover
    clear_recovered recovered committed_generation

  unfoldable pub rollback :
      {E : Type 0} → PreparedTransaction → Option ℕ → Attempt W E RecoveryOutcome
  rollback prepared target = do
    outcome ←
        result (do _ ← converge_to_transaction prepared.previous; clear_prepared_and_prune prepared)
    succeed (if is_ok outcome then converged target else failed target)

  unfoldable pub recover_failed_candidate :
      {E : Type 0}
      → PreparedTransaction
      → Option ℕ
      → FailureRecoveryMode
      → Attempt W E RecoveryOutcome
  recover_failed_candidate prepared target converge_committed = rollback prepared target
  recover_failed_candidate prepared target stop_startup_candidate = do
    _ ← result c.runtime.stop
    _ ← result (clear_prepared_and_prune prepared)
    succeed (failed target)
