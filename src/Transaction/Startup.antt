-- ===== src/Transaction/Startup.antt =====
-- `recover_startup` and `prepare_startup_reapply` of src/transaction.rs.
use ratash.Common.{ℕ, ◌+◌, ◌^◌, max, Option, none, some, ltb, if◌then◌else◌, is_some, same_option}
use ratash.Common.Result.{Result, ok, err}
use ratash.Common.Attempt.{◌>>=◌, succeed, fail, map_err, result}
use ratash.Transaction.Types.{
  TransactionBundle, PreparedTransaction, RecoveryState, RecoveryOutcome,
  ConfigTransactionErrorKind, ConfigTransactionError, StartupRecovery, StartupReapply,
  ConfigTransactionCoordinator, pending, failed, lock_poisoned, cleanup, recovery,
}
use ratash.Transaction.Recovery.{
  generation_from_manifest, prune_runtime_state, clear_prepared_and_prune, converge_to_manifest,
}
use ratash.Transaction.Execute.{Fallible, simple}

-- An error before any candidate is known.
abbrev pub startup_error :
    ConfigTransactionErrorKind → Option ℕ → RecoveryOutcome → ConfigTransactionError
startup_error kind committed_generation outcome = record {
  kind = kind;
  candidate_generation = none;
  committed_generation = committed_generation;
  recovery = outcome;
}

-- `u64::checked_add(1)`.
unfoldable pub checked_next : ℕ → Option ℕ
checked_next n = if ltb (n + 1) (2 ^ 64) then some (n + 1) else none

unfoldable pub generation_or_zero : Option ℕ → ℕ
generation_or_zero none = 0
generation_or_zero (some generation) = generation

-- The greater of the two generations that are known, or zero.
unfoldable pub highest_generation : Option ℕ → Option ℕ → ℕ
highest_generation committed prepared =
    max (generation_or_zero committed) (generation_or_zero prepared)

unfoldable pub runtime_generation_of : Result (Unit {0}) TransactionBundle → Option ℕ
runtime_generation_of (ok transaction) = some transaction.runtime_generation
runtime_generation_of (err _) = none

module _ {W : Type 0} (c : ConfigTransactionCoordinator W) where
  unfoldable pub clear_journal : Option ℕ → Option PreparedTransaction → Fallible W (Unit {0})
  clear_journal committed_generation none = succeed tt
  clear_journal committed_generation (some prepared) =
      map_err (startup_error cleanup committed_generation (pending committed_generation))
        (clear_prepared_and_prune c prepared)

  unfoldable pub recover_startup : Fallible W StartupRecovery
  recover_startup = do
    _ ← map_err (simple lock_poisoned) c.lock_coordinator
    _ ← map_err (simple lock_poisoned) c.lock_lifecycle
    state ← map_err (simple recovery) c.store.recover
    committed_generation ← map_err (simple recovery) (generation_from_manifest c state.committed)
    _ ←
        map_err (startup_error cleanup committed_generation (pending committed_generation))
          (prune_runtime_state c state)
    _ ←
        map_err (startup_error recovery committed_generation (failed committed_generation))
          (converge_to_manifest c state.committed)
    _ ← clear_journal committed_generation state.prepared
    succeed (record {
      committed_generation = committed_generation;
      cleared_prepared_journal = is_some state.prepared;
    })

  unfoldable pub generation_of_prepared : Option PreparedTransaction → Fallible W (Option ℕ)
  generation_of_prepared none = succeed none
  generation_of_prepared (some prepared) = do
    loaded ← result (c.store.load_transaction prepared.candidate)
    succeed (runtime_generation_of loaded)

  unfoldable pub take_generation : Option ℕ → Option ℕ → Fallible W ℕ
  take_generation committed_generation none =
      fail (startup_error recovery committed_generation (failed committed_generation))
  take_generation committed_generation (some generation) = succeed generation

  -- What follows the comparison with the expected generation.
  unfoldable pub reapply_next : Option ℕ → RecoveryState → Fallible W StartupReapply
  reapply_next committed_generation state = do
    prepared_generation ← generation_of_prepared state.prepared
    candidate_generation ←
        take_generation committed_generation
          (checked_next (highest_generation committed_generation prepared_generation))
    _ ← clear_journal committed_generation state.prepared
    succeed (record {
      committed_generation = committed_generation;
      candidate_generation = candidate_generation;
      cleared_prepared_journal = is_some state.prepared;
    })

  unfoldable pub prepare_startup_reapply : Option ℕ → Fallible W StartupReapply
  prepare_startup_reapply expected_committed_generation = do
    _ ← map_err (simple lock_poisoned) c.lock_coordinator
    state ← map_err (simple recovery) c.store.recover
    committed_generation ← map_err (simple recovery) (generation_from_manifest c state.committed)
    _ ←
        map_err (startup_error cleanup committed_generation (pending committed_generation))
          (prune_runtime_state c state)
    if same_option committed_generation expected_committed_generation
        then reapply_next committed_generation state
        else fail
            (startup_error recovery committed_generation (failed expected_committed_generation))
