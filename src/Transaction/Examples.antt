-- ===== src/Transaction/Examples.antt =====
-- A store and a runtime on which the theorems on src/transaction.rs are run. A transaction is named
-- by its generation.
use ratash.Common.{
  ℕ, ◌≡◌, refl, ap, Bool, true, false, Option, none, some, inl, inr, same_option, same_option-eq,
  Bool-cases, ap, ◌∙◌, [], ◌∷◌,
}
use ratash.Common.Result.{Result, ok, err, is_ok}
use ratash.Common.Attempt.{◌>>=◌, succeed, fail, map_err, result, read, traverse, Outcome}
use ratash.Transaction.Types.{
  CandidateRevisions, TransactionBundle, RuntimeBundle, ConfigTransactionCandidate,
  PreparedTransaction, CommittedManifest, ManagedCoreHandle, RecoveryOutcome,
  ConfigTransactionSuccess, ConfigTransactionErrorKind, ConfigTransactionError,
  ConfigTransactionCoordinator, spawned, definite, direct, not_required, converged, validation,
  apply, converge_committed,
}
use ratash.Transaction.Recovery.{
  same_bytes, confirm_running, generation_from_transaction, previous_transaction,
  prune_runtime_state, ready_at, restart_unless_ready, converge_to_transaction,
  converge_to_manifest, clear_found, clear_recovered, rollback, is_applied, same_endpoint, confirm,
  restart_candidate, generation_from_manifest, runtime_retention, clear_prepared_and_prune,
  clear_prepared_unapplied, clear_unapplied_journal, recover_failed_candidate,
}
use ratash.Transaction.Keeping.{ServicesKeep, RuntimeKeeps}
use ratash.Transaction.Execute.{
  shutdown_error, same_revisions, generation_is_newer, is_absolute, is_empty, is_yaml,
  is_structurally_valid, is_committed, check_shutdown, validate_candidate, clear_leftover, inspect,
  prepared_or_cleared, prepare_candidate, refuse_prepared, validate_prepared, fail_candidate,
  restarted_or_failed, settle_apply, apply_prepared, confirm_applied, resolve_commit,
  recover_commit_failure, settle_commit, commit_candidate, run_prepared, execute_guarded, execute,
  execute_startup_reapply, reserved, try_reserve_rule, try_execute_rule,
}
use ratash.Transaction.Keeping.{ServicesKeep, RuntimeKeeps}
use ratash.Transaction.Stages.{precedes_apply}
use ratash.Transaction.Outcomes.{execute_guarded-untouched, execute_guarded-uncommitted}
use ratash.Transaction.Success.{StoreCommits, execute_guarded-committed}
use ratash.Transaction.Confirmed.{ConfirmsReady, execute_guarded-confirmed}
use ratash.Transaction.Reapply.{IsNext, prepare_startup_reapply-IsNext}
use ratash.Transaction.Startup.{
  checked_next, generation_or_zero, highest_generation, take_generation, reapply_next,
  prepare_startup_reapply, clear_journal, generation_of_prepared, runtime_generation_of,
}

record Machine : Type 0 where
  journal : Option PreparedTransaction
  last : Option ℕ
  running : Option ℕ

abbrev bundle_of : ℕ → TransactionBundle
bundle_of generation = record {
  supervisor_state = 1;
  profile_snapshot = 2;
  local_rule_set = 3;
  effective_configuration = 4;
  profile_revision = 5;
  local_rule_set_revision = 6;
  active_profile_id = 7;
  runtime_generation = generation;
}

abbrev runtime_of : ℕ → RuntimeBundle
runtime_of generation = record {
  generation = generation;
  generation_root = 47 ∷ [];
  manifest_sha256 = 1 ∷ [];
  compiler_policy_sha256 = 2 ∷ [];
  mihomo_binary_sha256 = 3 ∷ [];
}

abbrev revisions_now : CandidateRevisions
revisions_now = record {
  profile = 5;
  active_profile = 1;
  local_rule_set = 6;
  compiler_policy_sha256 = 2 ∷ [];
  core_version = 9 ∷ [];
}

abbrev candidate_one : ConfigTransactionCandidate
candidate_one = record {
  transaction = bundle_of 1;
  runtime = runtime_of 1;
  configuration = record { yaml = 8 ∷ []; core_version = 9 ∷ []; compiler_policy_sha256 = 2 ∷ [] };
  revisions = revisions_now;
}

abbrev core_of : ℕ → ManagedCoreHandle
core_of generation = record {
  pid = 7;
  process_start_identity = 1 ∷ [];
  endpoint = record { socket_path = 47 ∷ []; secret = [] };
  instance_generation = 1;
  runtime_generation = generation;
}

abbrev core_at : Option ℕ → Option ManagedCoreHandle
core_at none = none
core_at (some generation) = some (core_of generation)

abbrev current_or : ℕ → Option CommittedManifest → ℕ
current_or id none = id
current_or id (some manifest) = manifest.current

abbrev manifest_at : Option ℕ → Option CommittedManifest
manifest_at none = none
manifest_at (some id) = some (record { current = id; previous = none })

-- The result of a call that fails when it is told to.
abbrev when_allowed : {E A : Type 0} → Bool → E → A → Result E A
when_allowed true e a = ok a
when_allowed false e a = err e

abbrev journal_for : TransactionBundle → Option ℕ → PreparedTransaction
journal_for b last = record { candidate = b.runtime_generation; previous = last }

-- A machine whose validator and whose runtime can be told to refuse.
abbrev coordinator : Bool → Bool → ConfigTransactionCoordinator Machine
coordinator valid applies = record {
  store = record {
    read_object_limited = λ id limit w. (ok (8 ∷ []), w);
    prepare =
        λ b w. (ok (journal_for b w.last), record w { journal = some (journal_for b w.last) });
    recover = λ w. (ok (record { committed = manifest_at w.last; prepared = w.journal }), w);
    commit_prepared = λ p w. (ok tt, record w { last = some p.candidate });
    clear_prepared = λ p w. (ok tt, record w { journal = none });
    load_transaction = λ id w. (ok (bundle_of id), w);
    prune_unreachable = λ w. (ok tt, w);
  };
  runtime = record {
    apply_candidate = λ b w. (
      when_allowed applies definite
          (record { disposition = spawned; managed_core = core_of b.generation }),
      record w { running = some b.generation },
    );
    status = λ w. (ok (core_at w.running), w);
    stop = λ w. (ok tt, record w { running = none });
  };
  bundles = record {
    resolve = λ b w. (ok (runtime_of b.runtime_generation), w);
    prune_generations = λ r w. (ok tt, w);
  };
  validate = λ e root w. (when_allowed valid tt tt, w);
  confirm_ready =
      λ h w. (when_allowed (same_option w.running (some h.runtime_generation)) tt tt, w);
  current_revisions = λ w. (revisions_now, w);
  shutdown_requested = λ w. (false, w);
  lock_coordinator = λ w. (ok tt, w);
  try_lock_coordinator = λ w. (ok tt, w);
  lock_lifecycle = λ w. (ok tt, w);
}

abbrev idle : Machine
idle = record { journal = none; last = none; running = none }

allowed :
    {E A : Type 0} (R : Machine → Type 0) (w : Machine) (b : Bool) (e : E) (a : A)
    → R w
    → Outcome (λ _. R) (λ _. R) (when_allowed b e a, w)
unfolding Outcome
allowed R w true e a r = r
allowed R w false e a r = r

read_back :
    (last : Option ℕ) (m : CommittedManifest) → manifest_at last ≡ some m → last ≡ some m.current
read_back none m same = cc (same)
read_back (some id) m same = ap some (ap (λ o. current_or id o) same)

probe_sound :
    (running : Option ℕ) (g : ℕ) (w : Machine)
    → w.running ≡ running
    → Outcome {E = Unit {0}} {A = Unit {0}}
        (λ _ w. Unit {0} × (w.running ≡ some g))
        (λ _ _. Unit {0})
        (when_allowed (same_option running (some g)) tt tt, w)
unfolding Outcome
probe_sound running g w same = elim (Bool-cases (same_option running (some g))) [
  | inl e ↦ rw e (tt, same ∙ same_option-eq running (some g) e)
  | inr e ↦ rw e tt
]

-- All that the services change is the journal.
services :
    (valid applies : Bool) (last running : Option ℕ → Type 0)
    → ServicesKeep (coordinator valid applies) (λ w. last w.last × running w.running)
unfolding Outcome
services valid applies last running = record {
  read_object_limited = λ id limit. record { from = λ w r. r };
  prepare = λ b. record { from = λ w r. r };
  recover = record { from = λ w r. r };
  clear_prepared = λ p. record { from = λ w r. r };
  load_transaction = λ id. record { from = λ w r. r };
  prune_unreachable = record { from = λ w r. r };
  resolve = λ b. record { from = λ w r. r };
  prune_generations = λ p. record { from = λ w r. r };
  status = record { from = λ w r. r };
  confirm_ready = λ h. record {
    from = λ w r.
        allowed (λ w. last w.last × running w.running) w
          (same_option w.running (some h.runtime_generation)) tt tt r;
  };
  validate = λ e root. record {
    from = λ w r. allowed (λ w. last w.last × running w.running) w valid tt tt r;
  };
  current_revisions = λ w r. r;
  shutdown_requested = λ w r. r;
  lock_lifecycle = record { from = λ w r. r };
}

abbrev refused : ConfigTransactionErrorKind → RecoveryOutcome → ConfigTransactionError
refused kind outcome = record {
  kind = kind;
  candidate_generation = some 1;
  committed_generation = none;
  recovery = outcome;
}

abbrev applied_one : ConfigTransactionSuccess
applied_one = record {
  candidate_generation = 1;
  committed_generation = 1;
  apply_path = direct;
  recovery = not_required;
}

invalid_run :
    (execute_guarded (coordinator false true) candidate_one converge_committed idle).0
    ≡ err (refused validation (converged none))
unfolding shutdown_error same_revisions generation_is_newer is_absolute is_empty is_yaml
    is_structurally_valid is_committed check_shutdown validate_candidate clear_leftover inspect
    prepared_or_cleared prepare_candidate refuse_prepared validate_prepared fail_candidate
    restarted_or_failed settle_apply apply_prepared confirm_applied resolve_commit
    recover_commit_failure settle_commit commit_candidate run_prepared execute_guarded execute
    execute_startup_reapply reserved try_reserve_rule try_execute_rule same_bytes confirm_running
    confirm restart_candidate generation_from_transaction generation_from_manifest
    previous_transaction runtime_retention prune_runtime_state clear_prepared_and_prune ready_at
    restart_unless_ready converge_to_transaction converge_to_manifest clear_prepared_unapplied
    clear_found clear_recovered clear_unapplied_journal rollback recover_failed_candidate is_applied
    same_endpoint is_ok ◌>>=◌ succeed fail map_err result read traverse
invalid_run = refl

failed_run :
    (execute_guarded (coordinator true false) candidate_one converge_committed idle).0
    ≡ err (refused apply (converged none))
unfolding shutdown_error same_revisions generation_is_newer is_absolute is_empty is_yaml
    is_structurally_valid is_committed check_shutdown validate_candidate clear_leftover inspect
    prepared_or_cleared prepare_candidate refuse_prepared validate_prepared fail_candidate
    restarted_or_failed settle_apply apply_prepared confirm_applied resolve_commit
    recover_commit_failure settle_commit commit_candidate run_prepared execute_guarded execute
    execute_startup_reapply reserved try_reserve_rule try_execute_rule same_bytes confirm_running
    confirm restart_candidate generation_from_transaction generation_from_manifest
    previous_transaction runtime_retention prune_runtime_state clear_prepared_and_prune ready_at
    restart_unless_ready converge_to_transaction converge_to_manifest clear_prepared_unapplied
    clear_found clear_recovered clear_unapplied_journal rollback recover_failed_candidate is_applied
    same_endpoint is_ok ◌>>=◌ succeed fail map_err result read traverse
failed_run = refl

good_run :
    (execute_guarded (coordinator true true) candidate_one converge_committed idle).0
    ≡ ok applied_one
unfolding shutdown_error same_revisions generation_is_newer is_absolute is_empty is_yaml
    is_structurally_valid is_committed check_shutdown validate_candidate clear_leftover inspect
    prepared_or_cleared prepare_candidate refuse_prepared validate_prepared fail_candidate
    restarted_or_failed settle_apply apply_prepared confirm_applied resolve_commit
    recover_commit_failure settle_commit commit_candidate run_prepared execute_guarded execute
    execute_startup_reapply reserved try_reserve_rule try_execute_rule same_bytes confirm_running
    confirm restart_candidate generation_from_transaction generation_from_manifest
    previous_transaction runtime_retention prune_runtime_state clear_prepared_and_prune ready_at
    restart_unless_ready converge_to_transaction converge_to_manifest clear_prepared_unapplied
    clear_found clear_recovered clear_unapplied_journal rollback recover_failed_candidate is_applied
    same_endpoint is_ok ◌>>=◌ succeed fail map_err result read traverse
good_run = refl

reapply_run :
    (prepare_startup_reapply (coordinator true true) none idle).0
    ≡ ok (record {
      committed_generation = none;
      candidate_generation = 1;
      cleared_prepared_journal = false;
    })
unfolding shutdown_error same_revisions generation_is_newer is_absolute is_empty is_yaml
    is_structurally_valid is_committed check_shutdown validate_candidate clear_leftover inspect
    prepared_or_cleared prepare_candidate refuse_prepared validate_prepared fail_candidate
    restarted_or_failed settle_apply apply_prepared confirm_applied resolve_commit
    recover_commit_failure settle_commit commit_candidate run_prepared execute_guarded execute
    execute_startup_reapply reserved try_reserve_rule try_execute_rule same_bytes confirm_running
    confirm restart_candidate generation_from_transaction generation_from_manifest
    previous_transaction runtime_retention prune_runtime_state clear_prepared_and_prune ready_at
    restart_unless_ready converge_to_transaction converge_to_manifest clear_prepared_unapplied
    clear_found clear_recovered clear_unapplied_journal rollback recover_failed_candidate is_applied
    same_endpoint is_ok ◌>>=◌ succeed fail map_err result read traverse checked_next
    generation_or_zero highest_generation take_generation reapply_next prepare_startup_reapply
    clear_journal generation_of_prepared runtime_generation_of
reapply_run = refl

execute_guarded-untouched_example :
    let w = (execute_guarded (coordinator false true) candidate_one converge_committed idle).1 in
    (w.last ≡ none) × (w.running ≡ none)
unfolding precedes_apply
execute_guarded-untouched_example =
    execute_guarded-untouched (coordinator false true) candidate_one converge_committed
      (services false true (λ o. o ≡ none) (λ o. o ≡ none)) idle (refl, refl)
      (refused validation (converged none)) invalid_run refl

driven :
    (valid applies : Bool)
    → RuntimeKeeps (coordinator valid applies) (λ w. (w.last ≡ none) × Unit {0})
unfolding Outcome
driven valid applies = record {
  apply_candidate = λ b. record {
    from = λ w r.
        allowed (λ w. (w.last ≡ none) × Unit {0}) (record w { running = some b.generation }) applies
          definite (record { disposition = spawned; managed_core = core_of b.generation }) r;
  };
  stop = record { from = λ w r. r };
}

execute_guarded-uncommitted_example :
    let w = (execute_guarded (coordinator true false) candidate_one converge_committed idle).1 in
    (w.last ≡ none) × Unit {0}
execute_guarded-uncommitted_example =
    execute_guarded-uncommitted (coordinator true false) candidate_one converge_committed
      (services true false (λ o. o ≡ none) (λ _. Unit {0})) (driven true false) idle (refl, tt)
      (refused apply (converged none)) failed_run (λ same. cc (same))

named_by_generation :
    StoreCommits
      (coordinator true true)
      (λ b. b.runtime_generation)
      (λ id w. (w.last ≡ some id) × Unit {0})
unfolding Outcome
named_by_generation = record {
  prepare = λ b. record { from = λ w _. refl };
  commit_prepared = λ p. record { from = λ w _. (refl, tt) };
  recover = record { from = λ w _ m same. (read_back w.last m same, tt) };
  keep = λ id. services true true (λ o. o ≡ some id) (λ _. Unit {0});
}

execute_guarded-committed_example :
    let w = (execute_guarded (coordinator true true) candidate_one converge_committed idle).1 in
    (w.last ≡ some 1) × Unit {0}
execute_guarded-committed_example =
    execute_guarded-committed named_by_generation candidate_one converge_committed idle applied_one
      good_run

probed : ConfirmsReady (coordinator true true) (λ g w. Unit {0} × (w.running ≡ some g))
unfolding Outcome
probed = record {
  confirm_ready = λ h. record { from = λ w _. probe_sound w.running h.runtime_generation w refl };
  keep = λ g. services true true (λ _. Unit {0}) (λ o. o ≡ some g);
  commits = λ g p. record { from = λ w r. r };
}

execute_guarded-confirmed_example :
    let w = (execute_guarded (coordinator true true) candidate_one converge_committed idle).1 in
    Unit {0} × (w.running ≡ some 1)
execute_guarded-confirmed_example =
    execute_guarded-confirmed probed candidate_one converge_committed idle applied_one good_run

prepare_startup_reapply-IsNext_example : (◌≡◌ {A = Option ℕ} none none) × IsNext none 1
prepare_startup_reapply-IsNext_example =
    prepare_startup_reapply-IsNext (coordinator true true) none idle
      (record {
        committed_generation = none;
        candidate_generation = 1;
        cleared_prepared_journal = false;
      })
      reapply_run
