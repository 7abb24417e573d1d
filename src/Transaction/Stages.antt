-- ===== src/Transaction/Stages.antt =====
-- The stages of `execute_guarded` of src/transaction.rs, before and after the first call of the
-- runtime.
use ratash.Common.{ℕ, ◌≡◌, refl, Bool, true, false, Option, none, some, is_some}
use ratash.Common.Result.{Result, ok, err, is_ok}
use ratash.Common.Attempt.{
  Triple, Keeps, Triple-succeed, Triple-fail, Triple-if, Triple-bind, Triple-weaken, Keeps-result,
  Keeps-read,
}
use ratash.Transaction.Types.{
  ConfigTransactionCandidate, PreparedTransaction, RecoveryState, ApplyCandidateResult,
  RuntimeApplyFailure, ApplyPath, ConfigTransactionErrorKind, ConfigTransactionError,
  FailureRecoveryMode, ConfigTransactionCoordinator, definite, indeterminate, tun_permission_denied,
  tun_unsupported, direct, candidate_restart, stale_candidate, validation, tun_permission,
  tun_support, apply, indeterminate_apply, health, commit, shutdown,
}
use ratash.Transaction.Keeping.{
  Keeps-succeed, Keeps-fail, Keeps-map_err, Keeps-if, generation_from_manifest-Keeps,
  runtime_retention-Keeps, clear_prepared_and_prune-Keeps, clear_prepared_unapplied-Keeps,
  clear_unapplied_journal-Keeps, confirm-Keeps, restart_candidate-Keeps,
  recover_failed_candidate-Keeps, ServicesKeep, RuntimeKeeps,
}
use ratash.Transaction.Execute.{
  shutdown_error, same_revisions, is_structurally_valid, is_committed, check_shutdown,
  validate_candidate, clear_leftover, inspect, prepared_or_cleared, prepare_candidate,
  refuse_prepared, validate_prepared, fail_candidate, restarted_or_failed, settle_apply,
  apply_prepared, confirm_applied, Start,
}

-- The kinds of error that `execute_guarded` returns only before it first calls the runtime.
unfoldable pub precedes_apply : ConfigTransactionErrorKind → Bool
precedes_apply shutdown = false
precedes_apply apply = false
precedes_apply tun_permission = false
precedes_apply tun_support = false
precedes_apply indeterminate_apply = false
precedes_apply health = false
precedes_apply commit = false
precedes_apply _ = true

-- An error from the runtime on, with what still holds.
abbrev pub Late : {W : Type 0} → (W → Type 0) → ConfigTransactionError → W → Type 0
Late R e w = (precedes_apply e.kind ≡ false) × R w

module _ {W : Type 0} {c : ConfigTransactionCoordinator W} {R : W → Type 0}
    (keep : ServicesKeep c R) where
  pub check_shutdown-Late :
      (g : ℕ) (o : Option ℕ) (p : Bool) → Triple R (check_shutdown c g o p) (λ _. R) (Late R)
  unfolding check_shutdown shutdown_error precedes_apply
  check_shutdown-Late g o p =
      Triple-bind (Keeps-read _ keep.shutdown_requested) (λ b.
        Triple-if b (λ _. Triple-fail _ (λ w r. (refl, r))) (λ _. Triple-succeed tt (λ w r. r)))

  pub check_shutdown-Keeps : (g : ℕ) (o : Option ℕ) (p : Bool) → Keeps R (check_shutdown c g o p)
  check_shutdown-Keeps g o p = Triple-weaken (λ a w r. r) (λ e w l. l.1) (check_shutdown-Late g o p)

  validate_candidate-Keeps :
      (x : ConfigTransactionCandidate) (o : Option ℕ) → Keeps R (validate_candidate c x o)
  unfolding validate_candidate
  validate_candidate-Keeps x o = Triple-bind (Keeps-read _ keep.current_revisions) (λ current.
      Keeps-if (same_revisions current x.revisions)
        (Triple-bind (Keeps-result (keep.read_object_limited _ _))
          (λ object. Keeps-if (is_structurally_valid x o object) (Keeps-succeed tt) (Keeps-fail _)))
        (Keeps-fail _))

  clear_leftover-Keeps :
      (g : ℕ) (o : Option ℕ) (s : RecoveryState) (p : Option PreparedTransaction)
      → Keeps R (clear_leftover c g o s p)
  unfolding clear_leftover
  clear_leftover-Keeps g o s none = Keeps-succeed s
  clear_leftover-Keeps g o s (some p) =
      Keeps-if (is_committed s.committed p)
        (Triple-bind (Keeps-map_err _ (clear_prepared_and_prune-Keeps keep p))
          (λ _. Keeps-map_err _ keep.recover))
        (Keeps-succeed s)

  pub inspect-Keeps : (g : ℕ) → Keeps R (inspect c g)
  unfolding inspect
  inspect-Keeps g = Triple-bind (check_shutdown-Keeps g none false) (λ _.
      Triple-bind (Keeps-map_err _ keep.recover) (λ s.
        Triple-bind (Keeps-map_err _ (generation_from_manifest-Keeps keep s.committed)) (λ o.
          Triple-bind (check_shutdown-Keeps g o false) (λ _.
            Triple-bind (clear_leftover-Keeps g o s s.prepared)
              (λ s'. Keeps-if (is_some s'.prepared) (Keeps-fail _) (Keeps-succeed _))))))

  prepared_or_cleared-Keeps :
      (g : ℕ) (o : Option ℕ) (r : Result (Unit {0}) PreparedTransaction)
      → Keeps R (prepared_or_cleared c g o r)
  unfolding prepared_or_cleared
  prepared_or_cleared-Keeps g o (ok p) = Keeps-succeed p
  prepared_or_cleared-Keeps g o (err _) =
      Triple-bind (clear_unapplied_journal-Keeps keep o) (λ _. Keeps-fail _)

  pub prepare_candidate-Keeps :
      (x : ConfigTransactionCandidate) (s : Start) → Keeps R (prepare_candidate c x s)
  unfolding prepare_candidate
  prepare_candidate-Keeps x s =
      Triple-bind (validate_candidate-Keeps x s.committed_generation) (λ _.
        Triple-bind (Keeps-map_err _ (runtime_retention-Keeps keep s.committed _)) (λ r.
          Triple-bind (Keeps-map_err _ (keep.prune_generations r)) (λ _.
            Triple-bind (Keeps-result (keep.prepare x.transaction))
              (λ p. prepared_or_cleared-Keeps x.runtime.generation s.committed_generation p))))

  refuse_prepared-Keeps :
      {A : Type 0} (k : ConfigTransactionErrorKind) (g : ℕ) (o : Option ℕ) (p : PreparedTransaction)
      → Keeps R (refuse_prepared c {A = A} k g o p)
  unfolding refuse_prepared
  refuse_prepared-Keeps k g o p =
      Triple-bind (clear_prepared_unapplied-Keeps keep p o) (λ _. Keeps-fail _)

  pub validate_prepared-Keeps :
      (x : ConfigTransactionCandidate) (o : Option ℕ) (p : PreparedTransaction)
      → Keeps R (validate_prepared c x o p)
  unfolding validate_prepared
  validate_prepared-Keeps x o p =
      Triple-bind (check_shutdown-Keeps x.runtime.generation o true) (λ _.
        Triple-bind (Keeps-result (keep.validate x.configuration _)) (λ v.
          Triple-bind (check_shutdown-Keeps x.runtime.generation o true) (λ _.
            Keeps-if (is_ok v)
              (Triple-bind (Keeps-read _ keep.current_revisions) (λ current.
                Keeps-if (same_revisions current x.revisions)
                  (Triple-bind (Keeps-map_err _ keep.lock_lifecycle)
                    (λ _. check_shutdown-Keeps x.runtime.generation o true))
                  (refuse_prepared-Keeps stale_candidate _ o p)))
              (refuse_prepared-Keeps validation _ o p))))

  module _ (drive : RuntimeKeeps c R) where
    pub fail_candidate-Late :
        {A : Type 0} (k : ConfigTransactionErrorKind) (g : ℕ) (o : Option ℕ)
        (p : PreparedTransaction) (mode : FailureRecoveryMode)
        → precedes_apply k ≡ false
        → Triple R (fail_candidate c {A = A} k g o p mode) (λ _. R) (Late R)
    unfolding fail_candidate
    fail_candidate-Late k g o p mode late =
        Triple-bind (recover_failed_candidate-Keeps keep drive p o mode)
          (λ _. Triple-fail _ (λ w r. (late, r)))

    restarted_or_failed-Late :
        (x : ConfigTransactionCandidate) (o : Option ℕ) (p : PreparedTransaction)
        (mode : FailureRecoveryMode) (r : Result (Unit {0}) ApplyCandidateResult)
        → Triple R (restarted_or_failed c x o p mode r) (λ _. R) (Late R)
    unfolding restarted_or_failed precedes_apply
    restarted_or_failed-Late x o p mode (ok a) = Keeps-succeed _
    restarted_or_failed-Late x o p mode (err _) = fail_candidate-Late _ _ o p mode refl

    settle_apply-Late :
        (x : ConfigTransactionCandidate) (o : Option ℕ) (p : PreparedTransaction)
        (mode : FailureRecoveryMode) (r : Result RuntimeApplyFailure ApplyCandidateResult)
        → Triple R (settle_apply c x o p mode r) (λ _. R) (Late R)
    unfolding settle_apply precedes_apply
    settle_apply-Late x o p mode (ok a) = Keeps-succeed _
    settle_apply-Late x o p mode (err definite) = fail_candidate-Late _ _ o p mode refl
    settle_apply-Late x o p mode (err tun_permission_denied) = fail_candidate-Late _ _ o p mode refl
    settle_apply-Late x o p mode (err tun_unsupported) = fail_candidate-Late _ _ o p mode refl
    settle_apply-Late x o p mode (err indeterminate) =
        Triple-bind (Keeps-result (restart_candidate-Keeps keep drive x.runtime))
          (λ r. restarted_or_failed-Late x o p mode r)

    pub apply_prepared-Late :
        (x : ConfigTransactionCandidate) (o : Option ℕ) (p : PreparedTransaction)
        (mode : FailureRecoveryMode)
        → Triple R (apply_prepared c x o p mode) (λ _. R) (Late R)
    unfolding apply_prepared
    apply_prepared-Late x o p mode =
        Triple-bind (Keeps-result (drive.apply_candidate x.runtime)) (λ r.
          Triple-bind (check_shutdown-Late x.runtime.generation o true)
            (λ _. settle_apply-Late x o p mode r))

    pub confirm_applied-Late :
        (x : ConfigTransactionCandidate) (o : Option ℕ) (p : PreparedTransaction)
        (mode : FailureRecoveryMode) (a : ApplyCandidateResult) (path : ApplyPath)
        → Triple R (confirm_applied c x o p mode a path) (λ _. R) (Late R)
    unfolding confirm_applied precedes_apply
    confirm_applied-Late x o p mode a candidate_restart =
        check_shutdown-Late x.runtime.generation o true
    confirm_applied-Late x o p mode a direct =
        Triple-bind (Keeps-result (confirm-Keeps keep a x.runtime.generation)) (λ r.
          Triple-bind (check_shutdown-Late x.runtime.generation o true) (λ _.
            Triple-if (is_ok r) (λ _. check_shutdown-Late x.runtime.generation o true)
              (λ _. fail_candidate-Late _ _ o p mode refl)))
