-- ===== src/Transaction/Confirmed.antt =====
-- `execute_guarded` of src/transaction.rs and the health probe: the two ways in which a candidate
-- is confirmed.
use ratash.Common.{ℕ, ◌≡◌, Bool, true, Option, none, some, if◌then◌else◌, arith}
use ratash.Common.Result.{Result, ok, err, is_ok}
use ratash.Common.Attempt.{
  ◌>>=◌, Triple, Keeps, Triple-succeed, Triple-fail, Triple-if, Triple-bind, Triple-map_err,
  Triple-weaken, Triple-before, Triple-result, Settled, Keeps-result, Outcome-ok, Keeps-trivial,
}
use ratash.Transaction.Types.{
  RuntimeBundle, ConfigTransactionCandidate, PreparedTransaction, ManagedCoreHandle,
  ApplyCandidateResult, RuntimeApplyFailure, ApplyPath, ConfigTransactionSuccess,
  ConfigTransactionErrorKind, FailureRecoveryMode, ConfigTransactionCoordinator, definite,
  indeterminate, tun_permission_denied, tun_unsupported, direct, candidate_restart, health, commit,
}
use ratash.Transaction.Recovery.{confirm, confirm_running, is_applied, restart_candidate}
use ratash.Transaction.Keeping.{
  Keeps-succeed, clear_prepared_and_prune-Keeps, recover_failed_candidate-Keeps, ServicesKeep,
}
use ratash.Transaction.Execute.{
  is_committed, check_shutdown, fail_candidate, restarted_or_failed, settle_apply, apply_prepared,
  confirm_applied, resolve_commit, recover_commit_failure, settle_commit, commit_candidate,
  run_prepared, execute_guarded,
}
use ratash.Transaction.Stages.{check_shutdown-Keeps}
use ratash.Transaction.Outcomes.{always, always_driven}
use ratash.Transaction.Success.{Ends}

-- What `confirm_ready` promises of the core that it is asked about, kept by every port but those
-- that drive the runtime.
pub record ConfirmsReady {W : Type 0} (c : ConfigTransactionCoordinator W) (Ready : ℕ → W → Type 0)
    : Type 0 where
  pub confirm_ready :
      (h : ManagedCoreHandle)
      → Triple
          (λ _. Unit {0})
          (c.confirm_ready h)
          (λ _. Ready h.runtime_generation)
          (λ _ _. Unit {0})
  pub keep : (g : ℕ) → ServicesKeep c (Ready g)
  pub commits : (g : ℕ) (p : PreparedTransaction) → Keeps (Ready g) (c.store.commit_prepared p)

is_applied-generation :
    (a b : ManagedCoreHandle) (g : ℕ) → is_applied a b g ≡ true → a.runtime_generation ≡ g
unfolding is_applied
is_applied-generation a b g h = ground (arith, h)

module _ {W : Type 0} {c : ConfigTransactionCoordinator W} {Ready : ℕ → W → Type 0}
    (probe : ConfirmsReady c Ready) where
  confirm_running-Ready :
      (b : ManagedCoreHandle) (g : ℕ) (o : Option ManagedCoreHandle)
      → Triple (λ _. Unit {0}) (confirm_running c b g o) (λ _. Ready g) (λ _ _. Unit {0})
  unfolding confirm_running
  confirm_running-Ready b g none = Triple-fail tt (λ w r. tt)
  confirm_running-Ready b g (some a) =
      Triple-if (is_applied a b g)
        (λ yes.
          Triple-weaken (λ _ w r. rw (← is_applied-generation a b g yes) r) (λ _ w r. tt)
            (probe.confirm_ready a))
        (λ _. Triple-fail tt (λ w r. tt))

  confirm-Ready :
      (a : ApplyCandidateResult) (g : ℕ)
      → Triple (λ _. Unit {0}) (confirm c a g) (λ _. Ready g) (λ _ _. Unit {0})
  unfolding confirm
  confirm-Ready a g = Triple-bind (Keeps-trivial _) (λ o. confirm_running-Ready a.managed_core g o)

  restart_candidate-Ready :
      (b : RuntimeBundle)
      → Triple (λ _. Unit {0}) (restart_candidate c b) (λ _. Ready b.generation) (λ _ _. Unit {0})
  unfolding restart_candidate
  restart_candidate-Ready b = Triple-bind (Keeps-trivial _) (λ _.
      Triple-bind (Keeps-trivial _)
        (λ a. Triple-bind (confirm-Ready a b.generation) (λ _. Triple-succeed a (λ w r. r))))

  checked :
      (g' : ℕ) (g : ℕ) (o : Option ℕ) (b : Bool)
      → Ends (Ready g') (check_shutdown c g o b) (λ _. Ready g')
  checked g' g o b =
      Triple-weaken (λ a w r. r) (λ e w r. tt) (check_shutdown-Keeps (probe.keep g') g o b)

  failing :
      {A : Type 0} {Q : A → W → Type 0} {P : W → Type 0} (k : ConfigTransactionErrorKind) (g : ℕ)
      (o : Option ℕ) (p : PreparedTransaction) (mode : FailureRecoveryMode)
      → Ends P (fail_candidate c k g o p mode) Q
  unfolding fail_candidate
  failing k g o p mode =
      Triple-before (λ w _. tt)
        (Triple-bind (recover_failed_candidate-Keeps (always c) (always_driven c) p o mode)
          (λ _. Triple-fail _ (λ w r. tt)))

  -- A restarted candidate is confirmed already, a directly applied one is not yet.
  pub Applied : ℕ → ApplyCandidateResult × ApplyPath → W → Type 0
  Applied g (a, direct) w = Unit {0}
  Applied g (a, candidate_restart) w = Ready g w

  restarted_or_failed-Ready :
      (x : ConfigTransactionCandidate) (o : Option ℕ) (p : PreparedTransaction)
      (mode : FailureRecoveryMode) (r : Result (Unit {0}) ApplyCandidateResult)
      → Ends
          (Settled (λ _. Ready x.runtime.generation) (λ _ _. Unit {0}) r)
          (restarted_or_failed c x o p mode r)
          (Applied x.runtime.generation)
  unfolding restarted_or_failed Settled Applied
  restarted_or_failed-Ready x o p mode (ok a) = Triple-succeed _ (λ w r. r)
  restarted_or_failed-Ready x o p mode (err _) = failing _ _ o p mode

  settle_apply-Ready :
      (x : ConfigTransactionCandidate) (o : Option ℕ) (p : PreparedTransaction)
      (mode : FailureRecoveryMode) (r : Result RuntimeApplyFailure ApplyCandidateResult)
      → Ends (λ _. Unit {0}) (settle_apply c x o p mode r) (Applied x.runtime.generation)
  unfolding settle_apply Applied
  settle_apply-Ready x o p mode (ok a) = Triple-succeed _ (λ w r. tt)
  settle_apply-Ready x o p mode (err definite) = failing _ _ o p mode
  settle_apply-Ready x o p mode (err tun_permission_denied) = failing _ _ o p mode
  settle_apply-Ready x o p mode (err tun_unsupported) = failing _ _ o p mode
  settle_apply-Ready x o p mode (err indeterminate) =
      Triple-bind (Triple-result (restart_candidate-Ready x.runtime))
        (λ r. restarted_or_failed-Ready x o p mode r)

  apply_prepared-Ready :
      (x : ConfigTransactionCandidate) (o : Option ℕ) (p : PreparedTransaction)
      (mode : FailureRecoveryMode)
      → Ends (λ _. Unit {0}) (apply_prepared c x o p mode) (Applied x.runtime.generation)
  unfolding apply_prepared
  apply_prepared-Ready x o p mode =
      Triple-bind (Keeps-trivial _)
        (λ r. Triple-bind (Keeps-trivial _) (λ _. settle_apply-Ready x o p mode r))

  confirm_if :
      (x : ConfigTransactionCandidate) (o : Option ℕ) (p : PreparedTransaction)
      (mode : FailureRecoveryMode) (r : Result (Unit {0}) (Unit {0}))
      → Ends
          (Settled (λ _. Ready x.runtime.generation) (λ _ _. Unit {0}) r)
          (do
            _ ← check_shutdown c x.runtime.generation o true
            if is_ok r
                then check_shutdown c x.runtime.generation o true
                else fail_candidate c health x.runtime.generation o p mode)
          (λ _. Ready x.runtime.generation)
  unfolding Settled is_ok
  confirm_if x o p mode (ok _) =
      Triple-bind (checked x.runtime.generation x.runtime.generation o true)
        (λ _. checked x.runtime.generation x.runtime.generation o true)
  confirm_if x o p mode (err _) = Triple-bind (Keeps-trivial _) (λ _. failing health _ o p mode)

  confirm_applied-Ready :
      (x : ConfigTransactionCandidate) (o : Option ℕ) (p : PreparedTransaction)
      (mode : FailureRecoveryMode) (a : ApplyCandidateResult) (path : ApplyPath)
      → Ends
          (Applied x.runtime.generation (a, path))
          (confirm_applied c x o p mode a path)
          (λ _. Ready x.runtime.generation)
  unfolding confirm_applied Applied
  confirm_applied-Ready x o p mode a candidate_restart =
      checked x.runtime.generation x.runtime.generation o true
  confirm_applied-Ready x o p mode a direct =
      Triple-bind (Triple-result (confirm-Ready a x.runtime.generation))
        (λ r. confirm_if x o p mode r)

  settle_commit-Ready :
      (p : PreparedTransaction) (g : ℕ) (o : Option ℕ) (mode : FailureRecoveryMode)
      (r : Result (Unit {0}) (Unit {0}))
      → Ends (Ready g) (settle_commit c p g o mode r) (λ _. Ready g)
  unfolding settle_commit recover_commit_failure resolve_commit
  settle_commit-Ready p g o mode (ok _) =
      Triple-bind (Keeps-result (clear_prepared_and_prune-Keeps (probe.keep g) p))
        (λ _. Keeps-succeed _)
  settle_commit-Ready p g o mode (err _) =
      Triple-bind (Triple-map_err _ (λ e w r. tt) (probe.keep g).recover) (λ s.
        Triple-if (is_committed s.committed p)
          (λ _.
            Triple-bind (Keeps-result (clear_prepared_and_prune-Keeps (probe.keep g) p))
              (λ _. Keeps-succeed _))
          (λ _. failing commit g o p mode))

  run_prepared-Ready :
      (x : ConfigTransactionCandidate) (o : Option ℕ) (p : PreparedTransaction)
      (mode : FailureRecoveryMode)
      → Ends (λ _. Unit {0}) (run_prepared c x o p mode) (λ _. Ready x.runtime.generation)
  unfolding run_prepared commit_candidate
  run_prepared-Ready x o p mode = Triple-bind (apply_prepared-Ready x o p mode) (λ a.
      Triple-bind (confirm_applied-Ready x o p mode a.0 a.1) (λ _.
        Triple-bind (Keeps-result (probe.commits x.runtime.generation p)) (λ r.
          Triple-bind (settle_commit-Ready p x.runtime.generation o mode r)
            (λ _. Keeps-succeed _))))

  all_stages :
      (x : ConfigTransactionCandidate) (mode : FailureRecoveryMode)
      → Ends (λ _. Unit {0}) (execute_guarded c x mode) (λ _. Ready x.runtime.generation)
  unfolding execute_guarded
  all_stages x mode = Triple-bind (Keeps-trivial _) (λ s. Triple-bind (Keeps-trivial _) (λ p.
      Triple-bind (Keeps-trivial _) (λ _. run_prepared-Ready x s.committed_generation p mode)))

  -- A success of `execute_guarded`, by a direct apply or by a restart of the candidate, means that
  -- `confirm_ready` succeeded for a core of the candidate's generation after the last call that
  -- drove the runtime. What `confirm_ready` promises is assumed to be kept by the ports other than
  -- `apply_candidate` and `stop`.
  pub execute_guarded-confirmed :
      (x : ConfigTransactionCandidate) (mode : FailureRecoveryMode) (w : W)
      (s : ConfigTransactionSuccess)
      → (execute_guarded c x mode w).0 ≡ ok s
      → Ready x.runtime.generation ((execute_guarded c x mode w).1)
  execute_guarded-confirmed x mode w s same =
      Outcome-ok {Q = λ _. Ready x.runtime.generation} (all_stages x mode) tt same
