-- ===== src/Transaction/Outcomes.antt =====
-- The errors of `execute_guarded` of src/transaction.rs and the world they leave. A statement is
-- about any predicate on the world that the named ports keep.
use ratash.Common.{ℕ, ◌≡◌, ◌≢◌, refl, Bool, true, false, Option}
use ratash.Common.Result.{Result, ok, err}
use ratash.Common.Attempt.{
  Triple, Keeps, Triple-fail, Triple-if, Triple-bind, Triple-map_err, Triple-weaken, Triple-before,
  Keeps-result, Outcome-err, Keeps-trivial,
}
use ratash.Transaction.Types.{
  ConfigTransactionCandidate, PreparedTransaction, RecoveryState, ApplyPath,
  ConfigTransactionSuccess, ConfigTransactionError, FailureRecoveryMode,
  ConfigTransactionCoordinator, commit,
}
use ratash.Transaction.Keeping.{
  Keeps-succeed, clear_prepared_and_prune-Keeps, recover_failed_candidate-Keeps, ServicesKeep,
  RuntimeKeeps,
}
use ratash.Transaction.Execute.{
  is_committed, fail_candidate, resolve_commit, recover_commit_failure, settle_commit,
  commit_candidate, run_prepared, execute_guarded,
}
use ratash.Transaction.Stages.{
  precedes_apply, Late, inspect-Keeps, prepare_candidate-Keeps, validate_prepared-Keeps,
  apply_prepared-Late, confirm_applied-Late,
}

module _ {W : Type 0} {c : ConfigTransactionCoordinator W} {R : W → Type 0}
    (keep : ServicesKeep c R) where
  -- The stages before the runtime, then the rest from any start.
  guarded :
      (x : ConfigTransactionCandidate) (mode : FailureRecoveryMode)
      {Q : ConfigTransactionSuccess → W → Type 0} {X : ConfigTransactionError → W → Type 0}
      → ((e : ConfigTransactionError) (w : W) → R w → X e w)
      → ((o : Option ℕ) (p : PreparedTransaction) → Triple R (run_prepared c x o p mode) Q X)
      → Triple R (execute_guarded c x mode) Q X
  unfolding execute_guarded
  guarded x mode early rest =
      Triple-bind (Triple-weaken (λ a w r. r) early (inspect-Keeps keep x.runtime.generation)) (λ s.
        Triple-bind (Triple-weaken (λ a w r. r) early (prepare_candidate-Keeps keep x s)) (λ p.
          Triple-bind
            (Triple-weaken (λ a w r. r) early
              (validate_prepared-Keeps keep x s.committed_generation p))
            (λ _. rest s.committed_generation p)))

-- Every predicate that is always true is kept.
module _ {W : Type 0} (c : ConfigTransactionCoordinator W) where
  pub always : ServicesKeep c (λ _. Unit {0})
  always = record {
    read_object_limited = λ id limit. Keeps-trivial _;
    prepare = λ bundle. Keeps-trivial _;
    recover = Keeps-trivial _;
    clear_prepared = λ p. Keeps-trivial _;
    load_transaction = λ id. Keeps-trivial _;
    prune_unreachable = Keeps-trivial _;
    resolve = λ bundle. Keeps-trivial _;
    prune_generations = λ r. Keeps-trivial _;
    status = Keeps-trivial _;
    confirm_ready = λ h. Keeps-trivial _;
    validate = λ e root. Keeps-trivial _;
    current_revisions = λ w _. tt;
    shutdown_requested = λ w _. tt;
    lock_lifecycle = Keeps-trivial _;
  }

  pub always_driven : RuntimeKeeps c (λ _. Unit {0})
  always_driven = record { apply_candidate = λ b. Keeps-trivial _; stop = Keeps-trivial _ }

-- The error of a failed commit, with what still holds.
abbrev pub Refused : {W : Type 0} → (W → Type 0) → ConfigTransactionError → W → Type 0
Refused R e w = (e.kind ≡ commit) × R w

module _ {W : Type 0} {c : ConfigTransactionCoordinator W} {R : W → Type 0}
    (keep : ServicesKeep c R) (drive : RuntimeKeeps c R) where
  resolve_commit-Refused :
      (p : PreparedTransaction) (g : ℕ) (o : Option ℕ) (mode : FailureRecoveryMode)
      (s : RecoveryState)
      → Triple R (resolve_commit c p g o mode s) (λ _. R) (Refused R)
  unfolding resolve_commit fail_candidate
  resolve_commit-Refused p g o mode s =
      Triple-if (is_committed s.committed p)
        (λ _.
          Triple-bind (Keeps-result (clear_prepared_and_prune-Keeps keep p)) (λ _. Keeps-succeed _))
        (λ _.
          Triple-bind (recover_failed_candidate-Keeps keep drive p o mode)
            (λ _. Triple-fail _ (λ w r. (refl, r))))

  settle_commit-Refused :
      (p : PreparedTransaction) (g : ℕ) (o : Option ℕ) (mode : FailureRecoveryMode)
      (r : Result (Unit {0}) (Unit {0}))
      → Triple R (settle_commit c p g o mode r) (λ _. R) (Refused R)
  unfolding settle_commit recover_commit_failure
  settle_commit-Refused p g o mode (ok _) =
      Triple-bind (Keeps-result (clear_prepared_and_prune-Keeps keep p)) (λ _. Keeps-succeed _)
  settle_commit-Refused p g o mode (err _) =
      Triple-bind (Triple-map_err _ (λ e w r. (refl, r)) keep.recover)
        (λ s. resolve_commit-Refused p g o mode s)

  commit_candidate-Refused :
      ((p : PreparedTransaction) → Keeps R (c.store.commit_prepared p))
      → (x : ConfigTransactionCandidate) (o : Option ℕ) (p : PreparedTransaction)
        (mode : FailureRecoveryMode) (path : ApplyPath)
      → Triple R (commit_candidate c x o p mode path) (λ _. R) (Refused R)
  unfolding commit_candidate
  commit_candidate-Refused commits x o p mode path = Triple-bind (Keeps-result (commits p)) (λ r.
      Triple-bind (settle_commit-Refused p x.runtime.generation o mode r) (λ _. Keeps-succeed _))

  -- The rest of `execute_guarded`, for any way in which the commit ends.
  run_prepared_ends :
      {Q : ConfigTransactionSuccess → W → Type 0} {X : ConfigTransactionError → W → Type 0}
      (x : ConfigTransactionCandidate) (o : Option ℕ) (p : PreparedTransaction)
      (mode : FailureRecoveryMode)
      → ((e : ConfigTransactionError) (w : W) → Late R e w → X e w)
      → ((path : ApplyPath) → Triple R (commit_candidate c x o p mode path) Q X)
      → Triple R (run_prepared c x o p mode) Q X
  unfolding run_prepared
  run_prepared_ends x o p mode late commits =
      Triple-bind (Triple-weaken (λ a w r. r) late (apply_prepared-Late keep drive x o p mode))
        (λ a.
          Triple-bind
            (Triple-weaken (λ u w r. r) late (confirm_applied-Late keep drive x o p mode a.0 a.1))
            (λ _. commits a.1))

pub clash : {A : Type 0} {b : Bool} → b ≡ true → b ≡ false → A
clash h k = cc (h, k)

module _ {W : Type 0} (c : ConfigTransactionCoordinator W) (x : ConfigTransactionCandidate)
    (mode : FailureRecoveryMode) where
  late_or_refused : (e : ConfigTransactionError) → e.kind ≡ commit → precedes_apply e.kind ≡ false
  unfolding precedes_apply
  late_or_refused e same = rw same

  run_prepared-Late :
      (o : Option ℕ) (p : PreparedTransaction)
      → Triple (λ _. Unit {0}) (run_prepared c x o p mode) (λ _ _. Unit {0}) (Late (λ _. Unit {0}))
  run_prepared-Late o p =
      run_prepared_ends (always c) (always_driven c) x o p mode (λ e w l. l)
        (λ path.
          Triple-weaken (λ a w r. r) (λ e w r. (late_or_refused e r.0, tt))
            (commit_candidate-Refused (always c) (always_driven c) (λ q. Keeps-trivial _) x o p mode
              path))

  -- `execute_guarded` that fails with a kind of error that precedes the apply has not touched the
  -- runtime: whatever the ports other than `apply_candidate`, `stop` and `commit_prepared` keep
  -- still holds. These are all kinds but a shutdown, a failed apply (for want of TUN permission or
  -- of TUN support as well), an indeterminate apply, a failed health confirmation and a failed
  -- commit.
  pub execute_guarded-untouched :
      {R : W → Type 0}
      → ServicesKeep c R
      → (w : W) → R w
      → (e : ConfigTransactionError) → (execute_guarded c x mode w).0 ≡ err e
      → precedes_apply e.kind ≡ true
      → R ((execute_guarded c x mode w).1)
  execute_guarded-untouched {R} keep w r e same early =
      Outcome-err
        (guarded keep x mode {Q = λ _ _. Unit {0}} {X = λ e w. precedes_apply e.kind ≡ true → R w}
          (λ e w r _. r)
          (λ o p.
            Triple-before (λ w _. tt)
              (Triple-weaken (λ a w r. r) (λ e w l h. clash h l.0) (run_prepared-Late o p))))
        r same early

  -- `execute_guarded` that fails otherwise than in its commit leaves the committed manifest as it
  -- was: whatever every port but `commit_prepared` keeps still holds, whether the candidate was
  -- refused, was rolled back or was stopped, and also after a shutdown.
  pub execute_guarded-uncommitted :
      {R : W → Type 0}
      → ServicesKeep c R
      → RuntimeKeeps c R
      → (w : W) → R w
      → (e : ConfigTransactionError) → (execute_guarded c x mode w).0 ≡ err e
      → e.kind ≢ commit
      → R ((execute_guarded c x mode w).1)
  execute_guarded-uncommitted {R} keep drive w r e same other =
      Outcome-err
        (guarded keep x mode {Q = λ _ _. Unit {0}} {X = λ e w. e.kind ≢ commit → R w} (λ e w r _. r)
          (λ o p.
            run_prepared_ends keep drive x o p mode (λ e w l _. l.1)
              (λ path.
                Triple-before (λ w _. tt)
                  (Triple-weaken (λ a w r. tt) (λ e w l h. absurd (h l.0))
                    (commit_candidate-Refused (always c) (always_driven c) (λ q. Keeps-trivial _) x
                      o p mode path)))))
        r same other
