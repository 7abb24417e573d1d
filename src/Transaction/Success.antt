-- ===== src/Transaction/Success.antt =====
-- `execute_guarded` of src/transaction.rs and the store: what its commit relies on.
use ratash.Common.{ℕ, ◌≡◌, refl, true, Option, none, some, arith}
use ratash.Common.Result.{Result, ok, err}
use ratash.Common.Attempt.{
  ◌>>=◌, succeed, result, Triple, Triple-succeed, Triple-fail, Triple-if, Triple-bind,
  Triple-map_err, Triple-before, Triple-given, Triple-result, Settled, Keeps-result, Outcome-ok,
  Keeps-trivial,
}
use ratash.Transaction.Types.{
  TransactionBundle, ConfigTransactionCandidate, PreparedTransaction, CommittedManifest,
  RecoveryState, ApplyPath, RecoveryOutcome, ConfigTransactionSuccess, ConfigTransactionErrorKind,
  FailureRecoveryMode, ConfigTransactionCoordinator, commit,
}
use ratash.Transaction.Recovery.{clear_prepared_and_prune}
use ratash.Transaction.Keeping.{
  Keeps-succeed, clear_prepared_and_prune-Keeps, clear_unapplied_journal-Keeps,
  recover_failed_candidate-Keeps, ServicesKeep,
}
use ratash.Transaction.Execute.{
  Fallible, is_committed, prepared_or_cleared, prepare_candidate, fail_candidate, resolve_commit,
  recover_commit_failure, settle_commit, commit_candidate, run_prepared, execute_guarded, Start,
}
use ratash.Transaction.Outcomes.{always, always_driven}

-- The end of a call whose error says nothing.
abbrev pub Ends : {W A : Type 0} → (W → Type 0) → Fallible W A → (A → W → Type 0) → Type 0
Ends P m Q = Triple P m Q (λ _ _. Unit {0})

-- What the coordinator relies on in the store. A transaction is named by its content, so `prepare`
-- returns the name of its bundle; `commit_prepared` commits the prepared name; and a state that
-- `recover` reads names what is committed.
pub record StoreCommits {W : Type 0} (c : ConfigTransactionCoordinator W)
    (name : TransactionBundle → ℕ) (Committed : ℕ → W → Type 0) : Type 0 where
  pub prepare :
      (b : TransactionBundle)
      → Triple (λ _. Unit {0}) (c.store.prepare b) (λ p _. p.candidate ≡ name b) (λ _ _. Unit {0})
  pub commit_prepared :
      (p : PreparedTransaction)
      → Triple
          (λ _. Unit {0})
          (c.store.commit_prepared p)
          (λ _. Committed p.candidate)
          (λ _ _. Unit {0})
  pub recover :
      Triple
        (λ _. Unit {0})
        c.store.recover
        (λ s w. (m : CommittedManifest) → s.committed ≡ some m → Committed m.current w)
        (λ _ _. Unit {0})
  pub keep : (id : ℕ) → ServicesKeep c (Committed id)

is_committed_sound :
    (o : Option CommittedManifest) (p : PreparedTransaction)
    → is_committed o p ≡ true
    → (m : CommittedManifest) × ((o ≡ some m) × (m.current ≡ p.candidate))
unfolding is_committed
is_committed_sound (some m) p h = (m, (refl, ground (arith, h)))
is_committed_sound none p h = cc (h)

module _ {W : Type 0} {c : ConfigTransactionCoordinator W} {name : TransactionBundle → ℕ}
    {Committed : ℕ → W → Type 0} (store : StoreCommits c name Committed) where
  cleared :
      (p : PreparedTransaction) (f : Result (Unit {0}) (Unit {0}) → RecoveryOutcome)
      → Ends
          (Committed p.candidate)
          (do r ← result (clear_prepared_and_prune c p); succeed (f r))
          (λ _. Committed p.candidate)
  cleared p f =
      Triple-bind (Keeps-result (clear_prepared_and_prune-Keeps (store.keep p.candidate) p))
        (λ r. Keeps-succeed (f r))

  failing :
      {A : Type 0} {Q : A → W → Type 0} {P : W → Type 0} (k : ConfigTransactionErrorKind) (g : ℕ)
      (o : Option ℕ) (p : PreparedTransaction) (mode : FailureRecoveryMode)
      → Ends P (fail_candidate c k g o p mode) Q
  unfolding fail_candidate
  failing k g o p mode =
      Triple-before (λ w _. tt)
        (Triple-bind (recover_failed_candidate-Keeps (always c) (always_driven c) p o mode)
          (λ _. Triple-fail _ (λ w r. tt)))

  resolve_commit-Committed :
      (p : PreparedTransaction) (g : ℕ) (o : Option ℕ) (mode : FailureRecoveryMode)
      (s : RecoveryState)
      → Ends
          (λ w. (m : CommittedManifest) → s.committed ≡ some m → Committed m.current w)
          (resolve_commit c p g o mode s)
          (λ _. Committed p.candidate)
  unfolding resolve_commit
  resolve_commit-Committed p g o mode s =
      Triple-if (is_committed s.committed p)
        (λ yes.
          let (m, (same, here)) = is_committed_sound s.committed p yes in
          Triple-before (λ w h. rw (← here) (h m same)) (cleared p _))
        (λ _. failing commit g o p mode)

  settle_commit-Committed :
      (p : PreparedTransaction) (g : ℕ) (o : Option ℕ) (mode : FailureRecoveryMode)
      (r : Result (Unit {0}) (Unit {0}))
      → Ends
          (Settled (λ _. Committed p.candidate) (λ _ _. Unit {0}) r)
          (settle_commit c p g o mode r)
          (λ _. Committed p.candidate)
  unfolding settle_commit recover_commit_failure Settled
  settle_commit-Committed p g o mode (ok _) = cleared p _
  settle_commit-Committed p g o mode (err _) =
      Triple-bind (Triple-map_err _ (λ e w r. tt) store.recover)
        (λ s. resolve_commit-Committed p g o mode s)

  commit_candidate-Committed :
      (x : ConfigTransactionCandidate) (o : Option ℕ) (p : PreparedTransaction)
      (mode : FailureRecoveryMode) (path : ApplyPath)
      → Ends (λ _. Unit {0}) (commit_candidate c x o p mode path) (λ _. Committed p.candidate)
  unfolding commit_candidate
  commit_candidate-Committed x o p mode path =
      Triple-bind (Triple-result (store.commit_prepared p)) (λ r.
        Triple-bind (settle_commit-Committed p x.runtime.generation o mode r)
          (λ _. Keeps-succeed _))

  prepared_or_cleared-named :
      (b : TransactionBundle) (g : ℕ) (o : Option ℕ) (r : Result (Unit {0}) PreparedTransaction)
      → Ends
          (Settled (λ p _. p.candidate ≡ name b) (λ _ _. Unit {0}) r)
          (prepared_or_cleared c g o r)
          (λ p _. p.candidate ≡ name b)
  unfolding prepared_or_cleared Settled
  prepared_or_cleared-named b g o (ok p) = Triple-succeed p (λ w h. h)
  prepared_or_cleared-named b g o (err _) =
      Triple-bind (clear_unapplied_journal-Keeps (always c) o) (λ _. Triple-fail _ (λ w r. tt))

  prepare_candidate-named :
      (x : ConfigTransactionCandidate) (s : Start)
      → Ends (λ _. Unit {0}) (prepare_candidate c x s) (λ p _. p.candidate ≡ name x.transaction)
  unfolding prepare_candidate
  prepare_candidate-named x s = Triple-bind (Keeps-trivial _) (λ _.
      Triple-bind (Keeps-trivial _) (λ r. Triple-bind (Keeps-trivial _) (λ _.
        Triple-bind (Triple-result (store.prepare x.transaction))
          (λ p. prepared_or_cleared-named x.transaction _ _ p))))

  run_prepared-Committed :
      (x : ConfigTransactionCandidate) (o : Option ℕ) (p : PreparedTransaction)
      (mode : FailureRecoveryMode)
      → Ends (λ _. Unit {0}) (run_prepared c x o p mode) (λ _. Committed p.candidate)
  unfolding run_prepared
  run_prepared-Committed x o p mode =
      Triple-bind (Keeps-trivial _)
        (λ a. Triple-bind (Keeps-trivial _) (λ _. commit_candidate-Committed x o p mode a.1))

  all_stages :
      (x : ConfigTransactionCandidate) (mode : FailureRecoveryMode)
      → Ends (λ _. Unit {0}) (execute_guarded c x mode) (λ _. Committed (name x.transaction))
  unfolding execute_guarded
  all_stages x mode = Triple-bind (Keeps-trivial _) (λ start.
      Triple-bind (prepare_candidate-named x start) (λ p. Triple-given (λ named.
        Triple-bind (Keeps-trivial _)
          (λ _. rw (← named) (run_prepared-Committed x start.committed_generation p mode)))))

  -- A success of `execute_guarded` means that the transaction of the candidate is the committed
  -- one, also when `commit_prepared` reported an error and the state that was read back shows the
  -- commit. The store is assumed to name a transaction by its content, to commit what it was told
  -- to and to read back what is committed, and no other port undoes a commit.
  pub execute_guarded-committed :
      (x : ConfigTransactionCandidate) (mode : FailureRecoveryMode) (w : W)
      (s : ConfigTransactionSuccess)
      → (execute_guarded c x mode w).0 ≡ ok s
      → Committed (name x.transaction) ((execute_guarded c x mode w).1)
  execute_guarded-committed x mode w s same =
      Outcome-ok {Q = λ _. Committed (name x.transaction)} (all_stages x mode) tt same
