-- ===== src/Transaction/Keeping.antt =====
-- The helpers of src/transaction.rs and a predicate on the world that the ports they call keep.
use ratash.Common.{ℕ, Bool, true, false, Option, none, some, List, if◌then◌else◌, ◌==◌}
use ratash.Common.Result.{Result, ok, err}
use ratash.Common.Attempt.{
  Attempt, succeed, fail, map_err, traverse, Triple, Keeps, Triple-succeed, Triple-fail, Triple-if,
  Triple-bind, Triple-map_err, Keeps-result,
}
use ratash.Transaction.Types.{
  TransactionBundle, RuntimeBundle, EffectiveConfiguration, PreparedTransaction, CommittedManifest,
  RecoveryState, RuntimeGenerationRetention, ManagedCoreHandle, ApplyCandidateResult,
  FailureRecoveryMode, ConfigTransactionCoordinator, not_required, converge_committed,
  stop_startup_candidate,
}
use ratash.Transaction.Recovery.{
  confirm_running, confirm, restart_candidate, generation_from_transaction,
  generation_from_manifest, previous_transaction, runtime_retention, prune_runtime_state,
  clear_prepared_and_prune, ready_at, restart_unless_ready, converge_to_transaction,
  clear_prepared_unapplied, clear_found, clear_recovered, clear_unapplied_journal, rollback,
  recover_failed_candidate, is_applied,
}

-- The ports that neither drive the runtime nor commit keep `R`.
pub record ServicesKeep {W : Type 0} (c : ConfigTransactionCoordinator W) (R : W → Type 0)
    : Type 0 where
  pub read_object_limited : (id limit : ℕ) → Keeps R (c.store.read_object_limited id limit)
  pub prepare : (bundle : TransactionBundle) → Keeps R (c.store.prepare bundle)
  pub recover : Keeps R c.store.recover
  pub clear_prepared : (p : PreparedTransaction) → Keeps R (c.store.clear_prepared p)
  pub load_transaction : (id : ℕ) → Keeps R (c.store.load_transaction id)
  pub prune_unreachable : Keeps R c.store.prune_unreachable
  pub resolve : (bundle : TransactionBundle) → Keeps R (c.bundles.resolve bundle)
  pub prune_generations : (r : RuntimeGenerationRetention) → Keeps R (c.bundles.prune_generations r)
  pub status : Keeps R c.runtime.status
  pub confirm_ready : (h : ManagedCoreHandle) → Keeps R (c.confirm_ready h)
  pub validate : (e : EffectiveConfiguration) (root : List ℕ) → Keeps R (c.validate e root)
  pub current_revisions : (w : W) → R w → R ((c.current_revisions w).1)
  pub shutdown_requested : (w : W) → R w → R ((c.shutdown_requested w).1)
  pub lock_lifecycle : Keeps R c.lock_lifecycle

-- The ports that drive the runtime keep `R`.
pub record RuntimeKeeps {W : Type 0} (c : ConfigTransactionCoordinator W) (R : W → Type 0)
    : Type 0 where
  pub apply_candidate : (bundle : RuntimeBundle) → Keeps R (c.runtime.apply_candidate bundle)
  pub stop : Keeps R c.runtime.stop

pub Keeps-succeed :
    {W E A : Type 0} {R : W → Type 0} {X : E → W → Type 0} (a : A) → Triple R (succeed a) (λ _. R) X
Keeps-succeed a = Triple-succeed a (λ w r. r)

pub Keeps-fail : {W E A : Type 0} {R : W → Type 0} (e : E) → Keeps R (fail {A = A} e)
Keeps-fail e = Triple-fail e (λ w r. r)

pub Keeps-map_err :
    {W E F A : Type 0} {R : W → Type 0} {m : Attempt W E A} (e : F)
    → Keeps R m
    → Keeps R (map_err e m)
Keeps-map_err e h = Triple-map_err e (λ x w r. r) h

pub Keeps-if :
    {W E A : Type 0} {R : W → Type 0} (b : Bool) {m n : Attempt W E A}
    → Keeps R m
    → Keeps R n
    → Keeps R (if b then m else n)
Keeps-if b h k = Triple-if b (λ _. h) (λ _. k)

pub Keeps-traverse :
    {W E A B : Type 0} {R : W → Type 0} {f : A → Attempt W E B}
    → ((a : A) → Keeps R (f a))
    → (o : Option A) → Keeps R (traverse f o)
unfolding traverse
Keeps-traverse h none = Keeps-succeed none
Keeps-traverse h (some a) = Triple-bind (h a) (λ b. Keeps-succeed (some b))

module _ {W : Type 0} {c : ConfigTransactionCoordinator W} {R : W → Type 0}
    (keep : ServicesKeep c R) where
  pub generation_from_transaction-Keeps : (id : ℕ) → Keeps R (generation_from_transaction c id)
  unfolding generation_from_transaction
  generation_from_transaction-Keeps id =
      Triple-bind (keep.load_transaction id) (λ t. Keeps-succeed t.runtime_generation)

  pub generation_from_manifest-Keeps :
      (m : Option CommittedManifest) → Keeps R (generation_from_manifest c m)
  unfolding generation_from_manifest
  generation_from_manifest-Keeps m =
      Keeps-traverse (λ manifest. generation_from_transaction-Keeps manifest.current) m

  pub runtime_retention-Keeps :
      (m : Option CommittedManifest) (p : Option ℕ) → Keeps R (runtime_retention c m p)
  unfolding runtime_retention
  runtime_retention-Keeps m p = Triple-bind (generation_from_manifest-Keeps m) (λ current.
      Triple-bind (Keeps-traverse generation_from_transaction-Keeps (previous_transaction c m))
        (λ previous. Keeps-succeed _))

  pub prune_runtime_state-Keeps : (s : RecoveryState) → Keeps R (prune_runtime_state c s)
  unfolding prune_runtime_state
  prune_runtime_state-Keeps s =
      Triple-bind (Keeps-traverse (λ p. generation_from_transaction-Keeps p.candidate) s.prepared)
        (λ p. Triple-bind (runtime_retention-Keeps s.committed p) keep.prune_generations)

  pub clear_prepared_and_prune-Keeps :
      (p : PreparedTransaction) → Keeps R (clear_prepared_and_prune c p)
  unfolding clear_prepared_and_prune
  clear_prepared_and_prune-Keeps p = Triple-bind (keep.clear_prepared p) (λ _.
      Triple-bind (Keeps-result keep.prune_unreachable)
        (λ _. Triple-bind keep.recover prune_runtime_state-Keeps))

  pub clear_prepared_unapplied-Keeps :
      {E : Type 0} {X : E → W → Type 0} (p : PreparedTransaction) (g : Option ℕ)
      → Triple R (clear_prepared_unapplied c p g) (λ _. R) X
  unfolding clear_prepared_unapplied
  clear_prepared_unapplied-Keeps p g =
      Triple-bind (Keeps-result (clear_prepared_and_prune-Keeps p)) (λ _. Keeps-succeed _)

  pub clear_found-Keeps :
      {E : Type 0} {X : E → W → Type 0} (p : Option PreparedTransaction) (g : Option ℕ)
      → Triple R (clear_found c p g) (λ _. R) X
  unfolding clear_found
  clear_found-Keeps none g = Keeps-succeed not_required
  clear_found-Keeps (some p) g = clear_prepared_unapplied-Keeps p g

  pub clear_recovered-Keeps :
      {E : Type 0} {X : E → W → Type 0} (r : Result (Unit {0}) RecoveryState) (g : Option ℕ)
      → Triple R (clear_recovered c r g) (λ _. R) X
  unfolding clear_recovered
  clear_recovered-Keeps (ok s) g = clear_found-Keeps s.prepared g
  clear_recovered-Keeps (err _) g = Keeps-succeed _

  pub clear_unapplied_journal-Keeps :
      {E : Type 0} {X : E → W → Type 0} (g : Option ℕ)
      → Triple R (clear_unapplied_journal c g) (λ _. R) X
  unfolding clear_unapplied_journal
  clear_unapplied_journal-Keeps g =
      Triple-bind (Keeps-result keep.recover) (λ r. clear_recovered-Keeps r g)

  pub confirm_running-Keeps :
      (h : ManagedCoreHandle) (g : ℕ) (o : Option ManagedCoreHandle)
      → Keeps R (confirm_running c h g o)
  unfolding confirm_running
  confirm_running-Keeps h g none = Keeps-fail tt
  confirm_running-Keeps h g (some actual) =
      Keeps-if (is_applied actual h g) (keep.confirm_ready actual) (Keeps-fail tt)

  pub confirm-Keeps : (a : ApplyCandidateResult) (g : ℕ) → Keeps R (confirm c a g)
  unfolding confirm
  confirm-Keeps a g = Triple-bind keep.status (confirm_running-Keeps a.managed_core g)

  pub ready_at-Keeps :
      (g : ℕ) (r : Result (Unit {0}) (Option ManagedCoreHandle)) → Keeps R (ready_at c g r)
  unfolding ready_at
  ready_at-Keeps g (err _) = Keeps-succeed false
  ready_at-Keeps g (ok none) = Keeps-succeed false
  ready_at-Keeps g (ok (some h)) =
      Keeps-if (h.runtime_generation == g)
        (Triple-bind (Keeps-result (keep.confirm_ready h)) (λ r. Keeps-succeed _))
        (Keeps-succeed false)

  module _ (drive : RuntimeKeeps c R) where
    pub restart_candidate-Keeps : (b : RuntimeBundle) → Keeps R (restart_candidate c b)
    unfolding restart_candidate
    restart_candidate-Keeps b = Triple-bind drive.stop (λ _.
        Triple-bind (Keeps-map_err tt (drive.apply_candidate b))
          (λ a. Triple-bind (confirm-Keeps a b.generation) (λ _. Keeps-succeed a)))

    pub restart_unless_ready-Keeps :
        (b : RuntimeBundle) (ready : Bool) → Keeps R (restart_unless_ready c b ready)
    unfolding restart_unless_ready
    restart_unless_ready-Keeps b true = Keeps-succeed tt
    restart_unless_ready-Keeps b false =
        Triple-bind (restart_candidate-Keeps b) (λ _. Keeps-succeed tt)

    pub converge_to_transaction-Keeps : (id : Option ℕ) → Keeps R (converge_to_transaction c id)
    unfolding converge_to_transaction
    converge_to_transaction-Keeps none = drive.stop
    converge_to_transaction-Keeps (some id) = Triple-bind (keep.load_transaction id) (λ t.
        Triple-bind (keep.resolve t) (λ b.
          Keeps-if (b.generation == t.runtime_generation)
            (Triple-bind (Keeps-result keep.status)
              (λ s. Triple-bind (ready_at-Keeps b.generation s) (restart_unless_ready-Keeps b)))
            (Keeps-fail tt)))

    pub rollback-Keeps :
        {E : Type 0} {X : E → W → Type 0} (p : PreparedTransaction) (g : Option ℕ)
        → Triple R (rollback c p g) (λ _. R) X
    unfolding rollback
    rollback-Keeps p g =
        Triple-bind
          (Keeps-result (
            Triple-bind (converge_to_transaction-Keeps p.previous)
              (λ _. clear_prepared_and_prune-Keeps p)))
          (λ _. Keeps-succeed _)

    pub recover_failed_candidate-Keeps :
        {E : Type 0} {X : E → W → Type 0} (p : PreparedTransaction) (g : Option ℕ)
        (mode : FailureRecoveryMode)
        → Triple R (recover_failed_candidate c p g mode) (λ _. R) X
    unfolding recover_failed_candidate
    recover_failed_candidate-Keeps p g converge_committed = rollback-Keeps p g
    recover_failed_candidate-Keeps p g stop_startup_candidate =
        Triple-bind (Keeps-result drive.stop) (λ _.
          Triple-bind (Keeps-result (clear_prepared_and_prune-Keeps p)) (λ _. Keeps-succeed _))
