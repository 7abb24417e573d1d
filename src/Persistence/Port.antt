-- ===== src/Persistence/Port.antt =====
-- The store of src/persistence.rs as the `TransactionStore` of src/transaction.rs. The world of a
-- coordinator is the disk and the rest, which the other ports use; the coordinator does not look
-- into an error of the store.
use ratash.Common.{ℕ, ◌≡◌, refl, ap, sym, ◌∙◌, Option, none, some, List}
use ratash.Common.Result.{Result, ok, err}
use ratash.Common.Attempt.{
  Attempt, ◌>>=◌, succeed, Triple-bind, Triple-succeed, Triple, Keeps, Outcome, Triple-weaken,
  Triple-before,
}
use ratash.Transaction.Types.{
  TransactionBundle, EffectiveConfiguration, ConfigTransactionCandidate, ConfigTransactionSuccess,
  PreparedTransaction, CommittedManifest, RuntimeGenerationRetention, ManagedCoreHandle,
  FailureRecoveryMode, ConfigTransactionCoordinator, TransactionStore,
}
use ratash.Transaction.Keeping.{ServicesKeep}
use ratash.Transaction.Execute.{execute_guarded}
use ratash.Transaction.Success.{StoreCommits, execute_guarded-committed}
use ratash.Persistence.Disk.{Disk, Io, IoErrorKind, manifest_json, file_at}
use ratash.Persistence.Store.{
  Formats, AreFormats, dto_of, read_object_limited, prepare, recover, commit_prepared,
  clear_prepared, load_transaction,
}
use ratash.Persistence.Store.Reading.{
  IsRead, read_object_limited-Keeps, recover-Keeps, load_transaction-Keeps,
}
use ratash.Persistence.Store.Keeping.{OnManifest, Prepared, prepare_sound, clear_prepared_sound}
use ratash.Persistence.Prune.{Json, DirEntry, prune_unreachable}
use ratash.Persistence.Prune.Keeping.{prune_unreachable-Keeps}
use ratash.Persistence.Store.Commits.{
  Committed, Committed-steady, commit_prepared_sound, recover_sound,
}

unfoldable pub prune_listed :
    Formats → (List ℕ → Option Json) → List DirEntry × List DirEntry → Io (Unit {0})
prune_listed f read_json listed = do _ ← prune_unreachable f read_json listed.0 listed.1; succeed tt

module _ {S : Type 0} where
  reported : {A : Type 0} → S → Result IoErrorKind A × Disk → Result (Unit {0}) A × (Disk × S)
  reported s (ok a, w) = (ok a, (w, s))
  reported s (err _, w) = (err tt, (w, s))

  unfoldable pub on_disk : {A : Type 0} → Io A → Attempt (Disk × S) (Unit {0}) A
  unfolding reported
  on_disk m w = reported w.1 (m w.0)

  reported-Outcome :
      {A : Type 0} (Q : A → Disk → Type 0) (X : Disk → Type 0) (s : S)
      (r : Result IoErrorKind A × Disk)
      → Outcome Q (λ _. X) r
      → Outcome (λ a w. Q a w.0) (λ _ w. X w.0) (reported s r)
  unfolding reported Outcome
  reported-Outcome Q X s (ok a, w) h = h
  reported-Outcome Q X s (err _, w) h = h

  on_disk-Triple :
      {A : Type 0} {P X : Disk → Type 0} {Q : A → Disk → Type 0} {m : Io A}
      → Triple P m Q (λ _. X)
      → Triple (λ w. P w.0) (on_disk m) (λ a w. Q a w.0) (λ _ w. X w.0)
  unfolding on_disk
  on_disk-Triple {X} {Q} {m} h = record {
    from = λ w p. reported-Outcome Q X w.1 (m w.0) (h.from w.0 p);
  }

  -- `listing` is what the two directories list when the store is pruned.
  unfoldable pub store_port :
      Formats
      → (List ℕ → Option Json)
      → (Disk × S → List DirEntry × List DirEntry)
      → TransactionStore (Disk × S)
  store_port f read_json listing = record {
    read_object_limited = λ id limit. on_disk (read_object_limited f id limit);
    prepare = λ bundle. on_disk (prepare f bundle);
    recover = on_disk (recover f);
    commit_prepared = λ prepared. on_disk (commit_prepared f prepared);
    clear_prepared = λ prepared. on_disk (clear_prepared f prepared);
    load_transaction = λ id. on_disk (load_transaction f id);
    prune_unreachable = λ w. on_disk (prune_listed f read_json (listing w)) w;
  }

  -- A coordinator that uses the store on the disk.
  abbrev pub on_store :
      Formats
      → (List ℕ → Option Json)
      → (Disk × S → List DirEntry × List DirEntry)
      → ConfigTransactionCoordinator (Disk × S)
      → ConfigTransactionCoordinator (Disk × S)
  on_store f read_json listing c = record c { store = store_port f read_json listing }

  -- The other ports leave the manifest alone.
  pub record OthersKeep (c : ConfigTransactionCoordinator (Disk × S)) (R : Disk × S → Type 0)
      : Type 0 where
    pub resolve : (bundle : TransactionBundle) → Keeps R (c.bundles.resolve bundle)
    pub prune_generations :
        (r : RuntimeGenerationRetention) → Keeps R (c.bundles.prune_generations r)
    pub status : Keeps R c.runtime.status
    pub confirm_ready : (h : ManagedCoreHandle) → Keeps R (c.confirm_ready h)
    pub validate : (e : EffectiveConfiguration) (root : List ℕ) → Keeps R (c.validate e root)
    pub current_revisions : (w : Disk × S) → R w → R ((c.current_revisions w).1)
    pub shutdown_requested : (w : Disk × S) → R w → R ((c.shutdown_requested w).1)
    pub lock_lifecycle : Keeps R c.lock_lifecycle

named_by : (List ℕ → ℕ) → Option (List ℕ) → ℕ
named_by sha256 none = 0
named_by sha256 (some bytes) = sha256 bytes

-- The identifier of a transaction: the digest of its encoding.
unfoldable pub name : Formats → TransactionBundle → ℕ
unfolding named_by
name f b = named_by f.sha256 (f.write_bundle (dto_of f b))

name-Prepared :
    (f : Formats) (b : TransactionBundle) (p : PreparedTransaction) (w : Disk)
    → Prepared f b p w
    → p.candidate ≡ name f b
unfolding name named_by
name-Prepared f b p w h = h.named ∙ sym (ap (named_by f.sha256) h.encoded)

read_committed :
    (f : Formats) (o : Option CommittedManifest) (w : Disk)
    → IsRead f.read_manifest manifest_json o w
    → (m : CommittedManifest) → o ≡ some m
    → Committed f m.current w
unfolding IsRead
read_committed f none w h m same = cc (same)
read_committed f (some n) w h m same =
    let e : n ≡ m = cc (same) in rw (← e) (record { manifest = n; holds = h; current_is = refl })

-- A commit says only something of the manifest.
CommittedOn : Formats → ℕ → Option (List ℕ) → Type 0
CommittedOn f id o =
    (m : CommittedManifest) × (bytes : List ℕ) × ((o ≡ some bytes)
      × ((f.read_manifest bytes ≡ some m) × (m.current ≡ id)))

on_manifest : (f : Formats) (id : ℕ) (w : Disk) → Committed f id w → CommittedOn f id w.manifest
unfolding file_at CommittedOn
on_manifest f id w c = (c.manifest, c.holds.0, (c.holds.1.0, (c.holds.1.1, c.current_is)))

from_manifest : (f : Formats) (id : ℕ) (w : Disk) → CommittedOn f id w.manifest → Committed f id w
unfolding file_at CommittedOn
from_manifest f id w (m, bytes, (here, (read, same))) = record {
  manifest = m;
  holds = (bytes, (here, read));
  current_is = same;
}

module _ {S : Type 0} (f : Formats) (laws : AreFormats f) (read_json : List ℕ → Option Json)
    (listing : Disk × S → List DirEntry × List DirEntry)
    (c : ConfigTransactionCoordinator (Disk × S))
    (others : (id : ℕ) → OthersKeep c (λ w. Committed f id w.0)) where
  keeping :
      {A : Type 0} (id : ℕ) {m : Io A} {Q : A → Disk → Type 0}
      → Triple
          (OnManifest f laws (CommittedOn f id))
          m
          (λ a w. CommittedOn f id w.manifest × Q a w)
          (λ _ w. CommittedOn f id w.manifest)
      → Keeps (λ w. Committed f id w.0) (on_disk {S = S} m)
  keeping id h = on_disk-Triple (
      Triple-before (λ w r. on_manifest f id w r)
        (Triple-weaken (λ a w r. from_manifest f id w r.0) (λ _ w r. from_manifest f id w r) h))

  pruning :
      (id : ℕ)
      → Keeps (λ w. Committed f id w.0) (λ w. on_disk (prune_listed f read_json (listing w)) w)
  unfolding prune_listed
  pruning id = record {
    from = λ w r.
        (keeping id {m = prune_listed f read_json (listing w)} {Q = λ _ _. Unit {0}} (
            Triple-bind
              (prune_unreachable-Keeps f read_json (CommittedOn f id) (listing w).0 (listing w).1)
              (λ _. Triple-succeed tt (λ v h. (h, tt))))).from
          w r;
  }

  services : (id : ℕ) → ServicesKeep (on_store f read_json listing c) (λ w. Committed f id w.0)
  unfolding store_port
  services id = record {
    read_object_limited =
        λ i limit. on_disk-Triple (read_object_limited-Keeps f (Committed-steady f id) i limit);
    prepare = λ b. keeping id (prepare_sound f laws (CommittedOn f id) b);
    recover = on_disk-Triple (recover-Keeps f (Committed-steady f id));
    clear_prepared = λ p. keeping id (clear_prepared_sound f laws (CommittedOn f id) p);
    load_transaction = λ i. on_disk-Triple (load_transaction-Keeps f (Committed-steady f id) i);
    prune_unreachable = pruning id;
    resolve = (others id).resolve;
    prune_generations = (others id).prune_generations;
    status = (others id).status;
    confirm_ready = (others id).confirm_ready;
    validate = (others id).validate;
    current_revisions = (others id).current_revisions;
    shutdown_requested = (others id).shutdown_requested;
    lock_lifecycle = (others id).lock_lifecycle;
  }

  -- The store on the disk is a store as the coordinator of configuration transactions needs it:
  -- `prepare` names a transaction by the digest of its encoding, `commit_prepared` commits what it
  -- is told to, a state that is read back names what is committed, and no other call undoes a
  -- commit. The encodings are assumed to be decoded to what was encoded, and the other ports to
  -- leave the manifest alone.
  pub store_port-StoreCommits :
      StoreCommits (on_store f read_json listing c) (name f) (λ id w. Committed f id w.0)
  unfolding store_port
  store_port-StoreCommits = record {
    prepare = λ b.
        Triple-weaken (λ p w h. name-Prepared f b p w.0 h) (λ _ w h. tt)
          (on_disk-Triple {X = λ _. Unit {0}}
            (Triple-weaken (λ p w h. h.1) (λ _ w h. tt) (prepare_sound f laws (λ _. Unit {0}) b)));
    commit_prepared =
        λ p. record { from = λ w _. (on_disk-Triple (committing p w.0.manifest)).from w refl };
    recover = on_disk-Triple (
        Triple-weaken (λ s w h. read_committed f s.committed w h.0) (λ _ w h. tt)
          (recover_sound f laws));
    keep = services;
  }
    where
      committing :
          (p : PreparedTransaction) (o : Option (List ℕ))
          → Triple
              (λ w. w.manifest ≡ o)
              (commit_prepared f p)
              (λ _. Committed f p.candidate)
              (λ _ _. Unit {0})
      committing p o = Triple-weaken (λ _ w h. h) (λ _ w h. tt) (commit_prepared_sound f laws p o)

  -- A success of `execute_guarded` on this store means that the manifest file on the disk names
  -- the transaction of the candidate by the digest of its encoding, whatever calls of the file
  -- system failed on the way, under the same assumptions.
  pub execute_guarded-on_disk :
      (x : ConfigTransactionCandidate) (mode : FailureRecoveryMode) (w : Disk × S)
      (s : ConfigTransactionSuccess)
      → (execute_guarded (on_store f read_json listing c) x mode w).0 ≡ ok s
      → Committed f
          (name f x.transaction)
          ((execute_guarded (on_store f read_json listing c) x mode w).1.0)
  execute_guarded-on_disk x mode w s same =
      execute_guarded-committed store_port-StoreCommits x mode w s same
