-- ===== src/Persistence/Store/Commits.antt =====
-- `commit_prepared` and `recover` of src/persistence.rs, whatever call fails.
use ratash.Common.{ℕ, ◌≡◌, refl, Option, none, some, List}
use ratash.Common.Attempt.{
  Triple, Keeps, Outcome, Triple-succeed, Triple-bind, Triple-weaken, Triple-known,
}
use ratash.Transaction.Types.{PreparedTransaction, CommittedManifest}
use ratash.Persistence.Disk.{Disk, prepared_json, manifest_json, file_at, write_file, Io}
use ratash.Persistence.Disk.Writing.{Steady, Writes, replace_private_file_writes}
use ratash.Persistence.Store.{Formats, AreFormats, commit_prepared, recover}
use ratash.Persistence.Store.Reading.{
  or_invalid_sound, ensure-Keeps, Holds, IsRead, read_manifest_sound, read_manifest-Keeps,
  read_journal-Keeps, read_journal_sound, verify_bundle_objects-Keeps, load_transaction-Keeps,
}

module _ (f : Formats) where
  -- The manifest on the disk names the transaction.
  pub record Committed (id : ℕ) (w : Disk) : Type 0 where
    pub manifest : CommittedManifest
    pub holds : Holds f.read_manifest manifest_json manifest w
    pub current_is : manifest.current ≡ id

  -- The disk as it was, or with the transaction committed.
  pub data OldOrCommitted (o : Option (List ℕ)) (id : ℕ) (w : Disk) : Type 0 where
    old : w.manifest ≡ o → OldOrCommitted o id w
    new : Committed id w → OldOrCommitted o id w

  pub Committed-steady : (id : ℕ) → Steady (Committed id)
  unfolding file_at
  Committed-steady id w faults c = record {
    manifest = c.manifest;
    holds = c.holds;
    current_is = c.current_is;
  }

module _ (f : Formats) where
  manifest_read : (m : Option CommittedManifest) → Steady (IsRead f.read_manifest manifest_json m)
  unfolding IsRead file_at
  manifest_read none w faults h = h
  manifest_read (some m) w faults h = h

module _ (f : Formats) (laws : AreFormats f) where
  committed_writes :
      (o : Option (List ℕ)) (bytes : List ℕ) (m : CommittedManifest)
      → f.read_manifest bytes ≡ some m
      → Writes manifest_json bytes
          (λ w. w.manifest ≡ o)
          (Committed f m.current)
          (OldOrCommitted f o m.current)
  unfolding file_at write_file
  committed_writes o bytes m read = record {
    before = λ w faults r. r;
    after = Committed-steady f m.current;
    failed = λ w faults h. elim h [
      | old r ↦ old r
      | new c ↦ new (Committed-steady f m.current w faults c)
    ];
    untouched = λ w r. old r;
    written = λ w r. record { manifest = m; holds = (bytes, (refl, read)); current_is = refl };
    unsynced = λ w c. new c;
  }

  pub commit_prepared_sound :
      (p : PreparedTransaction) (o : Option (List ℕ))
      → Triple
          (λ w. w.manifest ≡ o)
          (commit_prepared f p)
          (λ _. Committed f p.candidate)
          (λ _. OldOrCommitted f o p.candidate)
  unfolding commit_prepared
  commit_prepared_sound p o = Triple-bind (kept (read_journal-Keeps f steady)) (λ journal.
      Triple-bind (kept (ensure-Keeps _)) (λ _.
        Triple-bind (kept (read_manifest-Keeps f steady)) (λ m.
          Triple-bind (kept (ensure-Keeps _)) (λ _.
            Triple-bind (kept (load_transaction-Keeps f steady p.candidate)) (λ b.
              Triple-bind (kept (verify_bundle_objects-Keeps f steady b)) (λ _.
                Triple-bind
                  (Triple-weaken (λ _ w h. h) (λ _ w r. old r)
                    (or_invalid_sound (f.write_manifest _)))
                  (λ bytes. Triple-known (λ written.
                    replace_private_file_writes
                      (committed_writes o bytes _ (laws.manifest _ bytes written))))))))))
    where
      steady : Steady (λ w. w.manifest ≡ o)
      steady w faults r = r

      kept :
          {A : Type 0} {m : Io A}
          → Keeps (λ w. w.manifest ≡ o) m
          → Triple
              (λ w. w.manifest ≡ o)
              m
              (λ _ w. w.manifest ≡ o)
              (λ _. OldOrCommitted f o p.candidate)
      kept h = Triple-weaken (λ _ w r. r) (λ _ w r. old r) h

  -- Whatever call fails, `commit_prepared` leaves the manifest as it was or has it name the
  -- candidate, and a success means that it names the candidate. What is encoded is assumed to be
  -- decoded to the same value.
  pub commit_prepared-atomic :
      (p : PreparedTransaction) (w : Disk)
      → Outcome
          (λ _. Committed f p.candidate)
          (λ _. OldOrCommitted f w.manifest p.candidate)
          (commit_prepared f p w)
  commit_prepared-atomic p w = (commit_prepared_sound p w.manifest).from w refl

  -- A state that `recover` reads has the manifest and the journal of the disk.
  pub recover_sound :
      Triple
        (λ _. Unit {0})
        (recover f)
        (λ s w.
          IsRead f.read_manifest manifest_json s.committed w
          × IsRead f.read_prepared prepared_json s.prepared w)
        (λ _ _. Unit {0})
  unfolding recover
  recover_sound =
      Triple-bind
        (Triple-weaken (λ _ w h. h.1) (λ _ w h. tt)
          (read_manifest_sound f {R = λ _. Unit {0}} (λ w faults r. r)))
        (λ m.
          Triple-bind
            (Triple-weaken (λ _ w h. h) (λ _ w h. tt) (read_journal_sound f (manifest_read f m)))
            (λ p. Triple-succeed _ (λ w h. h)))
