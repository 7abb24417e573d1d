-- ===== src/Persistence/Store/Keeping.antt =====
-- `prepare` and `clear_prepared` of src/persistence.rs, whatever call fails.
use ratash.Common.{ℕ, ◌≡◌, refl, Option, none, some, List}
use ratash.Common.Map
use ratash.Common.Attempt.{
  ◌>>=◌, succeed, Triple, Keeps, Outcome, Triple-succeed, Triple-fail, Triple-bind, Triple-weaken,
  Triple-known,
}
use ratash.Transaction.Types.{TransactionBundle, PreparedTransaction}
use ratash.Persistence.Disk.{
  Disk, transaction_path, prepared_json, file_at, write_file, delete_file, already_exists, change,
  remove_file, replace_private_file,
}
use ratash.Persistence.Disk.Writing.{
  Steady, Steady-file_at, system_call-Keeps, sync_directory-Keeps, Writes, put_immutable_writes,
  replace_private_file_writes, found_file-Keeps,
}
use ratash.Persistence.Store.{
  Formats, AreFormats, or_invalid, same_prepared, refuse_journal, dto_of, read_manifest,
  clear_prepared, prepare,
}
use ratash.Persistence.Store.Reading.{
  or_invalid_sound, ensure-Keeps, Holds, read_manifest-Keeps, read_journal-Keeps,
  verify_bundle_objects-Keeps,
}

module _ (f : Formats) where
  -- What `prepare` leaves on the disk: the bundle under the digest of its encoding, and the journal.
  pub record Prepared (b : TransactionBundle) (p : PreparedTransaction) (w : Disk) : Type 0 where
    pub bytes : List ℕ
    pub encoded : f.write_bundle (dto_of f b) ≡ some bytes
    pub named : p.candidate ≡ f.sha256 bytes
    pub stored : file_at (transaction_path p.candidate) w ≡ some bytes
    pub journal : Holds f.read_prepared prepared_json p w

module _ (f : Formats) (laws : AreFormats f) (M : Option (List ℕ) → Type 0) where
  abbrev pub OnManifest : Disk → Type 0
  OnManifest w = M w.manifest

  refuse_journal-Keeps :
      {R : Disk → Type 0} (o : Option PreparedTransaction) → Keeps R (refuse_journal o)
  unfolding refuse_journal
  refuse_journal-Keeps none = Triple-succeed tt (λ w r. r)
  refuse_journal-Keeps (some _) = Triple-fail already_exists (λ w r. r)

  Stored : ℕ → List ℕ → Disk → Type 0
  Stored id bytes w = OnManifest w × (file_at (transaction_path id) w ≡ some bytes)

  Stored-writes :
      (id : ℕ) (bytes : List ℕ)
      → Writes (transaction_path id) bytes OnManifest (Stored id bytes) OnManifest
  unfolding Stored file_at write_file
  Stored-writes id bytes = record {
    before = λ w faults r. r;
    after = λ w faults r. r;
    failed = λ w faults r. r;
    untouched = λ w r. r;
    written = λ w r. (r, Map.get-insert_self id bytes w.transactions);
    unsynced = λ w r. r.0;
  }

  journal_writes :
      (id : ℕ) (bytes journal : List ℕ) (p : PreparedTransaction)
      → f.read_prepared journal ≡ some p
      → Writes prepared_json journal
          (Stored id bytes)
          (λ w. Stored id bytes w × Holds f.read_prepared prepared_json p w)
          OnManifest
  unfolding Stored file_at write_file
  journal_writes id bytes journal p read = record {
    before = λ w faults r. r;
    after = λ w faults r. r;
    failed = λ w faults r. r;
    untouched = λ w r. r.0;
    written = λ w r. (r, (journal, (refl, read)));
    unsynced = λ w r. r.0.0;
  }

  record_journal :
      (b : TransactionBundle) (bytes : List ℕ) (p : PreparedTransaction)
      → f.write_bundle (dto_of f b) ≡ some bytes
      → p.candidate ≡ f.sha256 bytes
      → Triple
          (Stored p.candidate bytes)
          (do
            journal_bytes ← or_invalid (f.write_prepared p)
            _ ← replace_private_file prepared_json journal_bytes
            succeed p)
          (λ q w. OnManifest w × Prepared f b q w)
          (λ _. OnManifest)
  unfolding Stored
  record_journal b bytes p encoded named =
      Triple-bind
        (Triple-weaken (λ _ w h. h) (λ _ w h. h.0) (or_invalid_sound (f.write_prepared p)))
        (λ journal. Triple-known (λ written.
          Triple-bind
            (replace_private_file_writes
              (journal_writes p.candidate bytes journal p (laws.prepared p journal written)))
            (λ _. Triple-succeed p (λ w h. (
              h.0.0,
              record {
                bytes = bytes;
                encoded = encoded;
                named = named;
                stored = h.0.1;
                journal = h.1;
              },
            )))))

  steady_manifest : Steady OnManifest
  steady_manifest w faults r = r

  kept-Stored :
      (id : ℕ) (bytes : List ℕ) (w : Disk)
      → OnManifest w
      → file_at (transaction_path id) w ≡ some bytes
      → Stored id bytes w
  unfolding Stored
  kept-Stored id bytes w r h = (r, h)

  Stored-read :
      (id : ℕ) (bytes : List ℕ)
      → Triple (Stored id bytes) (read_manifest f) (λ _. Stored id bytes) (λ _. OnManifest)
  unfolding Stored
  Stored-read id bytes =
      Triple-weaken (λ _ w h. h) (λ _ w h. h.0)
        (read_manifest-Keeps f
          (λ w faults h. (h.0, Steady-file_at (transaction_path id) (some bytes) w faults h.1)))

  -- `prepare` keeps the manifest, also when it fails, and a success leaves the bundle and the
  -- journal on the disk.
  pub prepare_sound :
      (b : TransactionBundle)
      → Triple OnManifest (prepare f b) (λ p w. OnManifest w × Prepared f b p w) (λ _. OnManifest)
  unfolding prepare
  prepare_sound b = Triple-bind (read_journal-Keeps f steady_manifest) (λ journal.
      Triple-bind (refuse_journal-Keeps journal) (λ _.
        Triple-bind (verify_bundle_objects-Keeps f steady_manifest b) (λ _.
          Triple-bind (or_invalid_sound (f.write_bundle (dto_of f b))) (λ bytes.
            Triple-known (λ encoded.
              Triple-bind
                (put_immutable_writes (Stored-writes (f.sha256 bytes) bytes)
                  (kept-Stored (f.sha256 bytes) bytes))
                (λ _.
                  Triple-bind (Stored-read (f.sha256 bytes) bytes)
                    (λ m. record_journal b bytes _ encoded refl)))))))

  remove_journal :
      Triple OnManifest
        (remove_file prepared_json)
        (λ _ w. OnManifest w × (w.prepared ≡ none))
        (λ _. OnManifest)
  unfolding remove_file change delete_file Outcome
  remove_journal =
      Triple-bind (system_call-Keeps steady_manifest) (λ _.
        Triple-bind (found_file-Keeps prepared_json) (λ _. record { from = λ w r. (r, refl) }))

  -- `clear_prepared` keeps the manifest, and a success leaves no journal.
  pub clear_prepared_sound :
      (p : PreparedTransaction)
      → Triple OnManifest
          (clear_prepared f p)
          (λ _ w. OnManifest w × (w.prepared ≡ none))
          (λ _. OnManifest)
  unfolding clear_prepared
  clear_prepared_sound p = Triple-bind (read_journal-Keeps f steady_manifest) (λ journal.
      Triple-bind (ensure-Keeps (same_prepared journal p)) (λ _.
        Triple-bind remove_journal (λ _.
          Triple-weaken (λ _ w h. h) (λ _ w h. h.0) (sync_directory-Keeps (λ w faults h. h)))))
