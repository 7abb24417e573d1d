-- ===== src/Persistence/Store/Protocol/Complete.antt =====
-- A whole transaction of src/persistence.rs on a disk whose calls do not fail.
use ratash.Common.{
  ℕ, ◌≡◌, refl, ap, sym, ◌∙◌, true, Option, none, some, List, same_option, same_option_refl,
}
use ratash.Common.Result.{ok}
use ratash.Common.Attempt.{run-bind}
use ratash.Transaction.Types.{TransactionBundle, PreparedTransaction, CommittedManifest}
use ratash.Persistence.Disk.{
  Disk, transaction_path, prepared_json, manifest_json, file_at, write_file, delete_file,
}
use ratash.Persistence.Disk.Calm.{IsCalm, replace_private_file_calm}
use ratash.Persistence.Store.{
  Formats, AreFormats, or_invalid, ensure, same_prepared, current_of, dto_of, read_manifest,
  read_journal, load_transaction, recover, verify_bundle_objects, prepare, commit_prepared,
  clear_prepared,
}
use ratash.Persistence.Store.Reading.{IsRead}
use ratash.Persistence.Store.Loading.{
  ensure_calm, or_invalid_calm, same_prepared_refl, ObjectsIn, verify_bundle_objects_calm,
  load_transaction_calm,
}
use ratash.Persistence.Store.Protocol.{
  IsReady, Put, Put-transaction, same_manifest_read, same-ObjectsIn, absent_journal, held_journal,
  read_journal_calm, read_manifest_calm, prepare_run, recover_run, clear_run,
}

module _ (f : Formats) (laws : AreFormats f) where
  -- What `commit_prepared` needs: the journal of the transaction, the manifest as it was, the
  -- bundle and its objects.
  record IsCommittable (b : TransactionBundle) (p : PreparedTransaction)
      (o : Option CommittedManifest) (manifest : List ℕ) (w : Disk) : Type 0 where
    calm : IsCalm w
    journal : IsRead f.read_prepared prepared_json (some p) w
    readable : IsRead f.read_manifest manifest_json o w
    previous_is : p.previous ≡ current_of o
    objects : ObjectsIn f b w
    bytes : List ℕ
    stored : file_at (transaction_path p.candidate) w ≡ some bytes
    named : f.sha256 bytes ≡ p.candidate
    encoded : f.write_bundle (dto_of f b) ≡ some bytes
    manifest_encoded :
        f.write_manifest (record { current = p.candidate; previous = p.previous }) ≡ some manifest

  commit_run :
      (b : TransactionBundle) (p : PreparedTransaction) (o : Option CommittedManifest)
      (manifest : List ℕ) (w : Disk)
      → IsCommittable b p o manifest w
      → commit_prepared f p w ≡ (ok tt, write_file manifest_json manifest w)
  unfolding commit_prepared
  commit_run b p o manifest w r =
      let current : same_option (current_of o) p.previous ≡ true =
        ap (λ x. same_option x p.previous) (sym r.previous_is) ∙ same_option_refl p.previous in
      run-bind (read_journal f) _ w w (some p) (read_journal_calm f (some p) w r.calm r.journal)
      ∙ run-bind (ensure (same_prepared (some p) p)) _ w w tt
          (ensure_calm _ w (same_prepared_refl p))
      ∙ run-bind (read_manifest f) _ w w o (read_manifest_calm f o w r.calm r.readable)
      ∙ run-bind (ensure (same_option (current_of o) p.previous)) _ w w tt (ensure_calm _ w current)
      ∙ run-bind (load_transaction f p.candidate) _ w w b
          (load_transaction_calm f laws b p.candidate r.bytes w r.calm r.stored r.named r.encoded)
      ∙ run-bind (verify_bundle_objects f b) _ w w tt
          (verify_bundle_objects_calm f b w r.calm r.objects)
      ∙ run-bind
          (or_invalid (f.write_manifest (record { current = p.candidate; previous = p.previous })))
          _ w w manifest (or_invalid_calm _ manifest w r.manifest_encoded)
      ∙ replace_private_file_calm manifest_json manifest w r.calm

  committable :
      (b : TransactionBundle) (o : Option CommittedManifest) (w v : Disk) (r : IsReady f b o w)
      → Put f (f.sha256 r.bytes) r.bytes w v
      → IsCommittable b
          (record { candidate = f.sha256 r.bytes; previous = current_of o })
          o
          r.manifest
          (record v { prepared = some r.journal })
  unfolding file_at
  committable b o w v r put =
      let u : Disk = record v { prepared = some r.journal } in
      let p : PreparedTransaction = record {
        candidate = f.sha256 r.bytes;
        previous = current_of o;
      } in
      record {
        calm = put.same_faults ∙ r.calm;
        journal =
            held_journal f p u (r.journal, (refl, laws.prepared p r.journal r.journal_encoded));
        readable = same_manifest_read f o w u put.same_manifest r.readable;
        previous_is = refl;
        objects = same-ObjectsIn f b w u put.same_objects r.objects;
        bytes = r.bytes;
        stored = put.stored;
        named = refl;
        encoded = r.encoded;
        manifest_encoded = r.manifest_encoded;
      }

  held_manifest :
      (m : CommittedManifest) (bytes : List ℕ) (w : Disk)
      → w.manifest ≡ some bytes
      → f.read_manifest bytes ≡ some m
      → IsRead f.read_manifest manifest_json (some m) w
  unfolding IsRead file_at
  held_manifest m bytes w here read = (bytes, (here, read))

  written_journal :
      (bytes : List ℕ) (w : Disk)
      → write_file prepared_json bytes w ≡ record w { prepared = some bytes }
  unfolding write_file
  written_journal bytes w = refl

  written_manifest :
      (bytes : List ℕ) (w : Disk)
      → write_file manifest_json bytes w ≡ record w { manifest = some bytes }
  unfolding write_file
  written_manifest bytes w = refl

  deleted_journal : (w : Disk) → delete_file prepared_json w ≡ record w { prepared = none }
  unfolding delete_file
  deleted_journal w = refl

  -- On a disk that is ready, a transaction runs to its end: `prepare` returns a journal whose
  -- previous transaction is the one of the manifest, `commit_prepared` and `clear_prepared` of it
  -- succeed, and `recover` then reads the candidate as the committed transaction, the transaction
  -- before it as the previous one, and no journal. The encodings are assumed to be decoded to what
  -- was encoded.
  pub recover-clear_prepared :
      (b : TransactionBundle) (o : Option CommittedManifest) (w : Disk)
      → IsReady f b o w
      → (p : PreparedTransaction) × (w1 : Disk) × (w2 : Disk) × (w3 : Disk) × ((prepare f b w
            ≡ (ok p, w1))
          × ((p.previous ≡ current_of o)
              × ((commit_prepared f p w1 ≡ (ok tt, w2))
                  × ((clear_prepared f p w2 ≡ (ok tt, w3))
                      × (recover f w3 ≡ (
                        ok (record {
                          committed =
                              some (record { current = p.candidate; previous = p.previous });
                          prepared = none;
                        }),
                        w3,
                      ))))))
  recover-clear_prepared b o w r =
      let (v, put) = Put-transaction f (f.sha256 r.bytes) r.bytes w r.calm in
      let p : PreparedTransaction = record {
        candidate = f.sha256 r.bytes;
        previous = current_of o;
      } in
      let m : CommittedManifest = record { current = p.candidate; previous = p.previous } in
      let w1 : Disk = record v { prepared = some r.journal } in
      let w2 : Disk = record w1 { manifest = some r.manifest } in
      let w3 : Disk = record w2 { prepared = none } in
      let calm : IsCalm v = put.same_faults ∙ r.calm in
      (
        p,
        w1,
        w2,
        w3,
        (
          prepare_run f b o w v r put ∙ ap (λ x. (ok p, x)) (written_journal r.journal v),
          (
            refl,
            (
              commit_run b p o r.manifest w1 (committable b o w v r put)
                  ∙ ap (λ x. (ok tt, x)) (written_manifest r.manifest w1),
              (
                clear_run f p r.journal w2 calm refl (laws.prepared p r.journal r.journal_encoded)
                    ∙ ap (λ x. (ok tt, x)) (deleted_journal w2),
                recover_run f (some m) none w3 calm
                    (held_manifest m r.manifest w3 refl
                      (laws.manifest m r.manifest r.manifest_encoded))
                    (absent_journal f w3 refl),
              ),
            ),
          ),
        ),
      )
