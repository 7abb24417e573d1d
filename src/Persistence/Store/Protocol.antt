-- ===== src/Persistence/Store/Protocol.antt =====
-- The order in which src/transaction.rs calls the store of src/persistence.rs: `prepare`,
-- `commit_prepared`, `clear_prepared`, `recover`, on a disk whose calls do not fail.
pub mod Complete
use ratash.Common.{
  ℕ, ◌≡◌, refl, ap, sym, ◌∙◌, Bool, true, Option, none, some, List, same_option, same_option_refl,
  inl, inr,
}
use ratash.Common.Map
use ratash.Common.Result.{Result, ok, err}
use ratash.Common.Attempt.{Attempt, ◌>>=◌, succeed, run-bind}
use ratash.Transaction.Types.{
  TransactionBundle, PreparedTransaction, CommittedManifest, RecoveryState,
}
use ratash.Persistence.Disk.{
  Disk, StoredPath, object_path, transaction_path, prepared_json, manifest_json, file_at,
  write_file, delete_file, put_immutable, replace_private_file, remove_file, sync_directory,
}
use ratash.Persistence.Disk.Calm.{
  IsCalm, put_immutable_calm, replace_private_file_calm, remove_file_calm, sync_directory_calm,
}
use ratash.Persistence.Store.{
  Formats, AreFormats, or_invalid, ensure, same_prepared, current_of, refuse_journal, dto_of,
  read_manifest, read_journal, load_transaction, recover, verify_bundle_objects, prepare,
  commit_prepared, clear_prepared,
}
use ratash.Persistence.Store.Reading.{Holds, IsRead}
use ratash.Persistence.Store.Loading.{
  ensure_calm, or_invalid_calm, read_optional_json_calm, same_prepared_refl, ObjectsIn, ObjectIn,
  verify_bundle_objects_calm, load_transaction_calm,
}

module _ (f : Formats) where
  -- A disk on which a bundle can be prepared and committed: no call fails, there is no journal,
  -- the manifest can be read, the objects of the bundle are there, and what is written is encoded.
  pub record IsReady (b : TransactionBundle) (o : Option CommittedManifest) (w : Disk)
      : Type 0 where
    pub calm : IsCalm w
    pub no_journal : w.prepared ≡ none
    pub readable : IsRead f.read_manifest manifest_json o w
    pub objects : ObjectsIn f b w
    pub bytes : List ℕ
    pub encoded : f.write_bundle (dto_of f b) ≡ some bytes
    pub journal : List ℕ
    pub journal_encoded :
        f.write_prepared (record { candidate = f.sha256 bytes; previous = current_of o })
        ≡ some journal
    pub manifest : List ℕ
    pub manifest_encoded :
        f.write_manifest (record { current = f.sha256 bytes; previous = current_of o })
        ≡ some manifest

  -- The disk with the bundle on it.
  record Put (id : ℕ) (bytes : List ℕ) (w v : Disk) : Type 0 where
    returned : put_immutable (transaction_path id) bytes w ≡ (ok tt, v)
    same_faults : v.faults ≡ w.faults
    same_objects : v.objects ≡ w.objects
    same_manifest : v.manifest ≡ w.manifest
    stored : file_at (transaction_path id) v ≡ some bytes

  Put-transaction : (id : ℕ) (bytes : List ℕ) (w : Disk) → IsCalm w → (v : Disk) × Put id bytes w v
  unfolding file_at write_file
  Put-transaction id bytes w calm = elim (put_immutable_calm (transaction_path id) bytes w calm) [
    | inl e ↦ (
      record w { transactions = Map.insert id bytes w.transactions },
      record {
        returned = e;
        same_faults = refl;
        same_objects = refl;
        same_manifest = refl;
        stored = Map.get-insert_self id bytes w.transactions;
      },
    )
    | inr (e, here) ↦ (
      w,
      record {
        returned = e;
        same_faults = refl;
        same_objects = refl;
        same_manifest = refl;
        stored = here;
      },
    )
  ]

  same_manifest_read :
      (o : Option CommittedManifest) (w v : Disk)
      → v.manifest ≡ w.manifest
      → IsRead f.read_manifest manifest_json o w
      → IsRead f.read_manifest manifest_json o v
  unfolding IsRead file_at
  same_manifest_read none w v same h = same ∙ h
  same_manifest_read (some m) w v same (bytes, (here, read)) = (bytes, (same ∙ here, read))

  same_object : (id : ℕ) (w v : Disk) → v.objects ≡ w.objects → ObjectIn f id w → ObjectIn f id v
  unfolding file_at
  same_object id w v same o = record {
    content = o.content;
    found = ap (λ m. Map.get id m) same ∙ o.found;
    intact = o.intact;
    short = o.short;
  }

  same-ObjectsIn :
      (b : TransactionBundle) (w v : Disk)
      → v.objects ≡ w.objects
      → ObjectsIn f b w
      → ObjectsIn f b v
  same-ObjectsIn b w v same o = record {
    supervisor_state = same_object b.supervisor_state w v same o.supervisor_state;
    profile_snapshot = same_object b.profile_snapshot w v same o.profile_snapshot;
    local_rule_set = same_object b.local_rule_set w v same o.local_rule_set;
    effective_configuration =
        same_object b.effective_configuration w v same o.effective_configuration;
  }

  absent_journal : (w : Disk) → w.prepared ≡ none → IsRead f.read_prepared prepared_json none w
  unfolding IsRead file_at
  absent_journal w h = h

  held_journal :
      (p : PreparedTransaction) (w : Disk)
      → Holds f.read_prepared prepared_json p w
      → IsRead f.read_prepared prepared_json (some p) w
  unfolding IsRead
  held_journal p w h = h

  read_journal_calm :
      (o : Option PreparedTransaction) (w : Disk)
      → IsCalm w
      → IsRead f.read_prepared prepared_json o w
      → read_journal f w ≡ (ok o, w)
  unfolding read_journal
  read_journal_calm o w calm h = read_optional_json_calm f.read_prepared prepared_json o w calm h

  read_manifest_calm :
      (o : Option CommittedManifest) (w : Disk)
      → IsCalm w
      → IsRead f.read_manifest manifest_json o w
      → read_manifest f w ≡ (ok o, w)
  unfolding read_manifest
  read_manifest_calm o w calm h = read_optional_json_calm f.read_manifest manifest_json o w calm h

  no_journal_refused : (w : Disk) → refuse_journal none w ≡ (ok tt, w)
  unfolding refuse_journal succeed
  no_journal_refused w = refl

  prepare_run :
      (b : TransactionBundle) (o : Option CommittedManifest) (w v : Disk) (r : IsReady b o w)
      → Put (f.sha256 r.bytes) r.bytes w v
      → prepare f b w ≡ (
        ok (record { candidate = f.sha256 r.bytes; previous = current_of o }),
        write_file prepared_json r.journal v,
      )
  unfolding prepare succeed
  prepare_run b o w v r put =
      let calm_v : IsCalm v = put.same_faults ∙ r.calm in
      run-bind (read_journal f) _ w w none
        (read_journal_calm none w r.calm (absent_journal w r.no_journal))
      ∙ run-bind (refuse_journal none) _ w w tt (no_journal_refused w)
      ∙ run-bind (verify_bundle_objects f b) _ w w tt
          (verify_bundle_objects_calm f b w r.calm r.objects)
      ∙ run-bind (or_invalid (f.write_bundle (dto_of f b))) _ w w r.bytes
          (or_invalid_calm _ r.bytes w r.encoded)
      ∙ run-bind (put_immutable (transaction_path (f.sha256 r.bytes)) r.bytes) _ w v tt put.returned
      ∙ run-bind (read_manifest f) _ v v o
          (read_manifest_calm o v calm_v (same_manifest_read o w v put.same_manifest r.readable))
      ∙ run-bind
          (or_invalid
            (f.write_prepared (record { candidate = f.sha256 r.bytes; previous = current_of o })))
          _ v v r.journal (or_invalid_calm _ r.journal v r.journal_encoded)
      ∙ run-bind (replace_private_file prepared_json r.journal) _ v
          (write_file prepared_json r.journal v) tt
          (replace_private_file_calm prepared_json r.journal v calm_v)

  recover_run :
      (m : Option CommittedManifest) (p : Option PreparedTransaction) (w : Disk)
      → IsCalm w
      → IsRead f.read_manifest manifest_json m w
      → IsRead f.read_prepared prepared_json p w
      → recover f w ≡ (ok (record { committed = m; prepared = p }), w)
  unfolding recover succeed
  recover_run m p w calm hm hp =
      run-bind (read_manifest f) _ w w m (read_manifest_calm m w calm hm)
      ∙ run-bind (read_journal f) _ w w p (read_journal_calm p w calm hp)

  clear_run :
      (p : PreparedTransaction) (bytes : List ℕ) (w : Disk)
      → IsCalm w
      → w.prepared ≡ some bytes
      → f.read_prepared bytes ≡ some p
      → clear_prepared f p w ≡ (ok tt, delete_file prepared_json w)
  unfolding clear_prepared file_at delete_file
  clear_run p bytes w calm here read =
      let v : Disk = record w { prepared = none } in
      run-bind (read_journal f) _ w w (some p)
        (read_journal_calm (some p) w calm (held_journal p w (bytes, (here, read))))
      ∙ run-bind (ensure (same_prepared (some p) p)) _ w w tt
          (ensure_calm _ w (same_prepared_refl p))
      ∙ run-bind (remove_file prepared_json) _ w v tt
          (remove_file_calm prepared_json bytes w calm here)
      ∙ sync_directory_calm v calm
