-- ===== src/Persistence/Prune/Keeping.antt =====
-- `prune_unreachable` of src/persistence.rs and the manifest, whatever the disk holds.
use ratash.Common.{ℕ, Option, List, [], ◌∷◌}
use ratash.Common.Attempt.{Keeps, Triple-succeed, Triple-bind, Triple-weaken, Triple-known}
use ratash.Constants.{supervisor_state_max_bytes}
use ratash.Persistence.Disk.{
  Disk, object_path, transaction_path, prepared_json, manifest_json, delete_file,
}
use ratash.Persistence.Disk.Writing.{Steady}
use ratash.Persistence.Store.{Formats}
use ratash.Persistence.Store.Reading.{or_invalid-Keeps}
use ratash.Persistence.Prune.{
  Digests, Json, DirEntry, PruneEntryKind, object_entry, transaction_entry, path_of, retained_by,
  retained_content, bundle_max_bytes, metadata_max_bytes, prune_unreachable, retain_bundle_objects,
}
use ratash.Persistence.Prune.Retained.{
  read_optional_regular_json_sound, bundle_of_sound, references-Grows, hashed_sound,
}
use ratash.Persistence.Prune.Spared.{collected, removed, sync_if-Keeps}

module _ (f : Formats) (read_json : List ℕ → Option Json) (M : Option (List ℕ) → Type 0) where
  About : Disk → Type 0
  About w = M w.manifest

  About-steady : Steady About
  unfolding About
  About-steady w faults h = h

  deleted :
      (kind : PruneEntryKind) (id : ℕ) (w : Disk)
      → Unit {0}
      → About w
      → About (delete_file (path_of kind id) w)
  unfolding About delete_file path_of
  deleted object_entry id w u h = h
  deleted transaction_entry id w u h = h

  retained_by-Keeps : (ts m : Digests) → Keeps About (retained_by f read_json ts m)
  unfolding retained_by
  retained_by-Keeps [] m = Triple-succeed m (λ w h. h)
  retained_by-Keeps ((id, _) ∷ ts) m =
      Triple-bind
        (Triple-weaken (λ _ w h. h.0) (λ _ w h. h)
          (hashed_sound f read_json About-steady (transaction_path id) id bundle_max_bytes))
        (λ c. Triple-bind (or_invalid-Keeps (f.read_bundle c)) (λ d.
          Triple-bind (Triple-weaken (λ _ w h. h.0) (λ _ w h. h) (bundle_of_sound f.parse_id d))
            (λ b.
              Triple-bind
                (Triple-weaken (λ _ w h. h.0) (λ _ w h. h)
                  (hashed_sound f read_json About-steady (object_path b.supervisor_state)
                    b.supervisor_state supervisor_state_max_bytes))
                (λ state.
                  Triple-bind
                    (Triple-weaken (λ _ w h. h.0) (λ _ w h. h)
                      (references-Grows f read_json About-steady state (retain_bundle_objects b m)))
                    (λ more. retained_by-Keeps ts more)))))

  retained_content-Keeps : Keeps About (retained_content f read_json)
  unfolding retained_content
  retained_content-Keeps =
      Triple-bind
        (Triple-weaken (λ _ w h. h.0) (λ _ w h. h)
          (read_optional_regular_json_sound About-steady f.read_manifest manifest_json
            metadata_max_bytes))
        (λ m.
          Triple-bind
            (Triple-weaken (λ _ w h. h.0) (λ _ w h. h)
              (read_optional_regular_json_sound About-steady f.read_prepared prepared_json
                metadata_max_bytes))
            (λ p. Triple-bind (retained_by-Keeps _ []) (λ objects. Triple-succeed _ (λ w h. h))))

  pub prune_unreachable-Keeps :
      (object_entries transaction_entries : List DirEntry)
      → Keeps (λ w. M w.manifest) (prune_unreachable f read_json object_entries transaction_entries)
  unfolding prune_unreachable About
  prune_unreachable-Keeps object_entries transaction_entries =
      Triple-bind retained_content-Keeps (λ r.
        Triple-bind
          (collected About-steady (λ _. Unit {0}) object_entry r.1 (λ id absent. tt) object_entries
            _ tt)
          (λ c. Triple-known (λ seen.
            Triple-bind
              (collected About-steady (λ _. Unit {0}) transaction_entry r.0 (λ id absent. tt)
                transaction_entries c seen)
              (λ d. Triple-known (λ all_seen.
                Triple-bind (removed About-steady (λ _. Unit {0}) deleted d.candidates _ all_seen)
                  (λ s. Triple-bind (sync_if-Keeps About-steady _) (λ _.
                    Triple-bind (sync_if-Keeps About-steady _)
                      (λ _. Triple-succeed s (λ w h. h)))))))))
