-- ===== src/Persistence/Prune/Spared.antt =====
-- `prune_unreachable` of src/persistence.rs: the candidates, their removal, and what is spared.
use ratash.Common.{
  ℕ, ◌≡◌, ◌≢◌, refl, ◌∙◌, Bool, true, false, Option, none, some, List, [], ◌∷◌, All, All-append,
  length, ◌==◌, if◌then◌else◌, Bool-cases, inl, inr,
}
use ratash.Common.Map
use ratash.Common.Result.{Result, ok, err}
use ratash.Common.Attempt.{
  Triple, Keeps, Outcome, Triple-succeed, Triple-if, Triple-bind, Triple-known,
}
use ratash.Transaction.Types.{PreparedTransaction, CommittedManifest}
use ratash.Persistence.Disk.{
  Disk, IoErrorKind, StoredPath, prepared_json, manifest_json, file_at, delete_file, change,
  remove_file,
}
use ratash.Persistence.Disk.Writing.{
  Steady, system_call-Keeps, found_file-Keeps, sync_directory-Keeps,
}
use ratash.Persistence.Store.{TransactionBundleDto, Formats}
use ratash.Persistence.Store.Reading.{IsRead}
use ratash.Persistence.Prune.{
  Digests, Json, DirEntry, PruneEntryKind, object_entry, transaction_entry, path_of, Collected,
  PersistencePruneResult, push_candidate, consider, collect_entries, collect_prune_candidates,
  remove_found, look_up, remove_candidates, sync_if, prune_unreachable, entry_limit, removal_limit,
}
use ratash.Persistence.Prune.Retaining.{Has, Names, IsObject, HasObjects}
use ratash.Persistence.Prune.Retained.{retained_content_sound}

module _ {R : Disk → Type 0} (steady : Steady R) where
  remove_file-Keeps :
      (path : StoredPath) → ((w : Disk) → R w → R (delete_file path w)) → Keeps R (remove_file path)
  unfolding remove_file change Outcome
  remove_file-Keeps path h =
      Triple-bind (system_call-Keeps steady)
        (λ _. Triple-bind (found_file-Keeps path) (λ _. record { from = λ w r. h w r }))

  remove_found-Keeps :
      (kind : PruneEntryKind) (id : ℕ) (r : PersistencePruneResult) (file : Option (List ℕ))
      → ((w : Disk) → R w → R (delete_file (path_of kind id) w))
      → Keeps R (remove_found kind id r file)
  unfolding remove_found
  remove_found-Keeps kind id r none h = Triple-succeed r (λ w k. k)
  remove_found-Keeps kind id r (some _) h =
      Triple-bind (remove_file-Keeps (path_of kind id) h) (λ _. Triple-succeed _ (λ w k. k))

  pub sync_if-Keeps : (b : Bool) → Keeps R (sync_if b)
  unfolding sync_if
  sync_if-Keeps true = sync_directory-Keeps steady
  sync_if-Keeps false = Triple-succeed tt (λ w k. k)

module _ {R : Disk → Type 0} (steady : Steady R) (P : PruneEntryKind × ℕ → Type 0) where
  push_candidate-All :
      (kind : PruneEntryKind) (id : ℕ) (c : Collected)
      → P (kind, id)
      → All P c.candidates
      → All P (push_candidate kind id c).candidates
  unfolding push_candidate
  push_candidate-All kind id c p h = elim (Bool-cases (length c.candidates == removal_limit)) [
    | inl e ↦ rw e h
    | inr e ↦ rw e (All-append P c.candidates ((kind, id) ∷ []) h (p, tt))
  ]

  module _ (kind : PruneEntryKind) (retained : Digests)
      (spared : (id : ℕ) → Map.contains id retained ≡ false → P (kind, id)) where
    considered :
        (is_file : Bool) (digest : Option ℕ) (c : Collected)
        → All P c.candidates
        → Triple R
            (consider kind retained is_file digest c)
            (λ d w. R w × All P d.candidates)
            (λ _. R)
    unfolding consider
    considered is_file none c h = Triple-succeed c (λ w r. (r, h))
    considered is_file (some id) c h =
        Triple-if (Map.contains id retained) (λ _. Triple-succeed c (λ w r. (r, h)))
          (λ absent.
            Triple-bind (system_call-Keeps steady)
              (λ _. Triple-succeed _ (λ w r. (r, pushed is_file id c h absent))))
      where
        pushed :
            (is_file : Bool) (id : ℕ) (c : Collected)
            → All P c.candidates
            → Map.contains id retained ≡ false
            → All P (if is_file then push_candidate kind id c else c).candidates
        pushed true id c h absent = push_candidate-All kind id c (spared id absent) h
        pushed false id c h absent = h

    entries_collected :
        (entries : List DirEntry) (c : Collected)
        → All P c.candidates
        → Triple R
            (collect_entries kind retained entries c)
            (λ d w. R w × All P d.candidates)
            (λ _. R)
    unfolding collect_entries
    entries_collected [] c h = Triple-succeed c (λ w r. (r, h))
    entries_collected (entry ∷ entries) c h =
        Triple-if (c.scanned_entries == entry_limit) (λ _. Triple-succeed _ (λ w r. (r, h)))
          (λ _. Triple-bind (system_call-Keeps steady) (λ _.
            Triple-bind (considered entry.is_file entry.digest _ h)
              (λ d. Triple-known (λ k. entries_collected entries d k))))

    pub collected :
        (entries : List DirEntry) (c : Collected)
        → All P c.candidates
        → Triple R
            (collect_prune_candidates kind retained entries c)
            (λ d w. R w × All P d.candidates)
            (λ _. R)
    unfolding collect_prune_candidates
    collected entries c h =
        Triple-bind (system_call-Keeps steady) (λ _. entries_collected entries c h)

  pub removed :
      ((kind : PruneEntryKind) (id : ℕ) (w : Disk)
        → P (kind, id)
        → R w
        → R (delete_file (path_of kind id) w))
      → (candidates : List (PruneEntryKind × ℕ)) (r : PersistencePruneResult) → All P candidates
      → Keeps R (remove_candidates candidates r)
  unfolding remove_candidates look_up Outcome
  removed deletes [] r h = Triple-succeed r (λ w k. k)
  removed deletes ((kind, id) ∷ candidates) r h = Triple-bind (system_call-Keeps steady) (λ _.
      Triple-bind (record { from = λ w k. k })
        (λ file.
          Triple-bind (remove_found-Keeps steady kind id r file (λ w k. deletes kind id w h.0 k))
            (λ s. removed deletes candidates s h.1)))

-- What the manifest and the journal need of the disk `w0`: the two files, a transaction and the
-- objects of its bundle.
record Fixed (w0 : Disk) (tid : ℕ) (dto : TransactionBundleDto) (w : Disk) : Type 0 where
  same_manifest : w.manifest ≡ w0.manifest
  same_prepared : w.prepared ≡ w0.prepared
  same_transaction : Map.get tid w.transactions ≡ Map.get tid w0.transactions
  same_objects : (id : ℕ) → IsObject dto id → Map.get id w.objects ≡ Map.get id w0.objects

Fixed-steady : (w0 : Disk) (tid : ℕ) (dto : TransactionBundleDto) → Steady (Fixed w0 tid dto)
Fixed-steady w0 tid dto w faults h = record {
  same_manifest = h.same_manifest;
  same_prepared = h.same_prepared;
  same_transaction = h.same_transaction;
  same_objects = h.same_objects;
}

-- A candidate that is not retained.
Unretained : Digests → Digests → PruneEntryKind × ℕ → Type 0
Unretained transactions objects (object_entry, id) = Map.contains id objects ≡ false
Unretained transactions objects (transaction_entry, id) = Map.contains id transactions ≡ false

apart : (i k : ℕ) (m : Digests) → Has i m → Map.contains k m ≡ false → k ≢ i
apart i k m h absent same = let e : Map.contains i m ≡ false = rw (← same) absent in cc (h, e)

deleted-Fixed :
    (w0 : Disk) (tid : ℕ) (dto : TransactionBundleDto) (transactions objects : Digests)
    → Has tid transactions
    → HasObjects dto objects
    → (kind : PruneEntryKind) (id : ℕ) (w : Disk) → Unretained transactions objects (kind, id)
    → Fixed w0 tid dto w
    → Fixed w0 tid dto (delete_file (path_of kind id) w)
unfolding delete_file path_of Unretained
deleted-Fixed w0 tid dto transactions objects ht ho object_entry id w absent h = record {
  same_manifest = h.same_manifest;
  same_prepared = h.same_prepared;
  same_transaction = h.same_transaction;
  same_objects = λ i o.
      Map.get-remove_ne id i w.objects (apart i id objects (ho i o) absent) ∙ h.same_objects i o;
}
deleted-Fixed w0 tid dto transactions objects ht ho transaction_entry id w absent h = record {
  same_manifest = h.same_manifest;
  same_prepared = h.same_prepared;
  same_transaction =
      Map.get-remove_ne id tid w.transactions (apart tid id transactions ht absent)
      ∙ h.same_transaction;
  same_objects = h.same_objects;
}

read_same :
    {A : Type 0} (decode : List ℕ → Option A) (path : StoredPath) (o m : Option A) (w w0 : Disk)
    → file_at path w ≡ file_at path w0
    → IsRead decode path o w
    → IsRead decode path m w0
    → o ≡ m
unfolding IsRead
read_same decode path none none w w0 same h k = refl
read_same decode path none (some m) w w0 same h (bytes, (here, _)) = cc (h, same, here)
read_same decode path (some o) none w w0 same (bytes, (here, _)) k = cc (here, same, k)
read_same decode path (some o) (some m) w w0 same (bytes, (here, read)) (bytes0, (here0, read0)) =
    let e : bytes ≡ bytes0 = cc (here, same, here0) in cc (rw e at read, read0)

module _ (f : Formats) (read_json : List ℕ → Option Json) where
  prune-Fixed :
      (object_entries transaction_entries : List DirEntry) (w0 : Disk)
      (m : Option CommittedManifest) (p : Option PreparedTransaction) (tid : ℕ) (tb : List ℕ)
      (dto : TransactionBundleDto)
      → IsRead f.read_manifest manifest_json m w0
      → IsRead f.read_prepared prepared_json p w0
      → Names m p tid
      → Map.get tid w0.transactions ≡ some tb
      → f.read_bundle tb ≡ some dto
      → Keeps (Fixed w0 tid dto) (prune_unreachable f read_json object_entries transaction_entries)
  unfolding prune_unreachable file_at Unretained
  prune-Fixed object_entries transaction_entries w0 m p tid tb dto hm hp named here decodes =
      let steady = Fixed-steady w0 tid dto in
      Triple-bind
        (retained_content_sound f read_json steady tid tb dto (λ w h. h.same_transaction ∙ here)
          decodes m p
          (λ w o h k. read_same f.read_manifest manifest_json o m w w0 h.same_manifest k hm)
          (λ w o h k. read_same f.read_prepared prepared_json o p w w0 h.same_prepared k hp) named)
        (λ r. Triple-known (λ has.
          let P = Unretained r.0 r.1 in
          Triple-bind
            (collected steady P object_entry r.1 (λ id absent. absent) object_entries _ tt)
            (λ c. Triple-known (λ some_spared.
              Triple-bind
                (collected steady P transaction_entry r.0 (λ id absent. absent) transaction_entries
                  c some_spared)
                (λ d. Triple-known (λ all_spared.
                  Triple-bind
                    (removed steady P (deleted-Fixed w0 tid dto r.0 r.1 has.0 has.1) d.candidates _
                      all_spared)
                    (λ s. Triple-bind (sync_if-Keeps steady _) (λ _.
                      Triple-bind (sync_if-Keeps steady _)
                        (λ _. Triple-succeed s (λ w h. h))))))))))

  ended :
      {A : Type 0} (R : Disk → Type 0) (r : Result IoErrorKind A × Disk)
      → Outcome (λ _. R) (λ _. R) r
      → R (r.1)
  unfolding Outcome
  ended R (ok a, w) h = h
  ended R (err e, w) h = h

  -- Whatever the directories list and whatever call fails, `prune_unreachable` keeps the manifest,
  -- the journal, every transaction that one of them names as the current one, the candidate or the
  -- one before, and the four objects of its bundle, if the two files can be read and the
  -- transaction holds a bundle.
  pub prune_unreachable-spared :
      (object_entries transaction_entries : List DirEntry) (w : Disk) (m : Option CommittedManifest)
      (p : Option PreparedTransaction) (tid : ℕ) (tb : List ℕ) (dto : TransactionBundleDto)
      → IsRead f.read_manifest manifest_json m w
      → IsRead f.read_prepared prepared_json p w
      → Names m p tid
      → Map.get tid w.transactions ≡ some tb
      → f.read_bundle tb ≡ some dto
      → let v = (prune_unreachable f read_json object_entries transaction_entries w).1 in
        (v.manifest ≡ w.manifest)
        × ((v.prepared ≡ w.prepared)
            × ((Map.get tid v.transactions ≡ Map.get tid w.transactions)
                × ((id : ℕ) → IsObject dto id → Map.get id v.objects ≡ Map.get id w.objects)))
  prune_unreachable-spared object_entries transaction_entries w m p tid tb dto hm hp named here
        decodes =
      let h =
        ended (Fixed w tid dto) (prune_unreachable f read_json object_entries transaction_entries w)
          ((prune-Fixed object_entries transaction_entries w m p tid tb dto hm hp named here
              decodes).from
            w
            (record {
              same_manifest = refl;
              same_prepared = refl;
              same_transaction = refl;
              same_objects = λ id o. refl;
            })) in
      (h.same_manifest, (h.same_prepared, (h.same_transaction, h.same_objects)))
