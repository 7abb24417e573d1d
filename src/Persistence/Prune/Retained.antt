-- ===== src/Persistence/Prune/Retained.antt =====
-- `retained_content` of src/persistence.rs on a disk: what is read, and what is retained of it.
use ratash.Common.{
  ℕ, ◌≡◌, refl, ◌⊎◌, inl, inr, Bool, true, false, Option, none, some, List, [], ◌∷◌, arith, ◌==◌,
  ltb, length, Bool-cases,
}
use ratash.Common.Map
use ratash.Common.Attempt.{
  Triple, Triple-succeed, Triple-fail, Triple-if, Triple-bind, Triple-weaken, Triple-known,
  Triple-result,
}
use ratash.Common.Text.{Text}
use ratash.Constants.{supervisor_state_max_bytes}
use ratash.Transaction.Types.{TransactionBundle, PreparedTransaction, CommittedManifest}
use ratash.Persistence.Disk.{
  Disk, StoredPath, object_path, transaction_path, prepared_json, manifest_json, invalid_data,
  file_at, system_call,
}
use ratash.Persistence.Disk.Writing.{
  Steady, Steady-file_at, system_call_fails, read_file_sound, Unread,
}
use ratash.Persistence.Store.{TransactionBundleDto, Formats, ensure, bundle_of}
use ratash.Persistence.Store.Reading.{
  or_invalid_sound, or_invalid-Keeps, ensure-Keeps, IsRead, decoded_sound,
}
use ratash.Persistence.Prune.{
  Digests, retain, retain_bundle_objects, Json, Jsons, scalar, json_string, array, object, no_json,
  json_and, within_references, collect_value, collect_values, opens_json, reference_limit,
  read_regular_file_limited, read_optional_regular_json, bundle_max_bytes, metadata_max_bytes,
  collect_json_object_references, read_regular_hashed_file_limited, retained_by, retained_content,
}
use ratash.Persistence.Prune.Retaining.{
  Has, Grows, retain-Grows, Names, named_transactions, named-Has, HasObjects, Same,
  retain_bundle_objects-Grows, retain_bundle_objects-HasObjects,
}

module _ {R : Disk → Type 0} (steady : Steady R) where
  call_after :
      (path : StoredPath) (content : List ℕ)
      → Triple
          (λ w. R w × (file_at path w ≡ some content))
          system_call
          (λ _ w. R w × (file_at path w ≡ some content))
          (Unread R path)
  call_after path content =
      Triple-weaken (λ _ w h. h) (λ e w h. (h.0.0, λ same. cc (same, h.1)))
        (system_call_fails
          (λ w faults h. (steady w faults h.0, Steady-file_at path (some content) w faults h.1)))

  ensured :
      (path : StoredPath) (content : List ℕ) (b : Bool)
      → Triple
          (λ w. R w × (file_at path w ≡ some content))
          (ensure b)
          (λ _ w. R w × (file_at path w ≡ some content))
          (Unread R path)
  unfolding ensure
  ensured path content true = Triple-succeed tt (λ w h. h)
  ensured path content false = Triple-fail invalid_data (λ w h. (h.0, λ same. cc (same)))

  read_regular_file_limited_sound :
      (path : StoredPath) (limit : ℕ)
      → Triple R
          (read_regular_file_limited path limit)
          (λ content w. R w × (file_at path w ≡ some content))
          (Unread R path)
  unfolding read_regular_file_limited
  read_regular_file_limited_sound path limit = Triple-bind (read_file_sound steady path) (λ c.
      Triple-bind (call_after path c) (λ _. Triple-bind (call_after path c) (λ _.
        Triple-bind (ensured path c _) (λ _.
          Triple-bind (call_after path c)
            (λ _. Triple-bind (ensured path c _) (λ _. Triple-succeed c (λ w h. h)))))))

  pub read_optional_regular_json_sound :
      {A : Type 0} (decode : List ℕ → Option A) (path : StoredPath) (limit : ℕ)
      → Triple R
          (read_optional_regular_json decode path limit)
          (λ o w. R w × IsRead decode path o w)
          (λ _. R)
  unfolding read_optional_regular_json
  read_optional_regular_json_sound decode path limit =
      Triple-bind (Triple-result (read_regular_file_limited_sound path limit))
        (λ r. decoded_sound decode path r)

module _ {R : Disk → Type 0} where
  within_references_sound :
      (m : Digests) → Triple R (within_references m) (λ n w. R w × (n ≡ m)) (λ _. R)
  unfolding within_references
  within_references_sound m =
      Triple-if (ltb reference_limit (length m)) (λ _. Triple-fail invalid_data (λ w r. r))
        (λ _. Triple-succeed m (λ w r. (r, refl)))

  mutual
    unfolding collect_value collect_values

    collect_value-Grows :
        (v : Json) (m : Digests) → Triple R (collect_value v m) (λ n w. R w × Grows m n) (λ _. R)
    collect_value-Grows scalar m = Triple-succeed m (λ w r. (r, λ i h. h))
    collect_value-Grows (json_string none) m = Triple-succeed m (λ w r. (r, λ i h. h))
    collect_value-Grows (json_string (some id)) m =
        Triple-weaken (λ n w h. (h.0, λ i k. rw h.1 (retain-Grows id m i k))) (λ _ w r. r)
          (within_references_sound (retain id m))
    collect_value-Grows (array items) m = collect_values-Grows items m
    collect_value-Grows (object items) m = collect_values-Grows items m

    collect_values-Grows :
        (vs : Jsons) (m : Digests)
        → Triple R (collect_values vs m) (λ n w. R w × Grows m n) (λ _. R)
    collect_values-Grows no_json m = Triple-succeed m (λ w r. (r, λ i h. h))
    collect_values-Grows (json_and v vs) m = Triple-bind (collect_values-Grows vs m) (λ n.
        Triple-known (λ first.
          Triple-weaken (λ k w h. (h.0, λ i here. h.1 i (first i here))) (λ _ w r. r)
            (collect_value-Grows v n)))

  pub bundle_of_sound :
      (parse_id : Text → Option ℕ) (dto : TransactionBundleDto)
      → Triple R (bundle_of parse_id dto) (λ b w. R w × Same dto b) (λ _. R)
  unfolding bundle_of
  bundle_of_sound parse_id dto = Triple-bind (ensure-Keeps _) (λ _.
      Triple-bind (or_invalid-Keeps (parse_id dto.active_profile_id)) (λ id.
        Triple-succeed _ (λ w r. (
          r,
          record { state_is = refl; snapshot_is = refl; rules_is = refl; configuration_is = refl },
        ))))

module _ (f : Formats) (read_json : List ℕ → Option Json) {R : Disk → Type 0}
    (steady : Steady R) where
  pub references-Grows :
      (content : List ℕ) (m : Digests)
      → Triple R
          (collect_json_object_references f read_json content m)
          (λ n w. R w × Grows m n)
          (λ _. R)
  unfolding collect_json_object_references
  references-Grows content m =
      Triple-if (opens_json content)
        (λ _. Triple-bind (or_invalid-Keeps (read_json content)) (λ v. collect_value-Grows v m))
        (λ _. Triple-succeed m (λ w r. (r, λ i h. h)))

  pub hashed_sound :
      (path : StoredPath) (expected limit : ℕ)
      → Triple R
          (read_regular_hashed_file_limited f read_json path expected limit)
          (λ content w. R w × (file_at path w ≡ some content))
          (λ _. R)
  unfolding read_regular_hashed_file_limited
  hashed_sound path expected limit =
      Triple-bind
        (Triple-weaken (λ c w h. h) (λ e w h. h.0)
          (read_regular_file_limited_sound steady path limit))
        (λ c.
          Triple-bind (Triple-weaken (λ _ w h. h) (λ e w h. h.0) (ensured steady path c _))
            (λ _. Triple-succeed c (λ w h. h)))

Has-head : (id tid : ℕ) (ts : Digests) → Has tid ((id, tt) ∷ ts) → (id ≡ tid) ⊎ Has tid ts
unfolding Map.get
Has-head id tid ts h = elim (Bool-cases (id == tid)) [
  | inl e ↦ inl (ground (arith, e))
  | inr e ↦ inr (rw e at h)
]

module _ (f : Formats) (read_json : List ℕ → Option Json) {R : Disk → Type 0} (steady : Steady R)
    (tid : ℕ) (tb : List ℕ) (dto : TransactionBundleDto)
    (known : (w : Disk) → R w → file_at (transaction_path tid) w ≡ some tb)
    (decodes : f.read_bundle tb ≡ some dto) where
  same_content :
      (id : ℕ) (c : List ℕ) (w : Disk)
      → R w × (file_at (transaction_path id) w ≡ some c)
      → R w × (id ≡ tid → c ≡ tb)
  same_content id c w (r, here) = (
    r,
    λ same.
        (let there : file_at (transaction_path tid) w ≡ some c = rw (← same) here in
          cc (there, known w r)),
  )

  Bundled : Digests → Digests → Digests → Type 0
  Bundled ts m n = Grows m n × (Has tid ts → HasObjects dto n)

  nothing-Bundled : (m : Digests) → Bundled [] m m
  unfolding Bundled
  nothing-Bundled m = ((λ i h. h), λ h. cc (rw Map.get-nil at h))

  one_more :
      (id : ℕ) (u : Unit {0}) (ts m n1 n : Digests) (d : TransactionBundleDto)
      (b : TransactionBundle)
      → (id ≡ tid → d ≡ dto)
      → Same d b
      → Grows (retain_bundle_objects b m) n1
      → Bundled ts n1 n
      → Bundled ((id, u) ∷ ts) m n
  unfolding Bundled
  one_more id tt ts m n1 n d b is_dto s more (later, rest) = (
    (λ i h. later i (more i (retain_bundle_objects-Grows b m i h))),
    λ h. elim (Has-head id tid ts h) [
      | inl e ↦
          λ i o. later i (more i (retain_bundle_objects-HasObjects d b m s i (rw (is_dto e) o)))
      | inr k ↦ rest k
    ],
  )

  retained_by_sound :
      (ts m : Digests)
      → Triple R (retained_by f read_json ts m) (λ n w. R w × Bundled ts m n) (λ _. R)
  unfolding retained_by
  retained_by_sound [] m = Triple-succeed m (λ w r. (r, nothing-Bundled m))
  retained_by_sound ((id, u) ∷ ts) m =
      Triple-bind
        (Triple-weaken (λ c w h. same_content id c w h) (λ _ w r. r)
          (hashed_sound f read_json steady (transaction_path id) id bundle_max_bytes))
        (λ c. Triple-known (λ is_tb. Triple-bind (or_invalid_sound (f.read_bundle c)) (λ d.
          Triple-known (λ read. Triple-bind (bundle_of_sound f.parse_id d) (λ b. Triple-known (λ s.
            Triple-bind
              (Triple-weaken (λ _ w h. h.0) (λ _ w r. r)
                (hashed_sound f read_json steady (object_path b.supervisor_state) b.supervisor_state
                  supervisor_state_max_bytes))
              (λ state.
                Triple-bind (references-Grows f read_json steady state (retain_bundle_objects b m))
                  (λ n1. Triple-known (λ more.
                    Triple-weaken
                      (λ n w h. (
                        h.0,
                        one_more id u ts m n1 n d b (λ same. bundle_is c d (is_tb same) read) s more
                            h.1,
                      ))
                      (λ _ w r. r) (retained_by_sound ts n1))))))))))
    where
      bundle_is :
          (c : List ℕ) (d : TransactionBundleDto) → c ≡ tb → f.read_bundle c ≡ some d → d ≡ dto
      bundle_is c d same read =
          let there : f.read_bundle tb ≡ some d = rw (← same) read in cc (there, decodes)

  -- What is read of the manifest and of the journal.
  pub retained_content_sound :
      (m : Option CommittedManifest) (p : Option PreparedTransaction)
      → ((w : Disk) (o : Option CommittedManifest)
          → R w
          → IsRead f.read_manifest manifest_json o w
          → o ≡ m)
      → ((w : Disk) (o : Option PreparedTransaction)
          → R w
          → IsRead f.read_prepared prepared_json o w
          → o ≡ p)
      → Names m p tid
      → Triple R
          (retained_content f read_json)
          (λ r w. R w × (Has tid r.0 × HasObjects dto r.1))
          (λ _. R)
  unfolding retained_content Bundled
  retained_content_sound m p is_m is_p named =
      Triple-bind
        (Triple-weaken (λ o w h. (h.0, is_m w o h.0 h.1)) (λ _ w r. r)
          (read_optional_regular_json_sound steady f.read_manifest manifest_json
            metadata_max_bytes))
        (λ o. Triple-known (λ e.
          Triple-bind
            (Triple-weaken (λ q w h. (h.0, is_p w q h.0 h.1)) (λ _ w r. r)
              (read_optional_regular_json_sound steady f.read_prepared prepared_json
                metadata_max_bytes))
            (λ q. Triple-known (λ g.
              Triple-bind (retained_by_sound (named_transactions o q) []) (λ objects.
                Triple-succeed (named_transactions o q, objects)
                  (λ w h.
                    (let here : Has tid (named_transactions o q) =
                        rw e (rw g (named-Has m p tid named)) in
                      (h.0, (here, h.1.1 here)))))))))
