-- ===== src/Persistence/Store/Reading.antt =====
-- The readers of src/persistence.rs: what a value that was read says of the disk.
use ratash.Common.{
  ℕ, ◌≡◌, refl, ap, ◌∙◌, Bool, true, false, Option, none, some, List, ◌==◌, arith, same_option,
  same_option-eq, if◌then◌else◌, u64_max,
}
use ratash.Common.Result.{Result, ok, err}
use ratash.Common.Attempt.{
  Triple, Keeps, Settled, Triple-succeed, Triple-fail, Triple-bind, Triple-weaken, Triple-result,
}
use ratash.Transaction.Types.{TransactionBundle, PreparedTransaction}
use ratash.Persistence.Disk.{
  Disk, StoredPath, object_path, transaction_path, prepared_json, manifest_json, file_at,
  IoErrorKind, not_found, already_exists, invalid_data, other,
}
use ratash.Persistence.Disk.Writing.{
  Steady, system_call-Keeps, read_file_sound, read_file-Keeps, Unread,
}
use ratash.Persistence.Store.{
  TransactionBundleDto, Formats, or_invalid, ensure, same_prepared, decoded, read_optional_json,
  bundle_of, read_object_limited, read_hashed_file, read_manifest, read_journal, load_transaction,
  recover, verify_bundle_objects,
}

module _ {R : Disk → Type 0} where
  pub or_invalid_sound :
      {A : Type 0} (o : Option A) → Triple R (or_invalid o) (λ a w. R w × (o ≡ some a)) (λ _. R)
  unfolding or_invalid
  or_invalid_sound none = Triple-fail invalid_data (λ w r. r)
  or_invalid_sound (some a) = Triple-succeed a (λ w r. (r, refl))

  pub ensure_sound : (b : Bool) → Triple R (ensure b) (λ _ w. R w × (b ≡ true)) (λ _. R)
  unfolding ensure
  ensure_sound true = Triple-succeed tt (λ w r. (r, refl))
  ensure_sound false = Triple-fail invalid_data (λ w r. r)

  pub ensure-Keeps : (b : Bool) → Keeps R (ensure b)
  ensure-Keeps b = Triple-weaken (λ _ w h. h.0) (λ _ w r. r) (ensure_sound b)

  pub or_invalid-Keeps : {A : Type 0} (o : Option A) → Keeps R (or_invalid o)
  or_invalid-Keeps o = Triple-weaken (λ _ w h. h.0) (λ _ w r. r) (or_invalid_sound o)

-- The file holds the encoding of a value.
abbrev pub Holds : {A : Type 0} → (List ℕ → Option A) → StoredPath → A → Disk → Type 0
Holds decode path a w = (bytes : List ℕ) × ((file_at path w ≡ some bytes) × (decode bytes ≡ some a))

-- What an optional value that was read says of the file.
unfoldable pub IsRead : {A : Type 0} → (List ℕ → Option A) → StoredPath → Option A → Disk → Type 0
IsRead decode path none w = file_at path w ≡ none
IsRead decode path (some a) w = Holds decode path a w

module _ {A : Type 0} {R : Disk → Type 0} (decode : List ℕ → Option A) (path : StoredPath) where
  pub decoded_sound :
      (r : Result IoErrorKind (List ℕ))
      → Triple
          (Settled (λ c w. R w × (file_at path w ≡ some c)) (Unread R path) r)
          (decoded decode r)
          (λ o w. R w × IsRead decode path o w)
          (λ _. R)
  unfolding decoded Settled IsRead
  decoded_sound (ok content) =
      Triple-bind (Triple-weaken (λ a w h. h) (λ _ w h. h.0) (or_invalid_sound (decode content)))
        (λ a. Triple-succeed (some a) (λ w h. (h.0.0, (content, (h.0.1, h.1)))))
  decoded_sound (err not_found) = Triple-succeed none (λ w h. (h.0, h.1 refl))
  decoded_sound (err already_exists) = Triple-fail already_exists (λ w h. h.0)
  decoded_sound (err invalid_data) = Triple-fail invalid_data (λ w h. h.0)
  decoded_sound (err other) = Triple-fail other (λ w h. h.0)

  pub read_optional_json_sound :
      Steady R
      → Triple R (read_optional_json decode path) (λ o w. R w × IsRead decode path o w) (λ _. R)
  unfolding read_optional_json
  read_optional_json_sound steady =
      Triple-bind (Triple-result (read_file_sound steady path)) (λ r. decoded_sound r)

pub Holds-same_prepared :
    (decode : List ℕ → Option PreparedTransaction) (o : Option PreparedTransaction)
    (p : PreparedTransaction) (w : Disk)
    → IsRead decode prepared_json o w
    → same_prepared o p ≡ true
    → Holds decode prepared_json p w
unfolding IsRead same_prepared
Holds-same_prepared decode none p w h same = cc (same)
Holds-same_prepared decode (some q) p w (bytes, (found, read)) same =
    (bytes, (found, read ∙ ap some (equal_prepared q p same)))
  where
    equal_prepared :
        (q p : PreparedTransaction)
        → (if q.candidate == p.candidate then same_option q.previous p.previous else false) ≡ true
        → q ≡ p
    equal_prepared q p same =
        let c : q.candidate ≡ p.candidate = ground (arith, same) in
        let o : q.previous ≡ p.previous =
          same_option-eq q.previous p.previous (ground (arith, same)) in
        ap (λ x. record { candidate = x; previous = q.previous }) c
        ∙ ap (λ x. record { candidate = p.candidate; previous = x }) o

module _ (f : Formats) {R : Disk → Type 0} (steady : Steady R) where
  pub read_manifest_sound :
      Triple R (read_manifest f) (λ o w. R w × IsRead f.read_manifest manifest_json o w) (λ _. R)
  unfolding read_manifest
  read_manifest_sound = read_optional_json_sound f.read_manifest manifest_json steady

  pub read_journal_sound :
      Triple R (read_journal f) (λ o w. R w × IsRead f.read_prepared prepared_json o w) (λ _. R)
  unfolding read_journal
  read_journal_sound = read_optional_json_sound f.read_prepared prepared_json steady

  pub read_manifest-Keeps : Keeps R (read_manifest f)
  read_manifest-Keeps = Triple-weaken (λ _ w h. h.0) (λ _ w r. r) read_manifest_sound

  pub read_journal-Keeps : Keeps R (read_journal f)
  read_journal-Keeps = Triple-weaken (λ _ w h. h.0) (λ _ w r. r) read_journal_sound

  pub read_object_limited-Keeps : (id limit : ℕ) → Keeps R (read_object_limited f id limit)
  unfolding read_object_limited
  read_object_limited-Keeps id limit =
      Triple-bind (read_file-Keeps steady (object_path id)) (λ content.
        Triple-bind (system_call-Keeps steady) (λ _. Triple-bind (ensure-Keeps _) (λ _.
          Triple-bind (system_call-Keeps steady) (λ _.
            Triple-bind (ensure-Keeps _)
              (λ _. Triple-bind (ensure-Keeps _) (λ _. Triple-succeed content (λ w r. r)))))))

  pub verify_bundle_objects-Keeps : (b : TransactionBundle) → Keeps R (verify_bundle_objects f b)
  unfolding verify_bundle_objects
  verify_bundle_objects-Keeps b =
      Triple-bind (read_object_limited-Keeps b.supervisor_state u64_max) (λ _.
        Triple-bind (read_object_limited-Keeps b.profile_snapshot u64_max) (λ _.
          Triple-bind (read_object_limited-Keeps b.local_rule_set u64_max) (λ _.
            Triple-bind (read_object_limited-Keeps b.effective_configuration u64_max)
              (λ _. Triple-succeed tt (λ w r. r)))))

  bundle_of-Keeps : (dto : TransactionBundleDto) → Keeps R (bundle_of f.parse_id dto)
  unfolding bundle_of
  bundle_of-Keeps dto =
      Triple-bind (ensure-Keeps _)
        (λ _. Triple-bind (or_invalid-Keeps _) (λ id. Triple-succeed _ (λ w r. r)))

  pub load_transaction-Keeps : (id : ℕ) → Keeps R (load_transaction f id)
  unfolding load_transaction read_hashed_file
  load_transaction-Keeps id =
      Triple-bind
        (Triple-bind (read_file-Keeps steady (transaction_path id))
          (λ c. Triple-bind (ensure-Keeps _) (λ _. Triple-succeed c (λ w r. r))))
        (λ content. Triple-bind (or_invalid-Keeps _) (λ dto. bundle_of-Keeps dto))

  pub recover-Keeps : Keeps R (recover f)
  unfolding recover
  recover-Keeps =
      Triple-bind read_manifest-Keeps
        (λ m. Triple-bind read_journal-Keeps (λ p. Triple-succeed _ (λ w r. r)))
