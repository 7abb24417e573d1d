-- ===== src/Persistence/Store/Loading.antt =====
-- `load_transaction` of src/persistence.rs after `prepare`, and the readers on a disk whose calls
-- do not fail.
use ratash.Common.{
  ℕ, ◌≡◌, refl, sym, ◌∙◌, Bool, true, not, Option, none, some, List, ◌==◌, ltb, ◌≤◌, length, arith,
  u64_max, same_option_refl,
}
use ratash.Common.Result.{ok}
use ratash.Common.Attempt.{succeed, result, run-bind, run-result, Outcome-ok}
use ratash.Transaction.Types.{TransactionBundle, PreparedTransaction}
use ratash.Persistence.Disk.{
  Disk, StoredPath, object_path, transaction_path, file_at, system_call, found_or_error, read_file,
}
use ratash.Persistence.Disk.Calm.{IsCalm, system_call_calm, read_file_calm}
use ratash.Persistence.Store.{
  Formats, AreFormats, or_invalid, ensure, same_prepared, decoded, read_optional_json, bundle_of,
  dto_of, read_object_limited, read_hashed_file, load_transaction, verify_bundle_objects, prepare,
}
use ratash.Persistence.Store.Reading.{IsRead}
use ratash.Persistence.Store.Keeping.{prepare_sound}

pub ensure_calm : (b : Bool) (w : Disk) → b ≡ true → ensure b w ≡ (ok tt, w)
unfolding ensure succeed
ensure_calm b w h = rw h refl

pub or_invalid_calm :
    {A : Type 0} (o : Option A) (a : A) (w : Disk) → o ≡ some a → or_invalid o w ≡ (ok a, w)
unfolding or_invalid succeed
or_invalid_calm o a w h = rw h refl

found_calm :
    (path : StoredPath) (content : List ℕ) (w : Disk)
    → IsCalm w
    → file_at path w ≡ some content
    → read_file path w ≡ (ok content, w)
unfolding found_or_error
found_calm path content w calm here = read_file_calm path (some content) w calm here

decoded_calm :
    {A : Type 0} (decode : List ℕ → Option A) (path : StoredPath) (o : Option A) (w : Disk)
    → IsRead decode path o w
    → decoded decode (found_or_error (file_at path w)) w ≡ (ok o, w)
unfolding IsRead decoded found_or_error succeed
decoded_calm decode path none w h = rw h refl
decoded_calm decode path (some a) w (bytes, (here, read)) =
    rw here (run-bind (or_invalid (decode bytes)) _ w w a (or_invalid_calm (decode bytes) a w read))

pub read_optional_json_calm :
    {A : Type 0} (decode : List ℕ → Option A) (path : StoredPath) (o : Option A) (w : Disk)
    → IsCalm w
    → IsRead decode path o w
    → read_optional_json decode path w ≡ (ok o, w)
unfolding read_optional_json
read_optional_json_calm decode path o w calm h =
    let r = found_or_error (file_at path w) in
    run-bind (result (read_file path)) (decoded decode) w w r
      (run-result (read_file path) w w r (read_file_calm path (file_at path w) w calm refl))
    ∙ decoded_calm decode path o w h

equal_self : (a b : ℕ) → a ≡ b → (a == b) ≡ true
equal_self a b h = ground (arith, h)

pub same_prepared_refl : (p : PreparedTransaction) → same_prepared (some p) p ≡ true
unfolding same_prepared
same_prepared_refl p = rw (equal_self p.candidate p.candidate refl) (same_option_refl p.previous)

module _ (f : Formats) where
  -- The object is on the disk, is what its name says, and its length fits a `usize`.
  pub record ObjectIn (id : ℕ) (w : Disk) : Type 0 where
    pub content : List ℕ
    pub found : file_at (object_path id) w ≡ some content
    pub intact : f.sha256 content ≡ id
    pub short : length content ≤ u64_max

  pub record ObjectsIn (b : TransactionBundle) (w : Disk) : Type 0 where
    pub supervisor_state : ObjectIn b.supervisor_state w
    pub profile_snapshot : ObjectIn b.profile_snapshot w
    pub local_rule_set : ObjectIn b.local_rule_set w
    pub effective_configuration : ObjectIn b.effective_configuration w

  read_object_calm :
      (id : ℕ) (w : Disk)
      → IsCalm w
      → (o : ObjectIn id w) → read_object_limited f id u64_max w ≡ (ok o.content, w)
  unfolding read_object_limited succeed
  read_object_calm id w calm o =
      let fits : not (ltb u64_max (length o.content)) ≡ true = ground (arith, o.short) in
      run-bind (read_file (object_path id)) _ w w o.content
        (found_calm (object_path id) o.content w calm o.found)
      ∙ run-bind system_call _ w w tt (system_call_calm w calm)
      ∙ run-bind (ensure (not (ltb u64_max (length o.content)))) _ w w tt (ensure_calm _ w fits)
      ∙ run-bind system_call _ w w tt (system_call_calm w calm)
      ∙ run-bind (ensure (not (ltb u64_max (length o.content)))) _ w w tt (ensure_calm _ w fits)
      ∙ run-bind (ensure (f.sha256 o.content == id)) _ w w tt
          (ensure_calm _ w (equal_self (f.sha256 o.content) id o.intact))

  pub verify_bundle_objects_calm :
      (b : TransactionBundle) (w : Disk)
      → IsCalm w
      → ObjectsIn b w
      → verify_bundle_objects f b w ≡ (ok tt, w)
  unfolding verify_bundle_objects succeed
  verify_bundle_objects_calm b w calm o =
      run-bind (read_object_limited f b.supervisor_state u64_max) _ w w o.supervisor_state.content
        (read_object_calm b.supervisor_state w calm o.supervisor_state)
      ∙ run-bind (read_object_limited f b.profile_snapshot u64_max) _ w w o.profile_snapshot.content
          (read_object_calm b.profile_snapshot w calm o.profile_snapshot)
      ∙ run-bind (read_object_limited f b.local_rule_set u64_max) _ w w o.local_rule_set.content
          (read_object_calm b.local_rule_set w calm o.local_rule_set)
      ∙ run-bind (read_object_limited f b.effective_configuration u64_max) _ w w
          o.effective_configuration.content
          (read_object_calm b.effective_configuration w calm o.effective_configuration)

module _ (f : Formats) (laws : AreFormats f) where
  bundle_of-dto_of :
      (b : TransactionBundle) (w : Disk) → bundle_of f.parse_id (dto_of f b) w ≡ (ok b, w)
  unfolding bundle_of dto_of succeed
  bundle_of-dto_of b w =
      run-bind (ensure (1 == 1)) _ w w tt (ensure_calm (1 == 1) w refl)
      ∙ run-bind (or_invalid (f.parse_id (f.id_text b.active_profile_id))) _ w w b.active_profile_id
          (or_invalid_calm _ b.active_profile_id w (laws.id b.active_profile_id))

  pub load_transaction_calm :
      (b : TransactionBundle) (id : ℕ) (bytes : List ℕ) (w : Disk)
      → IsCalm w
      → file_at (transaction_path id) w ≡ some bytes
      → f.sha256 bytes ≡ id
      → f.write_bundle (dto_of f b) ≡ some bytes
      → load_transaction f id w ≡ (ok b, w)
  unfolding load_transaction read_hashed_file succeed
  load_transaction_calm b id bytes w calm here named encoded =
      run-bind (read_hashed_file f (transaction_path id) id) _ w w bytes (
        run-bind (read_file (transaction_path id)) _ w w bytes
          (found_calm (transaction_path id) bytes w calm here)
        ∙ run-bind (ensure (f.sha256 bytes == id)) _ w w tt
            (ensure_calm _ w (equal_self (f.sha256 bytes) id named)))
      ∙ run-bind (or_invalid (f.read_bundle bytes)) _ w w (dto_of f b)
          (or_invalid_calm _ (dto_of f b) w (laws.bundle (dto_of f b) bytes encoded))
      ∙ bundle_of-dto_of b w

  -- A bundle that was prepared is loaded again, as it was, by the identifier that `prepare`
  -- returned, whatever the disk held before, if no call fails from then on. The encodings are
  -- assumed to be decoded to what was encoded.
  pub load_transaction-prepare :
      (b : TransactionBundle) (p : PreparedTransaction) (w : Disk)
      → (prepare f b w).0 ≡ ok p
      → IsCalm ((prepare f b w).1)
      → load_transaction f p.candidate ((prepare f b w).1) ≡ (ok b, (prepare f b w).1)
  load_transaction-prepare b p w same calm =
      let (_, h) = Outcome-ok {w = w} (prepare_sound f laws (λ _. Unit {0}) b) tt same in
      load_transaction_calm b p.candidate h.bytes ((prepare f b w).1) calm h.stored (sym h.named)
        h.encoded
