-- ===== src/Persistence/Disk/Calm.antt =====
-- The file helpers of src/persistence.rs on a disk whose calls do not fail.
use ratash.Common.{ℕ, ◌≡◌, refl, ap, ◌∙◌, Option, none, some, List, [], Bool-cases, inl, inr, ◌⊎◌}
use ratash.Common.Result.{ok}
use ratash.Common.Attempt.{◌>>=◌, succeed, result, run-bind, run-result}
use ratash.Common.Text.{same_text, same_text_iff}
use ratash.Persistence.Disk.{
  Disk, StoredPath, object_path, transaction_path, prepared_json, manifest_json, file_at,
  write_file, delete_file, Io, next_fault, system_call, found_or_error, found_file, change,
  read_file, rename, write_and_sync, sync_directory, remove_temporary, or_removed, write_new,
  put_unless_stored, put_immutable, replace_private_file, remove_file,
}

-- No call fails from here on.
abbrev pub IsCalm : Disk → Type 0
IsCalm w = w.faults ≡ []

write_file-IsCalm :
    (path : StoredPath) (content : List ℕ) (w : Disk)
    → IsCalm w
    → IsCalm (write_file path content w)
unfolding write_file
write_file-IsCalm (object_path id) content w calm = calm
write_file-IsCalm (transaction_path id) content w calm = calm
write_file-IsCalm prepared_json content w calm = calm
write_file-IsCalm manifest_json content w calm = calm

no_fault : (w : Disk) → next_fault [] w ≡ (ok tt, w)
unfolding next_fault
no_fault w = refl

pub system_call_calm : (w : Disk) → IsCalm w → system_call w ≡ (ok tt, w)
unfolding system_call
system_call_calm w calm = ap (λ faults. next_fault faults w) calm ∙ no_fault w

found_file_calm :
    (path : StoredPath) (o : Option (List ℕ)) (w : Disk)
    → file_at path w ≡ o
    → found_file path w ≡ (found_or_error o, w)
unfolding found_file
found_file_calm path o w here = ap (λ o. (found_or_error o, w)) here

found_calm :
    (path : StoredPath) (content : List ℕ) (w : Disk)
    → file_at path w ≡ some content
    → found_file path w ≡ (ok content, w)
unfolding found_or_error
found_calm path content w here = found_file_calm path (some content) w here

pub read_file_calm :
    (path : StoredPath) (o : Option (List ℕ)) (w : Disk)
    → IsCalm w
    → file_at path w ≡ o
    → read_file path w ≡ (found_or_error o, w)
unfolding read_file
read_file_calm path o w calm here =
    run-bind system_call _ w w tt (system_call_calm w calm) ∙ found_file_calm path o w here

change_calm : (f : Disk → Disk) (w : Disk) → change f w ≡ (ok tt, f w)
unfolding change
change_calm f w = refl

two_calls_calm : (w : Disk) → IsCalm w → (do _ ← system_call; system_call) w ≡ (ok tt, w)
two_calls_calm w calm =
    run-bind system_call _ w w tt (system_call_calm w calm) ∙ system_call_calm w calm

pub sync_directory_calm : (w : Disk) → IsCalm w → sync_directory w ≡ (ok tt, w)
unfolding sync_directory
sync_directory_calm w calm = two_calls_calm w calm

write_and_sync_calm : (w : Disk) → IsCalm w → write_and_sync w ≡ (ok tt, w)
unfolding write_and_sync
write_and_sync_calm w calm = two_calls_calm w calm

rename_calm :
    (path : StoredPath) (content : List ℕ) (w : Disk)
    → IsCalm w
    → rename path content w ≡ (ok tt, write_file path content w)
unfolding rename
rename_calm path content w calm =
    run-bind system_call _ w w tt (system_call_calm w calm)
    ∙ change_calm (write_file path content) w

or_removed_calm : (m : Io (Unit {0})) (w v : Disk) → m w ≡ (ok tt, v) → or_removed m w ≡ (ok tt, v)
unfolding or_removed remove_temporary succeed
or_removed_calm m w v h = run-bind (result m) _ w v (ok tt) (run-result m w v (ok tt) h)

write_new_calm :
    (path : StoredPath) (content : List ℕ) (w : Disk)
    → IsCalm w
    → write_new path content w ≡ (ok tt, write_file path content w)
unfolding write_new
write_new_calm path content w calm =
    let v = write_file path content w in
    run-bind system_call _ w w tt (system_call_calm w calm)
    ∙ run-bind (or_removed write_and_sync) _ w w tt
        (or_removed_calm write_and_sync w w (write_and_sync_calm w calm))
    ∙ run-bind (or_removed (rename path content)) _ w v tt
        (or_removed_calm (rename path content) w v (rename_calm path content w calm))
    ∙ sync_directory_calm v (write_file-IsCalm path content w calm)

pub replace_private_file_calm :
    (path : StoredPath) (content : List ℕ) (w : Disk)
    → IsCalm w
    → replace_private_file path content w ≡ (ok tt, write_file path content w)
unfolding replace_private_file
replace_private_file_calm path content w calm =
    let v = write_file path content w in
    run-bind system_call _ w w tt (system_call_calm w calm)
    ∙ run-bind system_call _ w w tt (system_call_calm w calm)
    ∙ run-bind (or_removed write_and_sync) _ w w tt
        (or_removed_calm write_and_sync w w (write_and_sync_calm w calm))
    ∙ run-bind (rename path content) _ w v tt (rename_calm path content w calm)
    ∙ sync_directory_calm v (write_file-IsCalm path content w calm)

put_unless_stored_calm :
    (path : StoredPath) (content : List ℕ) (o : Option (List ℕ)) (w : Disk)
    → IsCalm w
    → (put_unless_stored path content (found_or_error o) w ≡ (ok tt, write_file path content w))
      ⊎ ((put_unless_stored path content (found_or_error o) w ≡ (ok tt, w)) × (o ≡ some content))
unfolding put_unless_stored found_or_error succeed
put_unless_stored_calm path content none w calm = inl (write_new_calm path content w calm)
put_unless_stored_calm path content (some stored) w calm =
    elim (Bool-cases (same_text stored content)) [
      | inl same ↦ inr (rw same refl, ap some ((same_text_iff stored content).0 same))
      | inr other ↦ inl (rw other (write_new_calm path content w calm))
    ]

-- A file that is put is written, or holds the content already.
pub put_immutable_calm :
    (path : StoredPath) (content : List ℕ) (w : Disk)
    → IsCalm w
    → (put_immutable path content w ≡ (ok tt, write_file path content w))
      ⊎ ((put_immutable path content w ≡ (ok tt, w)) × (file_at path w ≡ some content))
unfolding put_immutable
put_immutable_calm path content w calm =
    let o = file_at path w in
    let first =
      run-bind (result (read_file path)) (put_unless_stored path content) w w (found_or_error o)
        (run-result (read_file path) w w (found_or_error o) (read_file_calm path o w calm refl)) in
    elim (put_unless_stored_calm path content o w calm) [
      | inl e ↦ inl (first ∙ e)
      | inr (e, same) ↦ inr (first ∙ e, same)
    ]

pub remove_file_calm :
    (path : StoredPath) (content : List ℕ) (w : Disk)
    → IsCalm w
    → file_at path w ≡ some content
    → remove_file path w ≡ (ok tt, delete_file path w)
unfolding remove_file
remove_file_calm path content w calm here =
    run-bind system_call _ w w tt (system_call_calm w calm)
    ∙ run-bind (found_file path) _ w w content (found_calm path content w here)
    ∙ change_calm (delete_file path) w
