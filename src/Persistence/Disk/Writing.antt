-- ===== src/Persistence/Disk/Writing.antt =====
-- The file helpers of src/persistence.rs: what they leave on the disk, whatever call fails.
use ratash.Common.{ℕ, ◌≡◌, refl, ap, ◌∙◌, Bool, true, false, Option, none, some, List, [], ◌∷◌}
use ratash.Common.Result.{Result, ok, err}
use ratash.Common.Attempt.{
  Triple, Keeps, Outcome, Settled, Triple-succeed, Triple-fail, Triple-if, Triple-bind,
  Triple-weaken, Triple-before, Triple-result, Keeps-result,
}
use ratash.Common.Text.{same_text, same_text_iff}
use ratash.Persistence.Disk.{
  Disk, StoredPath, object_path, transaction_path, prepared_json, manifest_json, file_at,
  write_file, Io, IoErrorKind, not_found, already_exists, invalid_data, other, next_fault,
  system_call, found_or_error, found_file, change, read_file, rename, write_and_sync,
  sync_directory, remove_temporary, or_removed, write_new, put_unless_stored, put_immutable,
  replace_private_file,
}

-- A predicate that does not speak of the schedule.
abbrev pub Steady : (Disk → Type 0) → Type 0
Steady R = (w : Disk) (faults : List Bool) → R w → R (record w { faults = faults })

pub Steady-file_at : (path : StoredPath) (o : Option (List ℕ)) → Steady (λ w. file_at path w ≡ o)
unfolding file_at
Steady-file_at (object_path id) o w faults h = h
Steady-file_at (transaction_path id) o w faults h = h
Steady-file_at prepared_json o w faults h = h
Steady-file_at manifest_json o w faults h = h

module _ {R : Disk → Type 0} (steady : Steady R) where
  next_fault-Keeps :
      (faults : List Bool) (w : Disk) → R w → Outcome (λ _. R) (λ _. R) (next_fault faults w)
  unfolding next_fault Outcome
  next_fault-Keeps [] w r = r
  next_fault-Keeps (true ∷ faults) w r = steady w faults r
  next_fault-Keeps (false ∷ faults) w r = steady w faults r

  pub system_call-Keeps : Keeps R system_call
  unfolding system_call
  system_call-Keeps = record { from = λ w r. next_fault-Keeps w.faults w r }

  fault_fails :
      (faults : List Bool) (w : Disk)
      → R w
      → Outcome (λ _. R) (λ e w. R w × (e ≡ other)) (next_fault faults w)
  unfolding next_fault Outcome
  fault_fails [] w r = r
  fault_fails (true ∷ faults) w r = (steady w faults r, refl)
  fault_fails (false ∷ faults) w r = steady w faults r

  pub system_call_fails : Triple R system_call (λ _. R) (λ e w. R w × (e ≡ other))
  unfolding system_call
  system_call_fails = record { from = λ w r. fault_fails w.faults w r }

  pub write_and_sync-Keeps : Keeps R write_and_sync
  unfolding write_and_sync
  write_and_sync-Keeps = Triple-bind system_call-Keeps (λ _. system_call-Keeps)

  pub sync_directory-Keeps : Keeps R sync_directory
  unfolding sync_directory
  sync_directory-Keeps = Triple-bind system_call-Keeps (λ _. system_call-Keeps)

-- What an error of a read says of the file.
abbrev pub Unread : (Disk → Type 0) → StoredPath → IoErrorKind → Disk → Type 0
Unread R path e w = R w × (e ≡ not_found → file_at path w ≡ none)

found_as :
    (R : Disk → Type 0) (path : StoredPath) (o : Option (List ℕ)) (w : Disk)
    → R w
    → file_at path w ≡ o
    → Outcome
        (λ content w. R w × (file_at path w ≡ some content))
        (Unread R path)
        (found_or_error o, w)
unfolding Outcome found_or_error
found_as R path none w r h = (r, λ _. h)
found_as R path (some content) w r h = (r, h)

found_file_sound :
    {R : Disk → Type 0} (path : StoredPath)
    → Triple R
        (found_file path)
        (λ content w. R w × (file_at path w ≡ some content))
        (Unread R path)
unfolding found_file
found_file_sound {R} path = record { from = λ w r. found_as R path (file_at path w) w r refl }

-- A read returns what the file holds.
pub read_file_sound :
    {R : Disk → Type 0}
    → Steady R
    → (path : StoredPath)
    → Triple R (read_file path) (λ content w. R w × (file_at path w ≡ some content)) (Unread R path)
unfolding read_file
read_file_sound steady path =
    Triple-bind
      (Triple-weaken (λ _ w r. r) (λ e w k. (k.0, λ same. cc (same, k.1)))
        (system_call_fails steady))
      (λ _. found_file_sound path)

pub read_file-Keeps :
    {R : Disk → Type 0} → Steady R → (path : StoredPath) → Keeps R (read_file path)
read_file-Keeps steady path =
    Triple-weaken (λ content w h. h.0) (λ e w r. r.0) (read_file_sound steady path)

temporary_removed :
    (Q E : Disk → Type 0)
    → Steady E
    → (r : Result IoErrorKind (Unit {0}))
    → Triple (Settled (λ _. Q) (λ _. E) r) (remove_temporary r) (λ _. Q) (λ _. E)
unfolding remove_temporary Settled
temporary_removed Q E steady (ok _) = Triple-succeed tt (λ w q. q)
temporary_removed Q E steady (err e) =
    Triple-bind (Keeps-result (system_call-Keeps steady)) (λ _. Triple-fail e (λ w r. r))

pub or_removed_ends :
    {P Q E : Disk → Type 0} {m : Io (Unit {0})}
    → Steady E
    → Triple P m (λ _. Q) (λ _. E)
    → Triple P (or_removed m) (λ _. Q) (λ _. E)
unfolding or_removed
or_removed_ends {Q} {E} steady h = Triple-bind (Triple-result h) remaining
  where
    remaining :
        (r : Result IoErrorKind (Unit {0}))
        → Triple (Settled (λ _. Q) (λ _. E) r) (remove_temporary r) (λ _. Q) (λ _. E)
    remaining r = temporary_removed Q E steady r

-- What a written file establishes: `Q` once it is renamed, and `E` wherever the writing stops.
pub record Writes (path : StoredPath) (content : List ℕ) (R Q E : Disk → Type 0) : Type 0 where
  pub before : Steady R
  pub after : Steady Q
  pub failed : Steady E
  pub untouched : (w : Disk) → R w → E w
  pub written : (w : Disk) → R w → Q (write_file path content w)
  pub unsynced : (w : Disk) → Q w → E w

module _ {path : StoredPath} {content : List ℕ} {R Q E : Disk → Type 0}
    (h : Writes path content R Q E) where
  call_before : Triple R system_call (λ _. R) (λ _. E)
  call_before = Triple-weaken (λ _ w r. r) (λ _ w r. h.untouched w r) (system_call-Keeps h.before)

  written_before : Triple R (or_removed write_and_sync) (λ _. R) (λ _. E)
  written_before =
      or_removed_ends h.failed
        (Triple-weaken (λ _ w r. r) (λ _ w r. h.untouched w r) (write_and_sync-Keeps h.before))

  change_writes : Triple R (change (write_file path content)) (λ _. Q) (λ _. E)
  unfolding change Outcome
  change_writes = record { from = λ w r. h.written w r }

  rename_writes : Triple R (rename path content) (λ _. Q) (λ _. E)
  unfolding rename
  rename_writes = Triple-bind call_before (λ _. change_writes)

  synced : Triple Q sync_directory (λ _. Q) (λ _. E)
  synced = Triple-weaken (λ _ w q. q) (λ _ w q. h.unsynced w q) (sync_directory-Keeps h.after)

  write_new_writes : Triple R (write_new path content) (λ _. Q) (λ _. E)
  unfolding write_new
  write_new_writes = Triple-bind call_before (λ _.
      Triple-bind written_before
        (λ _. Triple-bind (or_removed_ends h.failed rename_writes) (λ _. synced)))

  pub replace_private_file_writes : Triple R (replace_private_file path content) (λ _. Q) (λ _. E)
  unfolding replace_private_file
  replace_private_file_writes = Triple-bind call_before (λ _.
      Triple-bind call_before
        (λ _. Triple-bind written_before (λ _. Triple-bind rename_writes (λ _. synced))))

  put_compared :
      ((w : Disk) → R w → file_at path w ≡ some content → Q w)
      → (r : Result IoErrorKind (List ℕ))
      → Triple
          (Settled (λ c w. R w × (file_at path w ≡ some c)) (Unread R path) r)
          (put_unless_stored path content r)
          (λ _. Q)
          (λ _. E)
  unfolding put_unless_stored Settled
  put_compared there (ok stored) =
      Triple-if (same_text stored content)
        (λ same.
          Triple-succeed tt
            (λ w k. there w k.0 (k.1 ∙ ap some ((same_text_iff stored content).0 same))))
        (λ _. Triple-before (λ w k. k.0) write_new_writes)
  put_compared there (err not_found) = Triple-before (λ w k. k.0) write_new_writes
  put_compared there (err already_exists) = Triple-fail already_exists (λ w k. h.untouched w k.0)
  put_compared there (err invalid_data) = Triple-fail invalid_data (λ w k. h.untouched w k.0)
  put_compared there (err other) = Triple-fail other (λ w k. h.untouched w k.0)

  -- The same of `put_immutable`, which leaves a file alone that holds the content already.
  pub put_immutable_writes :
      ((w : Disk) → R w → file_at path w ≡ some content → Q w)
      → Triple R (put_immutable path content) (λ _. Q) (λ _. E)
  unfolding put_immutable
  put_immutable_writes there = Triple-bind (Triple-result (read_file_sound h.before path)) compared
    where
      compared :
          (r : Result IoErrorKind (List ℕ))
          → Triple
              (Settled (λ c w. R w × (file_at path w ≡ some c)) (Unread R path) r)
              (put_unless_stored path content r)
              (λ _. Q)
              (λ _. E)
      compared r = put_compared there r

pub found_file-Keeps : {R : Disk → Type 0} (path : StoredPath) → Keeps R (found_file path)
found_file-Keeps path = Triple-weaken (λ _ w h. h.0) (λ _ w h. h.0) (found_file_sound path)
