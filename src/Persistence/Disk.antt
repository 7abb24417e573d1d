-- ===== src/Persistence/Disk.antt =====
-- The part of a file system that src/persistence.rs uses, and its helpers that write a file. A
-- call of the file system fails when the schedule of the disk says so; a temporary file has a
-- name that nothing reads, so that it is not a part of the disk.
pub mod Writing
pub mod Calm
use ratash.Common.{
  ℕ, ◌+◌, ◌≡◌, refl, Bool, true, false, Option, none, some, List, [], ◌∷◌, if◌then◌else◌, arith,
  ◌==◌,
}
use ratash.Common.Map
use ratash.Common.Map.{Map}
use ratash.Common.Result.{Result, ok, err}
use ratash.Common.Attempt.{Attempt, ◌>>=◌, succeed, fail, result}
use ratash.Common.Text.{same_text}

-- The kinds of `io::Error` that the store makes or reads; `other` is every other.
pub data IoErrorKind : Type 0 where
  not_found : IoErrorKind
  already_exists : IoErrorKind
  invalid_data : IoErrorKind
  other : IoErrorKind

pub record Disk : Type 0 where
  pub objects : Map (List ℕ)
  pub transactions : Map (List ℕ)
  pub prepared : Option (List ℕ)
  pub manifest : Option (List ℕ)
  pub faults : List Bool

pub data StoredPath : Type 0 where
  object_path : ℕ → StoredPath
  transaction_path : ℕ → StoredPath
  prepared_json : StoredPath
  manifest_json : StoredPath

unfoldable pub file_at : StoredPath → Disk → Option (List ℕ)
file_at (object_path id) w = Map.get id w.objects
file_at (transaction_path id) w = Map.get id w.transactions
file_at prepared_json w = w.prepared
file_at manifest_json w = w.manifest

unfoldable pub write_file : StoredPath → List ℕ → Disk → Disk
write_file (object_path id) content w = record w { objects = Map.insert id content w.objects }
write_file (transaction_path id) content w = record w {
  transactions = Map.insert id content w.transactions;
}
write_file prepared_json content w = record w { prepared = some content }
write_file manifest_json content w = record w { manifest = some content }

unfoldable pub delete_file : StoredPath → Disk → Disk
delete_file (object_path id) w = record w { objects = Map.remove id w.objects }
delete_file (transaction_path id) w = record w { transactions = Map.remove id w.transactions }
delete_file prepared_json w = record w { prepared = none }
delete_file manifest_json w = record w { manifest = none }

abbrev pub Io : Type 0 → Type 0
Io A = Attempt Disk IoErrorKind A

unfoldable pub next_fault : List Bool → Disk → Result IoErrorKind (Unit {0}) × Disk
next_fault [] w = (ok tt, w)
next_fault (true ∷ faults) w = (err other, record w { faults = faults })
next_fault (false ∷ faults) w = (ok tt, record w { faults = faults })

-- One call of the file system.
unfoldable pub system_call : Io (Unit {0})
unfolding next_fault
system_call w = next_fault w.faults w

unfoldable pub found_or_error : Option (List ℕ) → Result IoErrorKind (List ℕ)
found_or_error none = err not_found
found_or_error (some content) = ok content

unfoldable pub found_file : StoredPath → Io (List ℕ)
unfolding found_or_error
found_file path w = (found_or_error (file_at path w), w)

unfoldable pub change : (Disk → Disk) → Io (Unit {0})
change f w = (ok tt, f w)

-- `fs::read`.
unfoldable pub read_file : StoredPath → Io (List ℕ)
read_file path = do _ ← system_call; found_file path

-- `fs::rename` of a temporary file that holds `content`.
unfoldable pub rename : StoredPath → List ℕ → Io (Unit {0})
rename path content = do _ ← system_call; change (write_file path content)

unfoldable pub write_and_sync : Io (Unit {0})
write_and_sync = do _ ← system_call; system_call

unfoldable pub sync_directory : Io (Unit {0})
sync_directory = do _ ← system_call; system_call

-- `let _ = fs::remove_file(&temporary)` before an early return.
unfoldable pub remove_temporary : Result IoErrorKind (Unit {0}) → Io (Unit {0})
remove_temporary (ok _) = succeed tt
remove_temporary (err e) = do _ ← result system_call; fail e

unfoldable pub or_removed : Io (Unit {0}) → Io (Unit {0})
or_removed m = do r ← result m; remove_temporary r

-- The part of `put_immutable` after the comparison.
unfoldable pub write_new : StoredPath → List ℕ → Io (Unit {0})
write_new path content = do
  _ ← system_call
  _ ← or_removed write_and_sync
  _ ← or_removed (rename path content)
  sync_directory

unfoldable pub put_unless_stored : StoredPath → List ℕ → Result IoErrorKind (List ℕ) → Io (Unit {0})
put_unless_stored path content (ok stored) =
    if same_text stored content then succeed tt else write_new path content
put_unless_stored path content (err not_found) = write_new path content
put_unless_stored path content (err e) = fail e

unfoldable pub put_immutable : StoredPath → List ℕ → Io (Unit {0})
put_immutable path content = do
  stored ← result (read_file path)
  put_unless_stored path content stored

unfoldable pub replace_private_file : StoredPath → List ℕ → Io (Unit {0})
replace_private_file path content = do
  _ ← system_call
  _ ← system_call
  _ ← or_removed write_and_sync
  _ ← rename path content
  sync_directory

-- `fs::remove_file`, of a file that is there.
unfoldable pub remove_file : StoredPath → Io (Unit {0})
remove_file path = do _ ← system_call; _ ← found_file path; change (delete_file path)

-- `create_dir_all` and `set_permissions`; the directories of the store are not a part of the disk.
unfoldable pub create_private_directory : Io (Unit {0})
create_private_directory = do _ ← system_call; system_call
