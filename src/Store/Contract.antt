-- ===== src/Store/Contract.antt =====
-- The contract of `ObjectStore`, and `LocalObjectStore` as a server of its requests.
use legal_genie_agent.Prelude.{
  ℕ, length, Bool, true, false, not, ◌&&◌, String, ◌≡◌, ◌⊎◌, Option, none, some, List,
  if◌then◌else◌,
}
use legal_genie_agent.Sql.{World, Result, ok, err, pure, ◌>>=◌, ◌>>◌}
use legal_genie_agent.Store.{
  Bytes, Disk, location, same_names, is_file, is_directory, Io, put_bytes, read_bytes, delete,
  size_of,
}
use legal_genie_agent.Store.Works.{is_blocked}
use legal_genie_agent.Store.Laws.{contents}

-- The store that a caller sees, with an object replaced.
abbrev pub stored :
    List String → Option Bytes → (List String → Option Bytes) → List String → Option Bytes
stored names v objects k = if same_names k names then v else objects k

-- What a caller asks of a store, and its answer.
pub data Request : Type 0 where
  put : String → Bytes → Request
  read : String → Request
  remove : String → Request
  size : String → Request

pub data Answer : Type 0 where
  done : Answer
  object : Bytes → Answer
  bytes_in : ℕ → Answer

-- The `LocalObjectStore` that answers it.
unfoldable pub serve : (directory_size : ℕ) → Request → Io Answer
serve directory_size (put rel_path bytes) = do put_bytes rel_path bytes; pure done
serve directory_size (read rel_path) = do bytes ← read_bytes rel_path; pure (object bytes)
serve directory_size (remove rel_path) = do delete rel_path; pure done
serve directory_size (size rel_path) = do n ← size_of directory_size rel_path; pure (bytes_in n)

abbrev pub answer_in : Result String Answer → Option Answer
answer_in (ok a) = some a
answer_in (err e) = none

abbrev pub Objects : Type 0
Objects = List String → Option Bytes

abbrev pub found : Option Bytes → Option Answer
found none = none
found (some b) = some (object b)

abbrev pub measured : Option Bytes → Option Answer
measured none = none
measured (some b) = some (bytes_in (length b))

-- What it stands for: a map from the names of a path to an object.
abbrev pub answer_of : Request → Objects → Option Answer
answer_of (put rel_path bytes) objects = some done
answer_of (read rel_path) objects = found (objects (location rel_path))
answer_of (remove rel_path) objects = some done
answer_of (size rel_path) objects = measured (objects (location rel_path))

abbrev pub objects_after : Request → Objects → Objects
objects_after (put rel_path bytes) objects = stored (location rel_path) (some bytes) objects
objects_after (read rel_path) objects = objects
objects_after (remove rel_path) objects = stored (location rel_path) none objects
objects_after (size rel_path) objects = objects

-- Where a directory, or a file among the directories of a path, comes in the way: the store is no
-- map there.
abbrev pub meets_directory : Request → Disk → Bool
meets_directory (put rel_path bytes) d = is_blocked (location rel_path) d
meets_directory (read rel_path) d = false
meets_directory (remove rel_path) d =
    not (is_file d (location rel_path)) && is_directory d (location rel_path)
meets_directory (size rel_path) d =
    not (is_file d (location rel_path)) && is_directory d (location rel_path)

-- The answer there: the directory's own size, or an error.
abbrev pub answer_at_directory : (directory_size : ℕ) → Request → Option Answer
answer_at_directory directory_size (put rel_path bytes) = none
answer_at_directory directory_size (read rel_path) = none
answer_at_directory directory_size (remove rel_path) = none
answer_at_directory directory_size (size rel_path) = some (bytes_in directory_size)

-- What a call on a disk has answered, and made of the object under `k`.
abbrev pub Behaves :
    (directory_size : ℕ) → Request → Disk → List String → Result String Answer × World Disk → Type 0
Behaves directory_size r d k after =
    (meets_directory r d ≡ false)
      × (answer_in after.0 ≡ answer_of r (contents d.files))
      × (contents after.1.tables.files k ≡ objects_after r (contents d.files) k)
    ⊎ (meets_directory r d ≡ true)
      × (answer_in after.0 ≡ answer_at_directory directory_size r)
      × (contents after.1.tables.files k ≡ contents d.files k)
