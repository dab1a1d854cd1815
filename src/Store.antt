-- ===== src/Store.antt =====
-- server/src/store.rs: objects under paths, kept in files below a directory. A disk is the files
-- and directories below the root; the names of a path are what the system makes of its components,
-- where `.` changes nothing. Each call of the system may fail, as a statement does in Sql.
pub mod Laws
pub mod Writes
pub mod Works
pub mod Contract
pub mod Refines
mod Tests
use legal_genie_agent.Prelude.{
  ℕ, String, ◌<>◌, ◌=s◌, Bool, true, false, not, ◌&&◌, ◌||◌, Option, none, some, List, [], ◌∷◌,
  ◌++◌, any, length, if◌then◌else◌,
}
use legal_genie_agent.Sql.{
  Result, ok, err, Action, pure, raise, query, statement, execute, on_row, attempt, ◌>>=◌, ◌>>◌,
}
use legal_genie_agent.Sql.Rows.{first_where, update_where, delete_where}
use legal_genie_agent.Paths.{Component, root_dir, cur_dir, parent_dir, normal, components}

abbrev pub Bytes : Type 0
Bytes = List ℕ

pub record File : Type 0 where
  pub names : List String
  pub bytes : Bytes

pub record Disk : Type 0 where
  pub directories : List (List String)
  pub files : List File

-- The filter of `resolve`.
abbrev pub stays : Component → Bool
stays root_dir = false
stays cur_dir = true
stays parent_dir = false
stays (normal s) = true

unfoldable pub clean : List Component → List Component
clean [] = []
clean (c ∷ cs) = let rest = clean cs in if stays c then c ∷ rest else rest

-- `resolve`, and so `full_path`
unfoldable pub resolve : List Component → String → List Component
resolve root rel_path = root ++ clean (components rel_path)

-- Where the system finds a clean path below the root.
unfoldable pub names_of : List Component → List String
names_of [] = []
names_of (normal s ∷ cs) = s ∷ names_of cs
names_of (c ∷ cs) = names_of cs

unfoldable pub location : String → List String
location rel_path = names_of (clean (components rel_path))

unfoldable pub same_names : List String → List String → Bool
same_names [] [] = true
same_names (s ∷ ss) (t ∷ ts) = s =s t && same_names ss ts
same_names _ _ = false

abbrev pub below : String → List (List String) → List (List String)
below s [] = []
below s (p ∷ ps) = (s ∷ p) ∷ below s ps

-- The directories that lead to a place, the root first.
unfoldable pub leading : List String → List (List String)
leading [] = []
leading (s ∷ ss) = [] ∷ below s (leading ss)

unfoldable pub at : List String → File → Bool
at names f = same_names f.names names

unfoldable pub find_file : List String → Disk → Option File
find_file names d = first_where (at names) d.files

abbrev pub is_some : Option File → Bool
is_some none = false
is_some (some f) = true

unfoldable pub is_file : Disk → List String → Bool
is_file d names = is_some (find_file names d)

-- The root is a directory.
unfoldable pub is_directory : Disk → List String → Bool
is_directory d [] = true
is_directory d (s ∷ ss) = any (same_names (s ∷ ss)) d.directories

abbrev pub Io : Type 0 → Type 0
Io A = Action Disk String A

abbrev pub io : String → String
io e = e

-- `tokio::fs::create_dir_all` of the directory of a place
unfoldable pub create_parents : List String → Disk → Result String (Unit {0} × Disk)
create_parents names d =
    if any (is_file d) (leading names)
    then err "Not a directory"
    else ok (tt, record d { directories = d.directories ++ leading names })

-- `File::create`, which empties the file that is there
unfoldable pub create_file : List String → Disk → Result String (Unit {0} × Disk)
create_file names d =
    if is_directory d names
    then err "Is a directory"
    else if is_file d names
    then ok
        (tt, record d { files = update_where (at names) (λ f. record f { bytes = [] }) d.files })
    else ok (tt, record d { files = d.files ++ record { names = names; bytes = [] } ∷ [] })

unfoldable pub append_byte : List String → ℕ → Disk → Unit {0} × Disk
append_byte names b d = (
  tt,
  record d {
    files = update_where (at names) (λ f. record f { bytes = f.bytes ++ b ∷ [] }) d.files;
  },
)

-- `write_all`: a failure leaves what was written before it.
unfoldable pub write_all : List String → Bytes → Io (Unit {0})
write_all names [] = pure tt
write_all names (b ∷ bs) = execute io (append_byte names b) >> write_all names bs

-- `put_bytes`
unfoldable pub put_bytes : String → Bytes → Io (Unit {0})
put_bytes rel_path bytes = do
  let names = location rel_path
  statement io (create_parents names)
  statement io (create_file names)
  write_all names bytes

-- `read_bytes`
unfoldable pub read_bytes : String → Io Bytes
read_bytes rel_path = do
  f ← query io (find_file (location rel_path))
  on_row f (raise "No such file or directory") λ f. pure f.bytes

abbrev pub exists : Result String Bool → Bool
exists (ok b) = b
exists (err e) = false

unfoldable pub remove_file : List String → Disk → Result String (Unit {0} × Disk)
remove_file names d =
    if is_file d names
    then ok (tt, record d { files = delete_where (at names) d.files })
    else err "Is a directory"

-- `delete`
unfoldable pub delete : String → Io (Unit {0})
delete rel_path = do
  let names = location rel_path
  found ← attempt (query {E = String} io (λ d. is_file d names || is_directory d names))
  if exists found then statement io (remove_file names) else pure tt

-- `size_of` of a file; the size of a directory is the system's.
unfoldable pub size_of : (directory_size : ℕ) → String → Io ℕ
size_of directory_size rel_path = do
  let names = location rel_path
  d ← query io (λ d. d)
  on_row (find_file names d)
      (if is_directory d names then pure directory_size else raise "No such file or directory")
      λ f. pure (length f.bytes)
