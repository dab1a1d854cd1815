-- ===== src/Store/Works.antt =====
-- What `put_bytes` answers over a disk that does not fail.
use legal_genie_agent.Prelude.{
  String, ◌≡◌, refl, ◌∙◌, Bool, true, false, ◌||◌, eq_refl, List, [], ◌∷◌, ◌++◌, any, arith,
  Bool-cases, inl, inr,
}
use legal_genie_agent.Sql.{healthy, ok, err}
use legal_genie_agent.Store.{
  Bytes, Disk, location, same_names, below, leading, is_file, is_directory, create_parents,
  create_file, write_all, put_bytes,
}

any-append :
    {A : Type 0} (p : A → Bool) (xs ys : List A) → any p (xs ++ ys) ≡ (any p xs || any p ys)
any-append p [] ys = refl
any-append p (x ∷ xs) ys = elim (Bool-cases (p x)) [
  | inl fits ↦ rw fits refl
  | inr fails ↦ rw fails (any-append p xs ys)
]

any-below :
    (s : String) (ss : List String) (ps : List (List String))
    → any (same_names (s ∷ ss)) (below s ps) ≡ any (same_names ss) ps
unfolding same_names
any-below s ss [] = refl
any-below s ss (p ∷ ps) = rw (eq_refl s, any-below s ss ps) refl

-- A place does not lead to itself.
not_leading : (names : List String) → any (same_names names) (leading names) ≡ false
unfolding leading same_names
not_leading [] = refl
not_leading (s ∷ ss) = any-below s ss (leading ss) ∙ not_leading ss

-- The directories that `put_bytes` makes.
abbrev with_parents : List String → Disk → Disk
with_parents names d = record d { directories = d.directories ++ leading names }

same_directory :
    (names : List String) (d : Disk)
    → is_directory (with_parents names d) names ≡ is_directory d names
unfolding is_directory
same_directory [] d = refl
same_directory (s ∷ ss) d =
    any-append (same_names (s ∷ ss)) d.directories (leading (s ∷ ss)) ∙ without
  where
    without :
        (any (same_names (s ∷ ss)) d.directories || any (same_names (s ∷ ss)) (leading (s ∷ ss)))
        ≡ any (same_names (s ∷ ss)) d.directories
    without = ground (arith, not_leading (s ∷ ss))

-- What is in the way of an object: a file among its directories, or a directory in its place.
unfoldable pub is_blocked : List String → Disk → Bool
is_blocked names d = any (is_file d) (leading names) || is_directory d names

writes_all :
    (names : List String) (bytes : Bytes) (d : Disk) → (write_all names bytes (healthy d)).0 ≡ ok tt
unfolding write_all
writes_all names [] d = refl
writes_all names (b ∷ bs) d = writes_all names bs _

pub put_works :
    (rel_path : String) (bytes : Bytes) (d : Disk)
    → is_blocked (location rel_path) d ≡ false
    → (put_bytes rel_path bytes (healthy d)).0 ≡ ok tt
unfolding put_bytes create_parents create_file is_blocked
put_works rel_path bytes d free =
    let names = location rel_path in
    let clear : any (is_file d) (leading names) ≡ false = ground arith in
    let place : is_directory (with_parents names d) names ≡ false =
      same_directory names d ∙ ground arith in
    elim (Bool-cases (is_file (with_parents names d) names)) [
      | inl there ↦ rw (clear, place, there) (writes_all names bytes _)
      | inr fresh ↦ rw (clear, place, fresh) (writes_all names bytes _)
    ]

pub put_refused :
    (rel_path : String) (bytes : Bytes) (d : Disk)
    → is_blocked (location rel_path) d ≡ true
    → (e : String) × ((put_bytes rel_path bytes (healthy d)).0 ≡ err e)
      × ((put_bytes rel_path bytes (healthy d)).1.tables.files ≡ d.files)
unfolding put_bytes create_parents create_file is_blocked
put_refused rel_path bytes d blocked =
    let names = location rel_path in
    elim (Bool-cases (any (is_file d) (leading names))) [
      | inl file ↦ ("Not a directory", rw file refl, rw file refl)
      | inr clear ↦
          let place : is_directory (with_parents names d) names ≡ true =
            same_directory names d ∙ ground arith in
          ("Is a directory", rw (clear, place) refl, rw (clear, place) refl)
    ]
