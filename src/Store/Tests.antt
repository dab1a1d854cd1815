-- ===== src/Store/Tests.antt =====
-- A file that a path with `..` names, on an empty disk.
use mathlib.Core.Logic.{◌⊎◌}
use legal_genie_agent.Prelude.{◌≡◌, refl, All, none, some, List, [], ◌∷◌, ◌++◌}
use legal_genie_agent.Sql.{World, healthy, ok}
use legal_genie_agent.Paths.{Component, root_dir, normal}
use legal_genie_agent.Store.{Bytes, Disk, resolve, location, put_bytes, read_bytes}
use legal_genie_agent.Store.Laws.{Descends, resolve-Descends, contents}
use legal_genie_agent.Store.Contract.{put, done, serve, stored}
use legal_genie_agent.Store.Refines.{put_leaves_prefix}

abbrev storage : List Component
storage = root_dir ∷ normal "storage" ∷ []

resolve-Descends_example :
    (below : List Component) × (resolve storage "../../etc/passwd" ≡ storage ++ below)
    × All Descends below
resolve-Descends_example = resolve-Descends storage "../../etc/passwd"

stays_inside :
    resolve storage "../../etc/passwd"
    ≡ root_dir ∷ normal "storage" ∷ normal "etc" ∷ normal "passwd" ∷ []
unfolding resolve legal_genie_agent.Store.clean legal_genie_agent.Paths.components
    legal_genie_agent.Paths.segments legal_genie_agent.Paths.later_components
stays_inside = refl

abbrev no_files : Disk
no_files = record { directories = []; files = [] }

abbrev two_bytes : Bytes
two_bytes = 7 ∷ 9 ∷ []

-- The disk fails at the second byte.
abbrev failing : World Disk
failing = record { tables = no_files; faults = none ∷ none ∷ none ∷ some "disk full" ∷ [] }

put_leaves_prefix_example :
    (contents (put_bytes "k1/a.txt" two_bytes failing).1.tables.files ("k1" ∷ "a.txt" ∷ [])
      ≡ contents [] ("k1" ∷ "a.txt" ∷ []))
    ⊎ ((part : Bytes) × (left : Bytes) × (two_bytes ≡ part ++ left)
        × (contents (put_bytes "k1/a.txt" two_bytes failing).1.tables.files ("k1" ∷ "a.txt" ∷ [])
            ≡ stored (location "k1/a.txt") (some part) (contents []) ("k1" ∷ "a.txt" ∷ [])))
put_leaves_prefix_example = put_leaves_prefix "k1/a.txt" two_bytes failing ("k1" ∷ "a.txt" ∷ [])

half_written :
    contents (put_bytes "k1/a.txt" two_bytes failing).1.tables.files ("k1" ∷ "a.txt" ∷ [])
    ≡ some (7 ∷ [])
unfolding contents put_bytes serve location legal_genie_agent.Store.create_parents
    legal_genie_agent.Store.leading legal_genie_agent.Store.names_of legal_genie_agent.Store.clean
    legal_genie_agent.Store.write_all legal_genie_agent.Store.append_byte
    legal_genie_agent.Store.create_file legal_genie_agent.Store.is_file
    legal_genie_agent.Store.find_file legal_genie_agent.Store.is_directory
    legal_genie_agent.Store.same_names legal_genie_agent.Store.at legal_genie_agent.Paths.components
    legal_genie_agent.Paths.segments legal_genie_agent.Paths.later_components
    legal_genie_agent.Sql.Rows.first_where legal_genie_agent.Sql.Rows.update_where
half_written = refl

stored_well : (put_bytes "k1/a.txt" two_bytes (healthy no_files)).0 ≡ ok tt
unfolding contents put_bytes serve location legal_genie_agent.Store.create_parents
    legal_genie_agent.Store.leading legal_genie_agent.Store.names_of legal_genie_agent.Store.clean
    legal_genie_agent.Store.write_all legal_genie_agent.Store.append_byte
    legal_genie_agent.Store.create_file legal_genie_agent.Store.is_file
    legal_genie_agent.Store.find_file legal_genie_agent.Store.is_directory
    legal_genie_agent.Store.same_names legal_genie_agent.Store.at legal_genie_agent.Paths.components
    legal_genie_agent.Paths.segments legal_genie_agent.Paths.later_components
    legal_genie_agent.Sql.Rows.first_where legal_genie_agent.Sql.Rows.update_where
stored_well = refl

served : (serve 4096 (put "k1/a.txt" two_bytes) (healthy no_files)).0 ≡ ok done
unfolding contents put_bytes serve location legal_genie_agent.Store.create_parents
    legal_genie_agent.Store.leading legal_genie_agent.Store.names_of legal_genie_agent.Store.clean
    legal_genie_agent.Store.write_all legal_genie_agent.Store.append_byte
    legal_genie_agent.Store.create_file legal_genie_agent.Store.is_file
    legal_genie_agent.Store.find_file legal_genie_agent.Store.is_directory
    legal_genie_agent.Store.same_names legal_genie_agent.Store.at legal_genie_agent.Paths.components
    legal_genie_agent.Paths.segments legal_genie_agent.Paths.later_components
    legal_genie_agent.Sql.Rows.first_where legal_genie_agent.Sql.Rows.update_where
served = refl
