-- ===== src/Paths.antt =====
-- Rust's `std::path` on Unix, as server/src/store.rs and server/src/file_security.rs use it.
mod Tests
use Prim.Native.Char.{Char, code}
use Prim.Native.String.{[] as ε, ◌∷◌ as ◌▸◌}
use legal_genie_agent.Prelude.{
  String, ◌=s◌, Bool, true, false, Option, none, some, List, [], ◌∷◌, ◌==◌, if◌then◌else◌, is_empty,
}

-- `Component`; a path on Unix has no prefix.
pub data Component : Type 0 where
  root_dir cur_dir parent_dir : Component
  normal : String → Component

abbrev in_front : Char → List String → List String
in_front c [] = (c ▸ ε) ∷ []
in_front c (s ∷ ss) = (c ▸ s) ∷ ss

-- The texts between the slashes.
unfoldable pub segments : String → List String
segments ε = ε ∷ []
segments (c ▸ s) = let rest = segments s in if code c == 47 then ε ∷ rest else in_front c rest

-- The components of the segments after the first; empty ones and `.` are none.
unfoldable pub later_components : List String → List Component
later_components [] = []
later_components (s ∷ ss) =
    let rest = later_components ss in
    if is_empty s
    then rest
    else if s =s "."
    then rest
    else if s =s ".."
    then parent_dir ∷ rest
    else normal s ∷ rest

-- A path in front of whose first slash there is nothing begins at the root.
abbrev pub first_components : List String → List Component
first_components [] = []
first_components (s ∷ []) = if s =s "." then cur_dir ∷ [] else later_components (s ∷ [])
first_components (s ∷ t ∷ ss) =
    if is_empty s
    then root_dir ∷ later_components (t ∷ ss)
    else if s =s "."
    then cur_dir ∷ later_components (t ∷ ss)
    else later_components (s ∷ t ∷ ss)

-- `Path::components`
unfoldable pub components : String → List Component
components path = first_components (segments path)

-- `Path::file_name`: the last component, if it is a name.
unfoldable pub last_name : List Component → Option String
last_name [] = none
last_name (normal s ∷ []) = some s
last_name (c ∷ []) = none
last_name (c ∷ d ∷ cs) = last_name (d ∷ cs)

unfoldable pub file_name : String → Option String
file_name path = last_name (components path)

abbrev longer : Char → Option (String × String) → String → Option (String × String)
longer c (some (before, after)) s = some (c ▸ before, after)
longer c none s = if code c == 46 then some (ε, s) else none

-- `rsplitn(2, '.')`: what stands before and after the last dot, if there is one.
unfoldable pub last_dot : String → Option (String × String)
last_dot ε = none
last_dot (c ▸ s) = longer c (last_dot s) s

abbrev pub after_dot : Option (String × String) → Option String
after_dot none = none
after_dot (some (before, after)) = if is_empty before then none else some after

-- `Path::extension`: a name that only begins with a dot has none, and neither has `..`, which is
-- no name.
unfoldable pub extension : String → Option String
extension path = elim (file_name path) [ none ↦ none | some name ↦ after_dot (last_dot name) ]
