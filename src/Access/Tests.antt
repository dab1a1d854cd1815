-- ===== src/Access/Tests.antt =====
-- The access rules on a small database: ann owns the case k1, bob views it, the case k2 is deleted.
use legal_genie_agent.Prelude.{◌≡◌, ◌↔◌, ◌∙◌, refl, sym, ap, none, some, [], ◌∷◌}
use legal_genie_agent.Sql.{World, healthy, ok}
use legal_genie_agent.Sql.Rows.{only_row}
use legal_genie_agent.Schema.{Tables, Case, Member, Permission}
use legal_genie_agent.Access.{
  ensure_case_access, ensure_case_write_access, ensure_case_owner, ensure_operation, find_case,
  find_member, find_permission,
}
use legal_genie_agent.Access.Roles.{IsKeyed, IsLive, CanRead, CanWrite, CanDo}
use legal_genie_agent.Access.Complete.{
  ensure_case_access_iff, ensure_case_write_access_iff, ensure_operation_iff,
}

abbrev open_case : Case
open_case = record {
  id = "k1";
  name = "Case";
  description = none;
  owner_id = "ann";
  status = "active";
  tags = none;
  created_at = 0;
  updated_at = 0;
}

abbrev gone_case : Case
gone_case = record {
  id = "k2";
  name = "Case";
  description = none;
  owner_id = "ann";
  status = "deleted";
  tags = none;
  created_at = 0;
  updated_at = 0;
}

abbrev viewer : Member
viewer = record {
  id = "m1";
  case_id = "k1";
  user_id = "bob";
  role_in_case = "viewer";
  joined_at = 1;
  joined_by = "ann";
}

abbrev viewing : Permission
viewing = record { role = "viewer"; operation = "case:read" }

abbrev demo : Tables
demo = record {
  users = [];
  cases = open_case ∷ [];
  members = viewer ∷ [];
  permissions = viewing ∷ [];
  sessions = [];
  messages = [];
  tool_calls = [];
}

abbrev gone : Tables
gone = record demo { cases = gone_case ∷ [] }

-- The second statement fails.
abbrev lossy : World Tables
lossy = record { tables = demo; faults = none ∷ some "connection reset" ∷ [] }

demo-IsKeyed : IsKeyed demo
demo-IsKeyed = record {
  case_key = λ c d at at' same. only_row at ∙ sym (only_row at');
  member_key = λ m n at at' same same'. only_row at ∙ sym (only_row at');
}

ensure_case_access_iff_example :
    (ensure_case_access "bob" "k1" (healthy demo) ≡ (ok tt, healthy demo)) ↔ CanRead demo "bob" "k1"
ensure_case_access_iff_example = ensure_case_access_iff demo "bob" "k1" demo-IsKeyed

ensure_case_write_access_iff_example :
    (ensure_case_write_access "ann" "k1" (healthy demo) ≡ (ok tt, healthy demo))
    ↔ CanWrite demo "ann" "k1"
ensure_case_write_access_iff_example = ensure_case_write_access_iff demo "ann" "k1" demo-IsKeyed

ensure_operation_iff_example :
    (ensure_operation "bob" "k1" "case:read" (healthy demo) ≡ (ok tt, healthy demo))
    ↔ CanDo demo "bob" "k1" "case:read"
ensure_operation_iff_example = ensure_operation_iff demo "bob" "k1" "case:read" demo-IsKeyed

bob_reads : (ensure_case_access "bob" "k1" (healthy demo)).0 ≡ ok tt
unfolding ensure_case_access find_case find_member
bob_reads = refl

ann_writes : (ensure_case_write_access "ann" "k1" (healthy demo)).0 ≡ ok tt
unfolding ensure_case_write_access find_case
ann_writes = refl

ann_owns : (ensure_case_owner "ann" "k1" (healthy demo)).0 ≡ ok tt
unfolding ensure_case_owner find_case
ann_owns = refl

bob_may : (ensure_operation "bob" "k1" "case:read" (healthy demo)).0 ≡ ok tt
unfolding ensure_operation find_case find_member find_permission
bob_may = refl

no-IsLive_case : (c : Case) → ¬ IsLive gone "ann" "k2" c
no-IsLive_case c (at, same, live) = live (ap (λ d. d.status) (only_row at))
