-- ===== src/Members/Tests.antt =====
-- ann, who owns the case k1, adds bob and removes him.
use legal_genie_agent.Prelude.{
  ℕ, ◌≤◌, String, List, All, length, ◌≡◌, ◌≢◌, ◌∙◌, refl, sym, ap, inl, inr, Option, none, some, [],
  ◌∷◌,
}
use legal_genie_agent.Sql.{World, healthy, ok}
use legal_genie_agent.Sql.Rows.{only_row, delete_where}
use legal_genie_agent.Schema.{Tables, User, Case, Member}
use legal_genie_agent.Access.{ensure_case_access, ensure_case_owner}
use legal_genie_agent.Access.Roles.{IsKeyed, CanRead}
use legal_genie_agent.Members.{CaseMember, LogEntry, same_member, add_member, remove_member}
use legal_genie_agent.Members.Laws.{removed_member_locked_out}
use legal_genie_agent.Members.Roles.{AreRoles, member_roles_kept}
use legal_genie_agent.Members.Listing.{CaseMemberListData, list_members}
use legal_genie_agent.Members.Listed.{IsShown, list_members_sound}

abbrev bob : User
bob = record {
  id = "bob";
  username = "Bob";
  email = "bob@example.org";
  real_name = none;
  status = "active";
}

abbrev open_case : Case
open_case = record {
  id = "k1";
  name = "Case";
  description = none;
  owner_id = "ann";
  status = "active";
  tags = none;
  created_at = 0;
  updated_at = 0;
}

abbrev viewer : Member
viewer = record {
  id = "m1";
  case_id = "k1";
  user_id = "bob";
  role_in_case = "viewer";
  joined_at = 4;
  joined_by = "ann";
}

abbrev before : Tables
before = record {
  users = bob ∷ [];
  cases = open_case ∷ [];
  members = [];
  permissions = [];
  sessions = [];
  messages = [];
  tool_calls = [];
}

abbrev joined : Tables
joined = record before { members = viewer ∷ [] }

joined-IsKeyed : IsKeyed joined
joined-IsKeyed = record {
  case_key = λ c d at at' same. only_row at ∙ sym (only_row at');
  member_key = λ m n at at' same same'. only_row at ∙ sym (only_row at');
}

abbrev parse : String → Option String
parse s = some s

abbrev bob_as : String → CaseMember
bob_as role = record {
  user_id = "bob";
  username = "Bob";
  email = "bob@example.org";
  real_name = none;
  role_in_case = role;
  joined_at = 4;
  joined_by = "ann";
}

abbrev linked : LogEntry
linked = record {
  action = "LINK";
  target_id = "bob";
  target_title = "Bob";
  old_role = none;
  new_role = some "viewer";
}

abbrev unlinked : LogEntry
unlinked = record {
  action = "UNLINK";
  target_id = "bob";
  target_title = "Bob";
  old_role = some "viewer";
  new_role = none;
}

added :
    (add_member parse 4 "m1" "ann" "k1" "bob" (some " Viewer") (healthy before))
    ≡ (ok (bob_as "viewer", some linked), healthy joined)
unfolding add_member legal_genie_agent.Members.normalize_uuid ensure_case_owner
    legal_genie_agent.Access.find_case legal_genie_agent.Sql.Rows.first_where
    legal_genie_agent.Members.find_user legal_genie_agent.Access.find_member same_member
    legal_genie_agent.Members.add_user legal_genie_agent.Members.check_role
    legal_genie_agent.Prelude.to_ascii_lowercase legal_genie_agent.Prelude.trim
    legal_genie_agent.Members.add_other legal_genie_agent.Members.upsert_member
added = refl

removed : (remove_member parse "ann" "k1" "bob" (healthy joined)).0 ≡ ok (some unlinked)
unfolding remove_member legal_genie_agent.Members.normalize_uuid ensure_case_owner
    legal_genie_agent.Access.find_case legal_genie_agent.Sql.Rows.first_where
    legal_genie_agent.Members.find_user legal_genie_agent.Access.find_member same_member
    legal_genie_agent.Members.remove_row legal_genie_agent.Members.find_joined
    legal_genie_agent.Members.delete_member legal_genie_agent.Sql.Rows.count_where
removed = refl

removed_member_locked_out_example :
    (ensure_case_access "bob" "k1" (remove_member parse "ann" "k1" "bob" (healthy joined)).1).0
    ≢ ok tt
removed_member_locked_out_example =
    removed_member_locked_out parse "ann" "k1" "bob" "k1" "bob" (healthy joined)
      (remove_member parse "ann" "k1" "bob" (healthy joined)).1 (some unlinked) joined-IsKeyed refl
      refl removed refl

joined-AreRoles : AreRoles joined
joined-AreRoles = record { rows = (inr (inl refl), tt) }

member_roles_kept_example :
    AreRoles (add_member parse 9 "m2" "ann" "k1" "bob" none (healthy joined)).1.tables
    × AreRoles (remove_member parse "ann" "k1" "bob" (healthy joined)).1.tables
member_roles_kept_example =
    member_roles_kept parse 9 "m2" "ann" "k1" "bob" none (healthy joined) joined-AreRoles

abbrev page_of_k1 : CaseMemberListData
page_of_k1 = record {
  members =
      record {
        user_id = "bob";
        username = "Bob";
        email = "bob@example.org";
        real_name = none;
        role_in_case = "viewer";
        joined_at = 4;
        joined_by = "ann";
      }
      ∷ [];
  total = 1;
  page = 1;
  page_size = 20;
}

page_listed : (list_members (λ raw. some raw) "ann" "k1" 1 20 (healthy joined)).0 ≡ ok page_of_k1
unfolding list_members legal_genie_agent.Members.normalize_uuid ensure_case_access
    legal_genie_agent.Access.find_case legal_genie_agent.Members.Listing.select_members
    legal_genie_agent.Pages.answered legal_genie_agent.Pages.page_of
    legal_genie_agent.Pages.offset_of legal_genie_agent.Pages.clamp
    legal_genie_agent.Members.Listing.join_users legal_genie_agent.Sql.Rows.count_where
    legal_genie_agent.Pages.ordered legal_genie_agent.Sql.Rows.select_where
    legal_genie_agent.Pages.place legal_genie_agent.Members.find_user
page_listed = refl

list_members_sound_example :
    (k : String) × (some "k1" ≡ some k)
    × CanRead joined "ann" k
    × All (IsShown joined k) page_of_k1.members
    × (length page_of_k1.members ≤ 200)
list_members_sound_example =
    list_members_sound (λ raw. some raw) "ann" "k1" 1 20 (healthy joined) page_of_k1 page_listed
