-- ===== src/Cases/Tests.antt =====
-- Ann opens the case k1; Bob, a member of hers, deletes it by an update.
use mathlib.Core.List.{Memᴰ}
use legal_genie_agent.Prelude.{
  ℕ, ◌≤◌, String, ◌≡◌, ◌≢◌, ◌∙◌, refl, sym, inr, none, some, [], ◌∷◌, All, length, trim,
}
use legal_genie_agent.Sql.{World, healthy, Result, ok, err}
use legal_genie_agent.Sql.Rows.{only_row}
use legal_genie_agent.Schema.{Tables, Case, Member}
use legal_genie_agent.Access.{find_case, case_not_found, ensure_case_access}
use legal_genie_agent.Access.Roles.{IsKeyed, IsOwner, CanRead, CanWrite}
use legal_genie_agent.Context.{RequestMeta}
use legal_genie_agent.Oplog.{OperationLogNew}
use legal_genie_agent.Cases.{
  CreateCaseRequest, CaseDetail, Codec, Caller, detail_json, case_log, get_case, create_case,
  update_case, delete_case,
}
use legal_genie_agent.Cases.Update.{Wrote, deleting, update_case_writes, writer_deletes}
use legal_genie_agent.Cases.Life.{delete_case_hides}
use legal_genie_agent.Cases.Created.{get_case-create_case}
use legal_genie_agent.Cases.Listing.{CaseListData, list_cases}
use legal_genie_agent.Cases.Listed.{list_cases_CanRead}

abbrev no_tags : Codec
no_tags = record { to_string = λ ss. ok "[]"; from_str = λ s. some [] }

abbrev meta : RequestMeta
meta = record { request_id = "r1"; ip_address = none; user_agent = none }

abbrev ann : Caller
ann = record { user_id = "ann"; username = "Ann"; meta = meta }

abbrev bob : Caller
bob = record { user_id = "bob"; username = "Bob"; meta = meta }

abbrev open_case : Case
open_case = record {
  id = "k1";
  name = "Lease";
  description = none;
  owner_id = "ann";
  status = "active";
  tags = none;
  created_at = 4;
  updated_at = 4;
}

abbrev helper : Member
helper = record {
  id = "m2";
  case_id = "k1";
  user_id = "bob";
  role_in_case = "member";
  joined_at = 5;
  joined_by = "ann";
}

abbrev nothing : Tables
nothing = record {
  users = [];
  cases = [];
  members = [];
  permissions = [];
  sessions = [];
  messages = [];
  tool_calls = [];
}

abbrev shared : Tables
shared = record nothing { cases = open_case ∷ []; members = helper ∷ [] }

shared-IsKeyed : IsKeyed shared
shared-IsKeyed = record {
  case_key = λ c d at at' same. only_row at ∙ sym (only_row at');
  member_key = λ m n at at' same same'. only_row at ∙ sym (only_row at');
}

bob_writes : CanWrite shared "bob" "k1"
bob_writes = (
  open_case,
  (Memᴰ.head refl, refl, λ e. absurd (cc e)),
  inr (helper, (Memᴰ.head refl, refl, refl), inr refl),
)

update_case_writes_example :
    Wrote no_tags 9 bob "k1" deleting
      (healthy shared)
      (update_case no_tags 9 bob "k1" deleting (healthy shared))
update_case_writes_example = update_case_writes no_tags 9 bob "k1" deleting (healthy shared)

writer_deletes_example :
    ((update_case no_tags 9 bob "k1" deleting (healthy shared)).0 ≡ err case_not_found)
    × ((c : Case) × (find_case "k1"
            (update_case no_tags 9 bob "k1" deleting (healthy shared)).1.tables
          ≡ some c)
        × (c.status ≡ "deleted"))
writer_deletes_example = writer_deletes no_tags 9 bob "k1" shared shared-IsKeyed bob_writes

abbrev lease : CreateCaseRequest
lease = record { name = " Lease"; description = none; tags = none }

abbrev made : CaseDetail
made = record {
  id = "k1";
  name = "Lease";
  description = none;
  status = "active";
  tags = none;
  owner_id = "ann";
  created_at = 4;
  updated_at = 4;
}

abbrev made_log : OperationLogNew
made_log = case_log ann "CREATE" "k1" "Lease" none (some (detail_json made))

created : (create_case no_tags 4 "k1" "m1" ann lease (healthy nothing)).0 ≡ ok (made, made_log)
unfolding create_case trim legal_genie_agent.Cases.write_tags legal_genie_agent.Cases.insert_rows
    legal_genie_agent.Cases.insert_case legal_genie_agent.Cases.fetch_case_detail find_case
    legal_genie_agent.Members.insert_member ensure_case_access legal_genie_agent.Cases.read_tags
created = refl

get_case-create_case_example :
    ((get_case no_tags ann "k1"
        (healthy (create_case no_tags 4 "k1" "m1" ann lease (healthy nothing)).1.tables)).0
      ≡ ok made)
    × (made.id ≡ "k1")
    × (made.name ≡ trim " Lease")
    × (made.owner_id ≡ "ann")
    × (made.status ≡ "active")
get_case-create_case_example =
    get_case-create_case no_tags 4 "k1" "m1" ann lease (healthy nothing) made made_log created

abbrev gone_log : OperationLogNew
gone_log = case_log ann "DELETE" "k1" "Lease" (some (detail_json made)) none

deleted : (delete_case no_tags 9 ann "k1" (healthy shared)).0 ≡ ok (some gone_log)
unfolding delete_case legal_genie_agent.Access.ensure_case_owner find_case
    legal_genie_agent.Cases.read_tags
deleted = refl

delete_case_hides_example :
    IsOwner shared "ann" "k1"
    × ((ensure_case_access "bob" "k1"
          (healthy (delete_case no_tags 9 ann "k1" (healthy shared)).1.tables)).0
        ≢ ok tt)
delete_case_hides_example =
    delete_case_hides no_tags 9 ann "k1" "bob" (healthy shared)
      (healthy (delete_case no_tags 9 ann "k1" (healthy shared)).1.tables) (some gone_log) deleted
      refl

abbrev no_counts : String → ℕ × ℕ
no_counts id = (0, 0)

abbrev page_of_bob : CaseListData
page_of_bob = record {
  cases =
      record {
        id = "k1";
        name = "Lease";
        description = none;
        status = "active";
        created_at = 4;
        member_count = 1;
        evidence_count = 0;
        node_count = 0;
      }
      ∷ [];
  total = 1;
  page = 1;
  page_size = 20;
}

listed : (list_cases no_counts "bob" 1 20 (healthy shared)).0 ≡ ok page_of_bob
unfolding list_cases legal_genie_agent.Cases.Listing.select_page legal_genie_agent.Pages.offset_of
    legal_genie_agent.Pages.clamp legal_genie_agent.Pages.ordered legal_genie_agent.Pages.page_of
    legal_genie_agent.Pages.answered legal_genie_agent.Sql.Rows.count_where
    legal_genie_agent.Sql.Rows.select_where legal_genie_agent.Cases.Listing.lists
    legal_genie_agent.Pages.place
listed = refl

list_cases_CanRead_example :
    All (λ s. CanRead shared "bob" s.id) page_of_bob.cases × (length page_of_bob.cases ≤ 200)
list_cases_CanRead_example =
    list_cases_CanRead no_counts "bob" 1 20 (healthy shared) page_of_bob listed
