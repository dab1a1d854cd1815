-- ===== src/Cases.antt =====
-- server/src/routes/cases.rs: the cases, with the columns of the table cases. The entry for the
-- operation log that a handler spawns last is part of its answer. The texts of tags are those of
-- `serde_json`, which is a parameter. A time is in seconds.
pub mod Listing
pub mod Merged
pub mod Written
pub mod Update
pub mod Life
pub mod Created
pub mod Listed
mod Tests
use legal_genie_agent.Prelude.{
  ℕ, String, ◌<>◌, ◌=s◌, Bool, true, false, Option, none, some, List, [], ◌∷◌, ◌++◌, any,
  if◌then◌else◌, is_empty, trim,
}
use legal_genie_agent.Errors.{AppError}
use legal_genie_agent.Errors.Make
use legal_genie_agent.Sql.{
  Result, ok, err, Action, pure, raise, query, statement, execute, on_row, ◌>>=◌, ◌>>◌,
}
use legal_genie_agent.Sql.Rows.{update_where}
use legal_genie_agent.Schema.{Tables, Case, Member}
use legal_genie_agent.Access.{
  find_case, case_not_found, ensure_case_access, ensure_case_write_access, ensure_case_owner,
}
use legal_genie_agent.Members.{insert_member}
use legal_genie_agent.Json.{Json, null, string, array, object, empty, field, texts}
use legal_genie_agent.Context.{RequestMeta}
use legal_genie_agent.Oplog.{OperationLogNew}

-- `CreateCaseRequest`
pub record CreateCaseRequest : Type 0 where
  pub name : String
  pub description : Option String
  pub tags : Option (List String)

-- `UpdateCaseRequest`
pub record UpdateCaseRequest : Type 0 where
  pub name : Option String
  pub description : Option String
  pub tags : Option (List String)
  pub status : Option String

-- `CaseDetail`
pub record CaseDetail : Type 0 where
  pub id : String
  pub name : String
  pub description : Option String
  pub status : String
  pub tags : Option (List String)
  pub owner_id : String
  pub created_at : ℕ
  pub updated_at : ℕ

-- `serde_json` on lists of texts
pub record Codec : Type 0 where
  pub to_string : List String → Result String String
  pub from_str : String → Option (List String)

-- The user of a request (`AuthUser`), and what is known of the request.
pub record Caller : Type 0 where
  pub user_id : String
  pub username : String
  pub meta : RequestMeta

abbrev pub Handler : Type 0 → Type 0
Handler A = Action Tables AppError A

-- INSERT INTO cases
unfoldable pub insert_case : Case → Tables → Result String (Unit {0} × Tables)
insert_case new t =
    if any (λ c. c.id =s new.id) t.cases
    then err "duplicate key value violates unique constraint"
    else ok (tt, record t { cases = t.cases ++ new ∷ [] })

-- UPDATE cases SET … WHERE id = $n
unfoldable pub update_cases : String → (Case → Case) → Tables → Unit {0} × Tables
update_cases id f t = (tt, record t { cases = update_where (λ c. c.id =s id) f t.cases })

abbrev pub or_keep : {A : Type 0} → Option A → A → A
or_keep none old = old
or_keep (some new) old = new

-- `Option::or`
abbrev pub or_else : {A : Type 0} → Option A → Option A → Option A
or_else none old = old
or_else (some new) old = some new

-- `.map(str::trim).filter(|s| !s.is_empty())`
unfoldable pub new_name : Option String → Option String
new_name none = none
new_name (some raw) = if is_empty (trim raw) then none else some (trim raw)

abbrev pub text_or_null : Option String → Json
text_or_null none = null
text_or_null (some s) = string s

abbrev pub tags_or_null : Option (List String) → Json
tags_or_null none = null
tags_or_null (some ss) = array (texts ss)

-- The `json!` of a case, its fields in the order of the keys
unfoldable pub case_json :
    String → String → Option String → String → Option (List String) → String → Json
case_json id name description status tags owner_id = object (
    field "description" (text_or_null description) (
      field "id" (string id) (
        field "name" (string name) (
          field "owner_id" (string owner_id)
            (field "status" (string status) (field "tags" (tags_or_null tags) empty))))))

abbrev pub detail_json : CaseDetail → Json
detail_json d = case_json d.id d.name d.description d.status d.tags d.owner_id

-- The log entry of a case.
abbrev pub case_log :
    Caller → String → String → String → Option Json → Option Json → OperationLogNew
case_log caller action id title old_value new_value = record {
  user_id = caller.user_id;
  user_name = caller.username;
  case_id = some id;
  action = action;
  module' = "case";
  target_type = "case";
  target_id = some id;
  target_title = some title;
  old_value = old_value;
  new_value = new_value;
  changed_fields = none;
  ip_address = caller.meta.ip_address;
  user_agent = caller.meta.user_agent;
  request_id = some caller.meta.request_id;
}

-- The rows that `create_case` inserts.
abbrev pub new_case : ℕ → String → String → CreateCaseRequest → Option String → Case
new_case now new_id owner_id req tags_json = record {
  id = new_id;
  name = trim req.name;
  description = req.description;
  owner_id = owner_id;
  status = "active";
  tags = tags_json;
  created_at = now;
  updated_at = now;
}

abbrev pub owner_row : ℕ → String → String → String → Member
owner_row now member_id case_id user_id = record {
  id = member_id;
  case_id = case_id;
  user_id = user_id;
  role_in_case = "owner";
  joined_at = now;
  joined_by = user_id;
}

-- The row that `update_case` writes.
unfoldable pub merged : ℕ → UpdateCaseRequest → Case → Option String → Case → Case
merged now req existing tags_json c = record c {
  name = or_keep (new_name req.name) existing.name;
  description = or_else req.description existing.description;
  tags = tags_json;
  status = or_keep req.status existing.status;
  updated_at = now;
}

-- SET status = 'deleted', updated_at = utc_text()
abbrev pub mark_deleted : ℕ → Case → Case
mark_deleted now c = record c { status = "deleted"; updated_at = now }

module _ (codec : Codec) where
  -- `row.tags.as_deref().and_then(…)`
  unfoldable pub read_tags : Option String → Option (List String)
  read_tags none = none
  read_tags (some raw) = codec.from_str raw

  abbrev pub written : Result String String → Handler (Option String)
  written (ok s) = pure (some s)
  written (err e) = raise (Make.bad_request ("invalid tags: " <> e))

  -- `serde_json::to_string` of the tags of a request, or what stands for none
  unfoldable pub write_tags : Option (List String) → Option String → Handler (Option String)
  write_tags none old = pure old
  write_tags (some tags) old = written (codec.to_string tags)

  abbrev pub detail_of : Case → CaseDetail
  detail_of c = record {
    id = c.id;
    name = c.name;
    description = c.description;
    status = c.status;
    tags = read_tags c.tags;
    owner_id = c.owner_id;
    created_at = c.created_at;
    updated_at = c.updated_at;
  }

  -- `fetch_case_detail`; `get_case` does the same.
  unfoldable pub fetch_case_detail : String → String → Handler CaseDetail
  fetch_case_detail user_id case_id = do
    row ← query Make.db_error (find_case case_id)
    on_row row (raise case_not_found) λ c. do ensure_case_access user_id c.id; pure (detail_of c)

  -- `get_case`
  unfoldable pub get_case : Caller → String → Handler CaseDetail
  get_case caller id = fetch_case_detail caller.user_id id

  -- `create_case`, once the name is checked and the tags are written.
  unfoldable pub insert_rows :
      ℕ
      → String
      → String
      → Caller
      → CreateCaseRequest
      → Option String
      → Handler (CaseDetail × OperationLogNew)
  insert_rows now new_id member_id caller req tags_json = do
    statement Make.db_error (insert_case (new_case now new_id caller.user_id req tags_json))
    execute Make.db_error (insert_member (owner_row now member_id new_id caller.user_id))
    detail ← fetch_case_detail caller.user_id new_id
    pure (detail, case_log caller "CREATE" detail.id detail.name none (some (detail_json detail)))

  -- `create_case`
  unfoldable pub create_case :
      ℕ → String → String → Caller → CreateCaseRequest → Handler (CaseDetail × OperationLogNew)
  create_case now new_id member_id caller req =
      if is_empty (trim req.name) then raise (Make.bad_request "case name required") else (do
        tags_json ← write_tags req.tags none
        insert_rows now new_id member_id caller req tags_json)

  -- `update_case`, once the row is read.
  unfoldable pub update_row :
      ℕ → Caller → String → UpdateCaseRequest → Case → Handler (CaseDetail × OperationLogNew)
  update_row now caller id req existing = do
    ensure_case_write_access caller.user_id existing.id
    tags_json ← write_tags req.tags existing.tags
    execute Make.db_error (update_cases id (merged now req existing tags_json))
    detail ← fetch_case_detail caller.user_id id
    pure (
      detail,
      case_log caller "UPDATE" detail.id detail.name (some (detail_json (detail_of existing)))
          (some (detail_json detail)),
    )

  -- `update_case`
  unfoldable pub update_case :
      ℕ → Caller → String → UpdateCaseRequest → Handler (CaseDetail × OperationLogNew)
  update_case now caller id req = do
    row ← query Make.db_error (find_case id)
    on_row row (raise case_not_found) (update_row now caller id req)

  -- The entry of `delete_case`, if it has found the row.
  abbrev pub deleted_entry : Caller → Option Case → Option OperationLogNew
  deleted_entry caller none = none
  deleted_entry caller (some c) =
      some (case_log caller "DELETE" c.id c.name (some (detail_json (detail_of c))) none)

  -- `delete_case`
  unfoldable pub delete_case : ℕ → Caller → String → Handler (Option OperationLogNew)
  delete_case now caller id = do
    ensure_case_owner caller.user_id id
    row ← query Make.db_error (find_case id)
    execute Make.db_error (update_cases id (mark_deleted now))
    pure (deleted_entry caller row)
