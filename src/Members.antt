-- ===== src/Members.antt =====
-- server/src/routes/case_members.rs: who is in a case, and with which role.
-- The identifiers (`Uuid::new_v4`) are fresh. The entry for the operation log, which a background
-- task writes (`spawn_operation_log`), is part of the answer here.
pub mod Laws
pub mod Listing
pub mod Listed
pub mod Roles
mod Tests
use legal_genie_agent.Prelude.{
  ℕ, String, ◌=s◌, Bool, true, false, not, ◌&&◌, ◌||◌, Option, none, some, List, [], ◌∷◌, ◌++◌, any,
  if◌then◌else◌, ◌==◌, trim, to_ascii_lowercase,
}
use legal_genie_agent.Errors.{AppError}
use legal_genie_agent.Errors.Make
use legal_genie_agent.Sql.{Action, pure, raise, query, execute, on_row, ◌>>=◌, ◌>>◌}
use legal_genie_agent.Sql.Rows.{first_where, update_where, delete_where, count_where}
use legal_genie_agent.Schema.{Tables, User, Case, Member}
use legal_genie_agent.Access.{find_member, ensure_case_access, ensure_case_owner}

-- `CaseMember`
pub record CaseMember : Type 0 where
  pub user_id : String
  pub username : String
  pub email : String
  pub real_name : Option String
  pub role_in_case : String
  pub joined_at : ℕ
  pub joined_by : String

-- `CaseMemberMeData`
pub record CaseMemberMeData : Type 0 where
  pub case_id : String
  pub user_id : String
  pub username : String
  pub role_in_case : String

-- What the operation log records of a change of a member: the columns that depend on the change.
pub record LogEntry : Type 0 where
  pub action : String
  pub target_id : String
  pub target_title : String
  pub old_role : Option String
  pub new_role : Option String

abbrev pub Handler : Type 0 → Type 0
Handler A = Action Tables AppError A

unfoldable pub find_user : String → Tables → Option User
find_user user_id t = first_where (λ u. u.id =s user_id) t.users

-- UNIQUE(case_id, user_id)
unfoldable pub same_member : String → String → Member → Bool
same_member case_id user_id m = m.case_id =s case_id && m.user_id =s user_id

-- INSERT … ON CONFLICT (case_id, user_id) DO NOTHING
unfoldable pub insert_member : Member → Tables → Unit {0} × Tables
insert_member m t =
    if any (same_member m.case_id m.user_id) t.members
    then (tt, t)
    else (tt, record t { members = t.members ++ m ∷ [] })

-- INSERT … ON CONFLICT (case_id, user_id) DO UPDATE SET role_in_case = excluded.role_in_case
unfoldable pub upsert_member : Member → Tables → Unit {0} × Tables
upsert_member m t =
    if any (same_member m.case_id m.user_id) t.members
    then (
      tt,
      record t {
        members =
            update_where (same_member m.case_id m.user_id)
              (λ x. record x { role_in_case = m.role_in_case }) t.members;
      },
    )
    else (tt, record t { members = t.members ++ m ∷ [] })

-- DELETE FROM case_members WHERE case_id = $1 AND user_id = $2
unfoldable pub delete_member : String → String → Tables → ℕ × Tables
delete_member case_id user_id t = (
  count_where (same_member case_id user_id) t.members,
  record t { members = delete_where (same_member case_id user_id) t.members },
)

-- The row of `find_member` with the columns of its user, for the log.
unfoldable pub find_joined : String → String → Tables → Option (String × String)
find_joined case_id user_id t = elim (find_member case_id user_id t) [
  | none ↦ none
  | some m ↦ elim (find_user m.user_id t) [
    | none ↦ none
    | some u ↦ some (u.username, m.role_in_case)
  ]
]

abbrev pub answer_of : User → String → Member → CaseMember
answer_of u role m = record {
  user_id = u.id;
  username = u.username;
  email = u.email;
  real_name = u.real_name;
  role_in_case = role;
  joined_at = m.joined_at;
  joined_by = m.joined_by;
}

abbrev pub or_member : Option String → String
or_member none = "member"
or_member (some role) = role

-- The `match existing_role` of `add_member`.
abbrev pub added_entry : User → String → Option Member → LogEntry
added_entry u role none = record {
  action = "LINK";
  target_id = u.id;
  target_title = u.username;
  old_role = none;
  new_role = some role;
}
added_entry u role (some old) = record {
  action = "UPDATE";
  target_id = u.id;
  target_title = u.username;
  old_role = some old.role_in_case;
  new_role = some role;
}

abbrev pub removed_entry : String → Option (String × String) → Option LogEntry
removed_entry user_id none = none
removed_entry user_id (some (username, role)) = some (record {
  action = "UNLINK";
  target_id = user_id;
  target_title = username;
  old_role = some role;
  new_role = none;
})

-- The `match role.as_str()` of `add_member`.
unfoldable pub check_role : String → Handler (Unit {0})
check_role role =
    if role =s "member" || role =s "viewer"
    then pure tt
    else if role =s "owner"
    then raise (Make.bad_request "role_in_case cannot be owner")
    else raise (Make.bad_request "invalid role_in_case (member/viewer)")

-- SELECT owner_id FROM cases WHERE id = $1 AND status != 'deleted' LIMIT 1
unfoldable pub find_live_case : String → Tables → Option Case
find_live_case case_id t = first_where (λ c. c.id =s case_id && not (c.status =s "deleted")) t.cases

abbrev pub no_access : AppError
no_access = Make.forbidden_code 410102 "no case access"

module _ (parse_uuid : String → Option String) where
  -- `normalize_uuid`
  unfoldable pub normalize_uuid : String → String → Handler String
  normalize_uuid raw message =
      on_row (parse_uuid raw) (raise (Make.bad_request message)) λ id. pure id

  -- `get_my_membership`, for a case whose owner has no row in `case_members`.
  unfoldable pub owner_role : String → String → Handler String
  owner_role user_id case_id = do
    row ← query Make.db_error (find_live_case case_id)
    on_row row (raise no_access)
        λ c. if c.owner_id =s user_id then pure "owner" else raise no_access

  -- `get_my_membership`
  unfoldable pub get_my_membership : String → String → String → Handler CaseMemberMeData
  get_my_membership user_id username raw = do
    case_id ← normalize_uuid raw "invalid case_id"
    ensure_case_access user_id case_id
    row ← query Make.db_error (find_member case_id user_id)
    role ← on_row row (owner_role user_id case_id) λ m. pure m.role_in_case
    pure (record { case_id = case_id; user_id = user_id; username = username; role_in_case = role })

  module _ (now : ℕ) (new_id actor : String) where
    abbrev pub new_member : String → String → String → Member
    new_member case_id user_id role = record {
      id = new_id;
      case_id = case_id;
      user_id = user_id;
      role_in_case = role;
      joined_at = now;
      joined_by = actor;
    }

    -- `add_member`, for the owner's own row.
    unfoldable pub add_owner : String → User → Handler (CaseMember × Option LogEntry)
    add_owner case_id u = do
      execute Make.db_error (insert_member (new_member case_id u.id "owner"))
      row ← query Make.db_error (find_member case_id u.id)
      on_row row (raise (Make.internal "owner membership not found"))
          λ m. pure (answer_of u m.role_in_case m, none)

    -- `add_member`, for another user and a checked role.
    unfoldable pub add_other : String → User → String → Handler (CaseMember × Option LogEntry)
    add_other case_id u role = do
      existing ← query Make.db_error (find_member case_id u.id)
      execute Make.db_error (upsert_member (new_member case_id u.id role))
      row ← query Make.db_error (find_member case_id u.id)
      on_row row (raise (Make.internal "member upserted but not found"))
          λ m. pure (answer_of u role m, some (added_entry u role existing))

    -- `add_member`, once the owner is checked and the user is read.
    unfoldable pub add_user : String → Option String → User → Handler (CaseMember × Option LogEntry)
    add_user case_id requested u =
        if not (u.status =s "active")
        then raise (Make.bad_request "user inactive")
        else if u.id =s actor
        then add_owner case_id u
        else (do
          let role = to_ascii_lowercase (trim (or_member requested))
          check_role role
          add_other case_id u role)

    -- `add_member`
    unfoldable pub add_member :
        String → String → Option String → Handler (CaseMember × Option LogEntry)
    add_member raw raw_user requested = do
      case_id ← normalize_uuid raw "invalid case_id"
      ensure_case_owner actor case_id
      member_user_id ← normalize_uuid raw_user "invalid user_id"
      row ← query Make.db_error (find_user member_user_id)
      on_row row (raise (Make.not_found "user not found")) (add_user case_id requested)

  -- `remove_member`, once the owner is checked.
  unfoldable pub remove_row : String → String → Handler (Option LogEntry)
  remove_row case_id user_id = do
    row ← query Make.db_error (find_joined case_id user_id)
    deleted ← execute Make.db_error (delete_member case_id user_id)
    if deleted == 0
        then raise (Make.not_found "member not found")
        else pure (removed_entry user_id row)

  -- `remove_member`
  unfoldable pub remove_member : String → String → String → Handler (Option LogEntry)
  remove_member actor raw raw_user = do
    case_id ← normalize_uuid raw "invalid case_id"
    ensure_case_owner actor case_id
    member_user_id ← normalize_uuid raw_user "invalid user_id"
    if member_user_id =s actor
        then raise (Make.bad_request "cannot remove case owner")
        else remove_row case_id member_user_id
