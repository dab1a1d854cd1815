-- ===== src/Access.antt =====
-- server/src/access.rs: who may read, write, own or perform an operation on a case.
pub mod Roles
pub mod Laws
pub mod Complete
mod Tests
use legal_genie_agent.Prelude.{String, ◌=s◌, Bool, ◌&&◌, Option, none, some, List, if◌then◌else◌}
use legal_genie_agent.Errors.{AppError}
use legal_genie_agent.Errors.Make
use legal_genie_agent.Sql.{Action, pure, raise, query, ◌>>=◌, on_row}
use legal_genie_agent.Sql.Rows.{first_where}
use legal_genie_agent.Schema.{Tables, Case, Member, Permission}

-- SELECT owner_id, status FROM cases WHERE id = $1 LIMIT 1
unfoldable pub find_case : String → Tables → Option Case
unfolding first_where
find_case case_id t = first_where (λ c. c.id =s case_id) t.cases

-- SELECT … FROM case_members WHERE case_id = $1 AND user_id = $2 LIMIT 1
unfoldable pub find_member : String → String → Tables → Option Member
unfolding first_where
find_member case_id user_id t =
    first_where (λ m. m.case_id =s case_id && m.user_id =s user_id) t.members

-- SELECT 1 FROM permissions WHERE role = $1 AND operation = $2 LIMIT 1
unfoldable pub find_permission : String → String → Tables → Option Permission
unfolding first_where
find_permission role operation t =
    first_where (λ p. p.role =s role && p.operation =s operation) t.permissions

abbrev pub case_not_found : AppError
case_not_found = Make.not_found_code 410101 "case not found"

-- `ensure_case_access`
unfoldable pub ensure_case_access : String → String → Action Tables AppError (Unit {0})
ensure_case_access user_id case_id = do
  row ← query Make.db_error (find_case case_id)
  on_row row (raise case_not_found) λ c.
      if c.status =s "deleted"
      then raise case_not_found
      else if c.owner_id =s user_id
      then pure tt
      else do
        member ← query Make.db_error (find_member case_id user_id)
        on_row member (raise (Make.forbidden_code 410102 "no case access")) λ _. pure tt

-- The last `match` of `ensure_case_write_access`.
abbrev pub write_role : String → Action Tables AppError (Unit {0})
write_role role =
    if role =s "owner"
    then pure tt
    else if role =s "member"
    then pure tt
    else if role =s "viewer"
    then raise (Make.forbidden_code 410102 "read-only case access")
    else raise (Make.forbidden_code 410102 "no case write access")

-- `ensure_case_write_access`
unfoldable pub ensure_case_write_access : String → String → Action Tables AppError (Unit {0})
ensure_case_write_access user_id case_id = do
  row ← query Make.db_error (find_case case_id)
  on_row row (raise case_not_found) λ c.
      if c.status =s "deleted"
      then raise case_not_found
      else if c.owner_id =s user_id
      then pure tt
      else do
        member ← query Make.db_error (find_member case_id user_id)
        on_row member (raise (Make.forbidden_code 410102 "no case access"))
            λ m. write_role m.role_in_case

-- `ensure_case_owner`
unfoldable pub ensure_case_owner : String → String → Action Tables AppError (Unit {0})
ensure_case_owner user_id case_id = do
  row ← query Make.db_error (find_case case_id)
  on_row row (raise case_not_found) λ c.
      if c.status =s "deleted"
      then raise case_not_found
      else if c.owner_id =s user_id
      then pure tt
      else raise (Make.forbidden_code 410102 "only owner allowed")

-- `ensure_operation`
unfoldable pub ensure_operation : String → String → String → Action Tables AppError (Unit {0})
ensure_operation user_id case_id operation = do
  row ← query Make.db_error (find_case case_id)
  on_row row (raise case_not_found) λ c.
      if c.status =s "deleted"
      then raise case_not_found
      else if c.owner_id =s user_id
      then pure tt
      else do
        member ← query Make.db_error (find_member case_id user_id)
        on_row member (raise (Make.forbidden_code 410102 "no case access")) λ m. do
          allowed ← query Make.db_error (find_permission m.role_in_case operation)
          on_row allowed (raise (Make.forbidden_code 410102 "operation not permitted")) λ _. pure tt
