-- ===== src/Agent/Sessions.antt =====
-- server/src/agent/routes.rs: the sessions of the agent. JSON answers are records of their fields.
use legal_genie_agent.Prelude.{
  ℕ, String, ◌<>◌, ◌=s◌, Bool, ◌&&◌, Option, none, some, List, [], ◌∷◌, ◌++◌, if◌then◌else◌, ltb,
  ◌==◌, take, trim,
}
use legal_genie_agent.Errors.{AppError}
use legal_genie_agent.Errors.Make
use legal_genie_agent.Sql.{Action, raise, pure, query, execute, on_row, ◌>>=◌, ◌>>◌}
use legal_genie_agent.Sql.Rows.{first_where, select_where, update_where, count_where}
use legal_genie_agent.Schema.{Tables, Session, Message, ToolCall}
use legal_genie_agent.Access.{ensure_case_access}
use legal_genie_agent.Agent.Tools.{Env}

-- The handlers' `AppResult`.
abbrev pub Handler : Type 0 → Type 0
Handler A = Action Tables AppError A

-- `normalize_uuid`
unfoldable pub normalize_uuid : Env → String → String → Handler String
normalize_uuid e raw what =
    on_row (e.parse_uuid (trim raw)) (raise (Make.bad_request ("invalid " <> what))) λ id. pure id

abbrev pub session_not_found : AppError
session_not_found = Make.not_found_code 480101 "session not found"

unfoldable pub is_own_active : String → String → Session → Bool
is_own_active session_id user_id s =
    s.id =s session_id && (s.user_id =s user_id && s.status =s "active")

-- `fetch_session_summary`
unfoldable pub fetch_session_summary : String → String → Handler Session
fetch_session_summary user_id session_id = do
  row ← query Make.db_error (λ t. first_where (is_own_active session_id user_id) t.sessions)
  on_row row (raise session_not_found) λ s. pure s

-- INSERT INTO agent_sessions; `status` and the times have their defaults.
unfoldable pub insert_session : Session → Tables → Unit {0} × Tables
insert_session s t = (tt, record t { sessions = t.sessions ++ s ∷ [] })

-- The check of `create_session` on the case that the request names.
unfoldable pub session_case : Env → String → Option String → Handler (Option String)
session_case e user_id none = pure none
session_case e user_id (some raw) = do
  case_id ← normalize_uuid e raw "invalid case_id"
  ensure_case_access user_id case_id
  pure (some case_id)

abbrev pub or_else : Option String → String → String
or_else none d = d
or_else (some s) d = s

-- `create_session`
unfoldable pub create_session :
    Env → ℕ → String → String → Option String → Option String → Handler Session
create_session e now new_id user_id case_id title = do
  checked ← session_case e user_id case_id
  execute Make.db_error (
      insert_session (record {
        id = new_id;
        case_id = checked;
        user_id = user_id;
        title = or_else title "New session";
        status = "active";
        created_at = now;
        updated_at = now;
      }))
  fetch_session_summary user_id new_id

-- ORDER BY updated_at DESC
unfoldable pub insert_newest : Session → List Session → List Session
insert_newest s [] = s ∷ []
insert_newest s (x ∷ xs) =
    let rest = insert_newest s xs in if ltb s.updated_at x.updated_at then x ∷ rest else s ∷ x ∷ xs

unfoldable pub newest_first : List Session → List Session
unfolding insert_newest
newest_first [] = []
newest_first (s ∷ ss) = insert_newest s (newest_first ss)

-- `list_sessions`
unfoldable pub list_sessions : String → Handler (List Session)
list_sessions user_id = query Make.db_error λ t.
    take 50
      (newest_first (select_where (λ s. s.user_id =s user_id && s.status =s "active") t.sessions))

-- `get_session`: the session, its messages and its calls.
unfoldable pub get_session :
    Env → String → String → Handler (Session × List Message × List ToolCall)
get_session e user_id raw = do
  session_id ← normalize_uuid e raw "invalid session id"
  summary ← fetch_session_summary user_id session_id
  messages ← query Make.db_error (λ t. select_where (λ m. m.session_id =s session_id) t.messages)
  calls ← query Make.db_error (λ t. select_where (λ c. c.session_id =s session_id) t.tool_calls)
  pure (summary, messages, calls)

-- `list_messages`
unfoldable pub list_messages : Env → String → String → Handler (List Message)
list_messages e user_id raw = do
  session_id ← normalize_uuid e raw "invalid session id"
  summary ← fetch_session_summary user_id session_id
  query Make.db_error (λ t. select_where (λ m. m.session_id =s session_id) t.messages)

unfoldable pub archive : ℕ → String → String → Tables → ℕ × Tables
archive now session_id user_id t =
    let own : Session → Bool = λ s. s.id =s session_id && s.user_id =s user_id in
    (
      count_where own t.sessions,
      record t {
        sessions =
            update_where own (λ s. record s { status = "archived"; updated_at = now }) t.sessions;
      },
    )

-- `delete_session`
unfoldable pub delete_session : Env → ℕ → String → String → Handler (Unit {0})
delete_session e now user_id raw = do
  session_id ← normalize_uuid e raw "invalid session id"
  n ← execute Make.db_error (archive now session_id user_id)
  if n == 0 then raise session_not_found else pure tt
