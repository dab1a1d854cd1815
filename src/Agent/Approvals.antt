-- ===== src/Agent/Approvals.antt =====
-- server/src/agent/routes.rs: the calls that wait for a human's decision.
use legal_genie_agent.Prelude.{
  ℕ, String, ◌<>◌, ◌=s◌, Bool, true, false, not, ◌&&◌, Option, none, some, List, [], ◌∷◌,
  if◌then◌else◌,
}
use legal_genie_agent.Errors.{AppError}
use legal_genie_agent.Errors.Make
use legal_genie_agent.Sql.{
  Result, ok, err, raise, pure, query, execute, attempt, map_err, on_row, ◌>>=◌, ◌>>◌,
}
use legal_genie_agent.Sql.Rows.{first_where, select_where, update_where}
use legal_genie_agent.Schema.{Tables, Session, ToolCall}
use legal_genie_agent.Access.{ensure_case_access}
use legal_genie_agent.Agent.Tools.{Env, Tool, ToolContext, find_tool, execute_tool}
use legal_genie_agent.Agent.Engine.{save_assistant}
use legal_genie_agent.Agent.Sessions.{Handler, normalize_uuid}

-- A row of the JOIN of agent_tool_calls with agent_sessions.
pub record Joined : Type 0 where
  pub call : ToolCall
  pub session : Session

abbrev pub pair_up : ToolCall → Option Session → List Joined → List Joined
pair_up c none rest = rest
pair_up c (some s) rest = record { call = c; session = s } ∷ rest

unfoldable pub join_sessions : List Session → List ToolCall → List Joined
join_sessions ss [] = []
join_sessions ss (c ∷ cs) =
    pair_up c (first_where (λ s. s.id =s c.session_id) ss) (join_sessions ss cs)

-- What `list_pending_approvals` shows of a call.
pub record PendingApproval : Type 0 where
  pub id : String
  pub tool : String
  pub input : String
  pub danger_level : String
  pub session_id : String
  pub case_id : String

-- The condition on the case, if the query names one; a session without a case fails it.
unfoldable pub in_case : Option String → Option String → Bool
in_case none row = true
in_case (some wanted) none = false
in_case (some wanted) (some case_id) = case_id =s wanted

unfoldable pub awaits : Option String → Joined → Bool
unfolding in_case
awaits wanted j =
    j.call.status =s "pending"
    && (j.call.requires_approval
        && (j.session.status =s "active" && in_case wanted j.session.case_id))

abbrev pub or_null : Result String String → String
or_null (ok v) = v
or_null (err e) = "null"

abbrev pub is_ok : Result AppError (Unit {0}) → Bool
is_ok (ok u) = true
is_ok (err e) = false

module _ (e : Env) (user_id : String) where
  abbrev pub shown : Joined → String → PendingApproval
  shown j case_id = record {
    id = j.call.id;
    tool = j.call.tool_name;
    input = or_null (e.parse_json j.call.input);
    danger_level = j.call.danger_level;
    session_id = j.session.id;
    case_id = case_id;
  }

  -- The loop of `list_pending_approvals`: rows whose case the user cannot access are skipped, and so
  -- are those on which the check itself fails.
  unfoldable pub visible : List Joined → Handler (List PendingApproval)
  visible [] = pure []
  visible (j ∷ js) =
      let rest = visible js in
      on_row j.session.case_id rest λ case_id. do
        access ← attempt (ensure_case_access user_id case_id)
        if is_ok access then (do others ← rest; pure (shown j case_id ∷ others)) else rest

  unfoldable pub wanted_case : Option String → Handler (Option String)
  wanted_case none = pure none
  wanted_case (some raw) = do case_id ← normalize_uuid e raw "invalid case_id"; pure (some case_id)

  -- `list_pending_approvals`
  unfoldable pub list_pending_approvals : Option String → Handler (List PendingApproval)
  list_pending_approvals raw = do
    wanted ← wanted_case raw
    rows ←
        query Make.db_error
          (λ t. select_where (awaits wanted) (join_sessions t.sessions t.tool_calls))
    visible rows

-- The answer to a decision.
pub data Decision : Type 0 where
  rejected : (id : String) → Decision
  executed : (id output summary : String) → Decision

unfoldable pub mine : String → String → Joined → Bool
mine approval_id user_id j =
    j.call.id =s approval_id && (j.call.requires_approval && j.call.requested_by =s user_id)

-- UPDATE agent_tool_calls SET f WHERE id = $n
unfoldable pub update_call : String → (ToolCall → ToolCall) → Tables → Unit {0} × Tables
update_call call_id f t =
    (tt, record t { tool_calls = update_where (λ c. c.id =s call_id) f t.tool_calls })

abbrev pub decided : ℕ → String → String → ToolCall → ToolCall
decided now user_id status c = record c {
  status = status;
  decided_by = some user_id;
  decided_at = some now;
}

-- The column is read into a `String`, so sqlx refuses a session without a case.
abbrev pub null_case : AppError
null_case =
    Make.db_error
      "error occurred while decoding column 2: unexpected null; try decoding as an `Option`"

module _ (e : Env) (now : ℕ) (message_id user_id username : String) where
  abbrev pub say : String → String → Handler (Unit {0})
  say session_id content = map_err Make.db_error (save_assistant message_id session_id content)

  unfoldable pub reject : Joined → Handler Decision
  reject j = do
    execute Make.db_error (update_call j.call.id (decided now user_id "rejected"))
    say j.session.id "已取消该动作，未做任何写入。"
    pure (rejected j.call.id)

  -- The `match` on the result of the tool.
  unfoldable pub conclude : Joined → Result String String → Handler Decision
  conclude j (ok output) = do
    execute Make.db_error
        (update_call j.call.id (λ c. record c { status = "executed"; output = some output }))
    let summary = e.summarize_tool_output j.call.tool_name output
    say j.session.id summary
    pure (executed j.call.id output summary)
  conclude j (err error) = do
    execute Make.db_error (
        update_call j.call.id
          (λ c. record c { status = "failed"; error = some (e.redact_sensitive error) }))
    say j.session.id ("工具执行失败：" <> error)
    raise (Make.internal ("tool execution failed: " <> error))

  -- `tool.execute` for the user who confirmed, in the case of the session.
  unfoldable pub run_confirmed : Joined → String → String → Tool → Handler (Result String String)
  run_confirmed j case_id input tool =
      let ctx : ToolContext = record {
        user_id = user_id;
        username = username;
        case_id = some case_id;
      } in
      attempt (execute_tool e ctx tool input)

  unfoldable pub approve : Joined → Handler (Unit {0})
  approve j = execute Make.db_error (update_call j.call.id (decided now user_id "approved"))

  unfoldable pub confirm : Joined → String → String → Handler Decision
  confirm j case_id input =
      on_row (find_tool j.call.tool_name)
        (raise (Make.bad_request ("unknown tool: " <> j.call.tool_name)))
        λ tool. do approve j; result ← run_confirmed j case_id input tool; conclude j result

  -- `execute_approval`, once the row is read.
  unfoldable pub decide : Bool → Joined → Handler Decision
  decide confirmed j = on_row j.session.case_id (raise null_case) λ case_id.
      if not (j.call.status =s "pending")
      then raise (Make.conflict "approval already decided")
      else elim (e.parse_json j.call.input) [
        | err text ↦ raise (Make.bad_request text)
        | ok input ↦ (if confirmed then confirm j case_id input else reject j)
      ]

  -- `execute_approval`; `confirm_approval` and `reject_approval` call it with true and false.
  unfoldable pub execute_approval : Bool → String → Handler Decision
  execute_approval confirmed raw = do
    approval_id ← normalize_uuid e raw "invalid approval id"
    row ←
        query Make.db_error
          (λ t. first_where (mine approval_id user_id) (join_sessions t.sessions t.tool_calls))
    on_row row (raise (Make.not_found_code 480102 "approval not found")) λ j. decide confirmed j
