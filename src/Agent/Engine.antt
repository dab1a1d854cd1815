-- ===== src/Agent/Engine.antt =====
-- server/src/agent/engine.rs: the pipeline that runs a tool or leaves it for approval, and the
-- answer to a message. Identifiers (`Uuid::new_v4`) are arguments.
use legal_genie_agent.Prelude.{
  String, ◌<>◌, true, false, not, ◌||◌, Option, none, some, List, [], ◌∷◌, ◌++◌, if◌then◌else◌,
}
use legal_genie_agent.Sql.{
  Result, ok, err, Action, raise, pure, execute, attempt, on_row, ◌>>=◌, ◌>>◌,
}
use legal_genie_agent.Schema.{Tables, ToolCall}
use legal_genie_agent.Agent.Tools.{
  as_str, requires_approval, Tool, description, danger_level, find_tool, ToolContext, Env,
  execute_tool,
}

-- An error of `anyhow`, by its text.
abbrev pub Anyhow : Type 0 → Type 0
Anyhow A = Action Tables String A

abbrev pub db_text : String → String
db_text e = e

-- The JSON objects of `AgentRun`, by their fields.
pub record CallView : Type 0 where
  pub id : String
  pub tool : String
  pub status : String
  pub danger_level : Option String
  pub input : Option String
  pub output : Option String

pub record ApprovalView : Type 0 where
  pub id : String
  pub tool : String
  pub danger_level : String
  pub input : String
  pub description : String

pub record AgentRun : Type 0 where
  pub assistant_text : String
  pub tool_calls : List CallView
  pub pending_approvals : List ApprovalView

-- `save_assistant`
unfoldable pub save_message : String → String → String → String → Tables → Unit {0} × Tables
save_message message_id session_id role content t = (
  tt,
  record t {
    messages =
        t.messages
        ++ record { id = message_id; session_id = session_id; role = role; content = content } ∷ [];
  },
)

unfoldable pub save_assistant : String → String → String → Anyhow (Unit {0})
save_assistant message_id session_id content =
    execute db_text (save_message message_id session_id "assistant" content)

-- INSERT INTO agent_tool_calls
unfoldable pub insert_call : ToolCall → Tables → Unit {0} × Tables
insert_call c t = (tt, record t { tool_calls = t.tool_calls ++ c ∷ [] })

module _ (e : Env) (ctx : ToolContext) (session_id tool_call_id message_id : String) where
  -- The row of a call that ran at once; the columns left out have their defaults.
  unfoldable pub executed_call : String → Tool → String → String → ToolCall
  executed_call tool_name tool input output = record {
    id = tool_call_id;
    session_id = session_id;
    tool_name = tool_name;
    input = input;
    output = some output;
    status = "executed";
    requires_approval = false;
    danger_level = as_str (danger_level tool);
    error = none;
    requested_by = ctx.user_id;
    decided_by = none;
    decided_at = none;
  }

  unfoldable pub failed_call : String → Tool → String → String → ToolCall
  failed_call tool_name tool input error = record {
    id = tool_call_id;
    session_id = session_id;
    tool_name = tool_name;
    input = input;
    output = none;
    status = "failed";
    requires_approval = false;
    danger_level = as_str (danger_level tool);
    error = some error;
    requested_by = ctx.user_id;
    decided_by = none;
    decided_at = none;
  }

  unfoldable pub pending_call : String → Tool → String → ToolCall
  pending_call tool_name tool input = record {
    id = tool_call_id;
    session_id = session_id;
    tool_name = tool_name;
    input = input;
    output = none;
    status = "pending";
    requires_approval = true;
    danger_level = as_str (danger_level tool);
    error = none;
    requested_by = ctx.user_id;
    decided_by = none;
    decided_at = none;
  }

  -- The `match` on the result of the tool.
  unfoldable pub record_result : String → Tool → String → Result String String → Anyhow AgentRun
  record_result tool_name tool input (ok output) = do
    execute db_text (insert_call (executed_call tool_name tool input output))
    let summary = e.summarize_tool_output tool_name output
    save_assistant message_id session_id summary
    pure (record {
      assistant_text = summary;
      tool_calls =
          record {
            id = tool_call_id;
            tool = tool_name;
            status = "executed";
            danger_level = none;
            input = none;
            output = some output;
          }
          ∷ [];
      pending_approvals = [];
    })
  record_result tool_name tool input (err error) = do
    execute db_text (insert_call (failed_call tool_name tool input error))
    let content = "工具执行失败：" <> error
    save_assistant message_id session_id content
    pure (record { assistant_text = content; tool_calls = []; pending_approvals = [] })

  -- The branch that does not execute the tool.
  unfoldable pub ask_approval : String → Tool → String → Anyhow AgentRun
  ask_approval tool_name tool input = do
    execute db_text (insert_call (pending_call tool_name tool input))
    let content =
        "已生成待确认动作：" <> description tool <> "（" <> as_str (danger_level tool) <> " 级）。确认后才会真正写入。"
    save_assistant message_id session_id content
    pure (record {
      assistant_text = content;
      tool_calls =
          record {
            id = tool_call_id;
            tool = tool_name;
            status = "pending";
            danger_level = some (as_str (danger_level tool));
            input = some input;
            output = none;
          }
          ∷ [];
      pending_approvals =
          record {
            id = tool_call_id;
            tool = tool_name;
            danger_level = as_str (danger_level tool);
            input = input;
            description = description tool;
          }
          ∷ [];
    })

  -- `run_tool`
  unfoldable pub run_tool : String → String → Anyhow AgentRun
  run_tool tool_name input =
      on_row (find_tool tool_name) (raise ("unknown tool: " <> tool_name)) λ tool.
        if not (requires_approval (danger_level tool)) || e.policy_auto
        then (do
          result ← attempt (execute_tool e ctx tool input)
          record_result tool_name tool input result)
        else ask_approval tool_name tool input
