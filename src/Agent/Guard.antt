-- ===== src/Agent/Guard.antt =====
-- The messages that ask for a tool which needs an approval: `run_tool` of
-- server/src/agent/engine.rs.
use legal_genie_agent.Prelude.{String, ◌≡◌, true, false, none, some, [], ◌∷◌, ◌++◌, ◌<>◌}
use legal_genie_agent.Sql.{World, healthy, ok, Action}
use legal_genie_agent.Schema.{Tables}
use legal_genie_agent.Agent.Tools.{
  Tool, ToolContext, Env, danger_level, as_str, description, requires_approval, find_tool,
}
use legal_genie_agent.Agent.Engine.{
  run_tool, ask_approval, pending_call, insert_call, save_assistant, save_message,
}

-- Without the policy "auto", a message does not execute a tool above the danger level read:
-- whatever the body of the tool would do, and whichever statements fail, the run is the same.
pub run_tool_waits :
    (e : Env) (ctx : ToolContext) (session_id call_id message_id tool_name input : String)
    (tool : Tool) (w : World Tables)
    (body : Tool → ToolContext → String → Action Tables String String)
    → find_tool tool_name ≡ some tool
    → requires_approval (danger_level tool) ≡ true
    → e.policy_auto ≡ false
    → run_tool e ctx session_id call_id message_id tool_name input w
      ≡ run_tool (record e { body = body }) ctx session_id call_id message_id tool_name input w
unfolding run_tool ask_approval pending_call
run_tool_waits e ctx session_id call_id message_id tool_name input tool w body found danger manual =
    rw (found, danger, manual)

asks :
    (e : Env) (ctx : ToolContext) (session_id call_id message_id tool_name input : String)
    (tool : Tool) (t : Tables)
    → find_tool tool_name ≡ some tool
    → requires_approval (danger_level tool) ≡ true
    → e.policy_auto ≡ false
    → run_tool e ctx session_id call_id message_id tool_name input (healthy t)
      ≡ ask_approval e ctx session_id call_id message_id tool_name tool input (healthy t)
unfolding run_tool
asks e ctx session_id call_id message_id tool_name input tool t found danger manual =
    rw (found, danger, manual)

abbrev pub question_about : Tool → String
question_about tool =
    "已生成待确认动作：" <> description tool <> "（" <> as_str (danger_level tool) <> " 级）。确认后才会真正写入。"

-- Without the policy "auto", on a connection that works, a message that asks for a tool above the
-- danger level read adds one pending call of this very tool, in the session, in the name of the
-- user, with the input as it is and the danger level of the tool, and the assistant's question in
-- the session, which names the action and its level; it changes nothing else. The answer shows the
-- question and the one call, which waits for an approval.
pub run_tool_asks :
    (e : Env) (ctx : ToolContext) (session_id call_id message_id tool_name input : String)
    (tool : Tool) (t : Tables)
    → find_tool tool_name ≡ some tool
    → requires_approval (danger_level tool) ≡ true
    → e.policy_auto ≡ false
    → run_tool e ctx session_id call_id message_id tool_name input (healthy t) ≡ (
      ok (record {
        assistant_text = question_about tool;
        tool_calls =
            record {
              id = call_id;
              tool = tool_name;
              status = "pending";
              danger_level = some (as_str (danger_level tool));
              input = some input;
              output = none;
            }
            ∷ [];
        pending_approvals =
            record {
              id = call_id;
              tool = tool_name;
              danger_level = as_str (danger_level tool);
              input = input;
              description = description tool;
            }
            ∷ [];
      }),
      healthy (record t {
        tool_calls =
            t.tool_calls
            ++ record {
              id = call_id;
              session_id = session_id;
              tool_name = tool_name;
              input = input;
              output = none;
              status = "pending";
              requires_approval = true;
              danger_level = as_str (danger_level tool);
              error = none;
              requested_by = ctx.user_id;
              decided_by = none;
              decided_at = none;
            }
              ∷ [];
        messages =
            t.messages
            ++ record {
              id = message_id;
              session_id = session_id;
              role = "assistant";
              content = question_about tool;
            }
              ∷ [];
      }),
    )
unfolding ask_approval pending_call insert_call save_assistant save_message
run_tool_asks e ctx session_id call_id message_id tool_name input tool t found danger manual =
    asks e ctx session_id call_id message_id tool_name input tool t found danger manual
