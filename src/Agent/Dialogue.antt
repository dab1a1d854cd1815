-- ===== src/Agent/Dialogue.antt =====
-- A message to the agent: `process_user_message` of server/src/agent/engine.rs and `post_message`
-- of server/src/agent/routes.rs.
use legal_genie_agent.Prelude.{
  ℕ, String, ◌<>◌, ◌=s◌, not, ◌||◌, Option, some, List, [], ◌∷◌, if◌then◌else◌, is_empty, trim,
}
use legal_genie_agent.Errors.{AppError}
use legal_genie_agent.Errors.Make
use legal_genie_agent.Sql.{pure, raise, execute, map_err, ◌>>=◌, ◌>>◌}
use legal_genie_agent.Sql.Rows.{update_where}
use legal_genie_agent.Schema.{Tables, Session}
use legal_genie_agent.Agent.Tools.{Env, ToolContext}
use legal_genie_agent.Agent.Words.{is_some}
use legal_genie_agent.Agent.Intent.{Intent, parse_intent}
use legal_genie_agent.Agent.Engine.{
  Anyhow, AgentRun, db_text, save_message, save_assistant, run_tool,
}
use legal_genie_agent.Agent.Sessions.{Handler, normalize_uuid, fetch_session_summary}

-- The arguments that stand for identifiers, the year and the Unicode tables.
pub record Fresh : Type 0 where
  pub now : ℕ
  pub user_message_id : String
  pub message_id : String
  pub call_id : String
  pub current_year : String
  pub to_lowercase : String → String

-- `help_text`
abbrev pub help_text : String
help_text =
    "我可以帮你处理案件工作台里的常规操作：\n· 列出时间轴节点 / 证据文件 / 人物\n· 搜索案件材料（关键词）\n· 人物去重建议\n· 新建节点（标题 + 日期）、导出证据清单 / 时间轴报告\n\n直接输入意图即可，例如：「列出节点」「搜索 补充协议」「新建节点「签约」2024-01-12」\n写操作（新建、导出、合并、删除）会先生成待确认动作，确认后才执行。"

module _ (e : Env) (f : Fresh) (ctx : ToolContext) (session_id : String) where
  -- An answer without a tool.
  unfoldable pub reply : String → Anyhow AgentRun
  reply content = do
    save_assistant f.message_id session_id content
    pure (record { assistant_text = content; tool_calls = []; pending_approvals = [] })

  abbrev pub use_tool : String → List (String × Option String) → Anyhow AgentRun
  use_tool tool_name fields =
      run_tool e ctx session_id f.call_id f.message_id tool_name (e.json_object fields)

  -- The `match intent` of `process_user_message`.
  unfoldable pub answer : Intent → Anyhow AgentRun
  answer Intent.help = reply help_text
  answer (Intent.unknown text) =
      reply ("我暂时无法理解这条指令（" <> text <> "）。试试：列出节点 / 列出证据 / 人物去重 / 搜索 xxx / 导出时间轴报告。")
  answer (Intent.search keyword) = use_tool "search" (("keyword", some keyword) ∷ [])
  answer Intent.list_nodes = use_tool "list_nodes" []
  answer Intent.list_files = use_tool "list_files" []
  answer Intent.list_persons = use_tool "list_persons" []
  answer Intent.dedupe_persons = use_tool "dedupe_persons" []
  answer (Intent.create_node title event_time description) =
      if not (is_some title) || not (is_some event_time)
      then reply "创建节点缺少标题或日期。请按此格式补充：新建节点「标题」2024-01-12。"
      else use_tool "create_node"
          (("title", title) ∷ ("event_time", event_time) ∷ ("description", description) ∷ [])
  answer Intent.move_node = reply "移动节点需要 node_id 与新日期。在时间轴中选择节点后告诉我，或使用 /timeline 查看。"
  answer Intent.delete_node = reply "删除节点需要 node_id。在时间轴中选择节点后告诉我。"
  answer Intent.parse_file = reply "解析证据需要 file_id。先在证据视图选择文件，或让我列出证据文件。"
  answer Intent.create_person = reply "创建人物需要姓名与角色，例如：新建人物 张三 当事人。"
  answer Intent.merge_persons = reply "人物合并需要 source 与 target 人物。使用「人物去重」查看建议后告诉我。"
  answer Intent.export_evidence_list = use_tool "export_evidence_list" []
  answer (Intent.export_timeline_report format) =
      use_tool "export_timeline_report" (("format", some format) ∷ [])

  -- `process_user_message`
  unfoldable pub process_user_message : String → Anyhow AgentRun
  process_user_message text = do
    execute db_text (save_message f.user_message_id session_id "user" text)
    answer (parse_intent f.to_lowercase f.current_year text)

-- UPDATE agent_sessions SET updated_at = utc_text() WHERE id = $1
unfoldable pub touch : ℕ → String → Tables → Unit {0} × Tables
touch now session_id t = (
  tt,
  record t {
    sessions =
        update_where (λ s. s.id =s session_id) (λ s. record s { updated_at = now }) t.sessions;
  },
)

abbrev pub agent_error : String → AppError
agent_error e = Make.internal ("agent error: " <> e)

-- `post_message`: the session and what the agent did.
unfoldable pub post_message :
    Env → Fresh → String → String → String → String → Handler (Session × AgentRun)
post_message e f user_id username raw raw_content = do
  session_id ← normalize_uuid e raw "invalid session id"
  summary ← fetch_session_summary user_id session_id
  let content = trim raw_content
  let ctx : ToolContext = record {
    user_id = user_id;
    username = username;
    case_id = summary.case_id;
  }
  if is_empty content then raise (Make.bad_request "content required") else (do
    run ← map_err agent_error (process_user_message e f ctx session_id content)
    execute Make.db_error (touch f.now session_id)
    pure (summary, run))
