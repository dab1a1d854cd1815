-- ===== src/Agent/Tools.antt =====
-- server/src/agent/tools.rs: the registry of the tools, their danger levels and the guards in front
-- of what they do. What a tool does behind its guards is a parameter (`Env.body`).
use legal_genie_agent.Prelude.{
  String, ◌=s◌, Bool, true, false, Option, none, some, List, [], ◌∷◌, if◌then◌else◌, is_empty, trim,
}
use legal_genie_agent.Sql.{Result, Action, raise, pure, map_err, on_row, ◌>>=◌, ◌>>◌}
use legal_genie_agent.Errors.{AppError}
use legal_genie_agent.Schema.{Tables}
use legal_genie_agent.Access.{ensure_case_access, ensure_operation}

pub data DangerLevel : Type 0 where
  read write sensitive destructive : DangerLevel

-- `DangerLevel::as_str`
abbrev pub as_str : DangerLevel → String
as_str read = "read"
as_str write = "write"
as_str sensitive = "sensitive"
as_str destructive = "destructive"

-- `DangerLevel::requires_approval`
abbrev pub requires_approval : DangerLevel → Bool
requires_approval read = false
requires_approval _ = true

-- The implementations of the trait `Tool`.
pub data Tool : Type 0 where
  list_nodes list_files list_persons dedupe_persons search create_node move_node : Tool
  delete_node parse_file create_person merge_persons export_evidence_list : Tool
  export_timeline_report : Tool

-- `Tool::name`
unfoldable pub name : Tool → String
name list_nodes = "list_nodes"
name list_files = "list_files"
name list_persons = "list_persons"
name dedupe_persons = "dedupe_persons"
name search = "search"
name create_node = "create_node"
name move_node = "move_node"
name delete_node = "delete_node"
name parse_file = "parse_file"
name create_person = "create_person"
name merge_persons = "merge_persons"
name export_evidence_list = "export_evidence_list"
name export_timeline_report = "export_timeline_report"

-- `Tool::description`
unfoldable pub description : Tool → String
description list_nodes = "列出当前案件的时间轴节点"
description list_files = "列出当前案件的证据文件与解析/翻译状态"
description list_persons = "列出当前案件的人物"
description dedupe_persons = "给出当前案件的人物去重建议"
description search = "在案件材料中搜索（节点/证据/人物）"
description create_node = "在当前案件创建时间轴节点"
description move_node = "移动时间轴节点到新日期"
description delete_node = "删除时间轴节点（软删除）"
description parse_file = "触发证据文件解析"
description create_person = "在当前案件创建人物"
description merge_persons = "在当前案件内合并两个人物（保留 target）"
description export_evidence_list = "生成案件证据清单（xlsx）"
description export_timeline_report = "生成时间轴报告（pdf/html）"

-- `Tool::danger_level`
unfoldable pub danger_level : Tool → DangerLevel
danger_level list_nodes = read
danger_level list_files = read
danger_level list_persons = read
danger_level dedupe_persons = read
danger_level search = read
danger_level create_node = write
danger_level move_node = write
danger_level delete_node = destructive
danger_level parse_file = write
danger_level create_person = write
danger_level merge_persons = sensitive
danger_level export_evidence_list = write
danger_level export_timeline_report = write

-- `all_tools`
abbrev pub all_tools : List Tool
all_tools =
    list_nodes ∷ list_files ∷ list_persons ∷ dedupe_persons ∷ search ∷ create_node ∷ move_node
    ∷ delete_node ∷ parse_file ∷ create_person ∷ merge_persons ∷ export_evidence_list
    ∷ export_timeline_report ∷ []

unfoldable pub find_in : String → List Tool → Option Tool
unfolding name
find_in wanted [] = none
find_in wanted (t ∷ ts) = if name t =s wanted then some t else find_in wanted ts

-- `find_tool`
unfoldable pub find_tool : String → Option Tool
unfolding find_in
find_tool wanted = find_in wanted all_tools

-- `ToolContext`, less the application state.
pub record ToolContext : Type 0 where
  pub user_id : String
  pub username : String
  pub case_id : Option String

-- What the agent uses of other code. JSON values stand by their texts.
pub record Env : Type 0 where
  -- `Uuid::parse_str`, and the canonical text of the result.
  pub parse_uuid : String → Option String
  -- `serde_json::from_str`, printed again by `to_string`.
  pub parse_json : String → Result String String
  -- `json!` of an object with these fields, an absent one as null.
  pub json_object : List (String × Option String) → String
  -- The field of a JSON object that is a string, as `input.get(k).and_then(|v| v.as_str())`.
  pub string_field : String → String → Option String
  -- `config::redact_sensitive`, a replacement by regular expressions.
  pub redact_sensitive : String → String
  -- `summarize_tool_output` of engine.rs.
  pub summarize_tool_output : String → String → String
  -- `config.approval_policy == "auto"`
  pub policy_auto : Bool
  -- What a tool does with its input, behind the guards that `execute_tool` models: the tables, as
  -- far as the model has them, and the output's JSON.
  pub body : Tool → ToolContext → String → Action Tables String String

-- The text of an `AppError`, which is its message.
abbrev pub message_of : AppError → String
message_of (AppError.bad_request m _) = m
message_of (AppError.too_many_requests m _ _) = m
message_of (AppError.unauthorized m _) = m
message_of (AppError.forbidden m _) = m
message_of (AppError.not_found m _) = m
message_of (AppError.conflict m _) = m
message_of (AppError.internal m _) = m

module _ (e : Env) (ctx : ToolContext) where
  -- `uuid_from(ctx.user_id)?`
  unfoldable pub with_user :
      (String → Action Tables String (Unit {0})) → Action Tables String (Unit {0})
  with_user check = on_row (e.parse_uuid ctx.user_id) (raise "invalid user id") check

  -- `require_case` and `ensure_case_access` of tools.rs.
  unfoldable pub require_access : Action Tables String String
  unfolding with_user
  require_access = on_row ctx.case_id (raise "case_id required") λ case_id. do
    with_user (λ user_id. map_err message_of (ensure_case_access user_id case_id))
    pure case_id

  -- The guards of a tool that writes in its case.
  unfoldable pub require_write : Action Tables String String
  unfolding require_access
  require_write = do
    case_id ← require_access
    with_user (λ user_id. map_err message_of (ensure_operation user_id case_id "case:write"))
    pure case_id

  -- `search` asks for a keyword before it looks at the case.
  unfoldable pub require_keyword : String → Action Tables String (Unit {0})
  require_keyword input =
      on_row (e.string_field "keyword" input) (raise "keyword required")
        λ keyword. if is_empty (trim keyword) then raise "keyword required" else pure tt

  -- The guards of `Tool::execute`. `move_node`, `delete_node` and `parse_file` find their case from
  -- the row that the input names, so their guards are part of their bodies.
  unfoldable pub guards : Tool → String → Action Tables String (Unit {0})
  unfolding require_access require_write require_keyword
  guards list_nodes input = do case_id ← require_access; pure tt
  guards list_files input = do case_id ← require_access; pure tt
  guards list_persons input = do case_id ← require_access; pure tt
  guards dedupe_persons input = do case_id ← require_access; pure tt
  guards search input = do require_keyword input; case_id ← require_access; pure tt
  guards move_node input = pure tt
  guards delete_node input = pure tt
  guards parse_file input = pure tt
  guards _ input = do case_id ← require_write; pure tt

  -- `Tool::execute`
  unfoldable pub execute_tool : Tool → String → Action Tables String String
  unfolding guards
  execute_tool tool input = do guards tool input; e.body tool ctx input
