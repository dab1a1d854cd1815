-- ===== src/Agent/Intent.antt =====
-- server/src/agent/engine.rs: what a message asks for. `to_lowercase`, which has the tables of
-- Unicode, and the current year are arguments.
use text.Mathlib.Text.{starts_with}
use legal_genie_agent.Prelude.{
  String, ◌=s◌, Bool, ◌||◌, Option, none, List, [], ◌∷◌, any, if◌then◌else◌, trim, trim_start,
}
use legal_genie_agent.Agent.Words.{
  is_some, contains, remove, first_word, without_slashes, after_space, extract_title, extract_date,
}

-- `enum Intent`
pub data Intent : Type 0 where
  list_nodes list_files list_persons dedupe_persons : Intent
  search : (keyword : String) → Intent
  create_node : (title event_time description : Option String) → Intent
  move_node delete_node parse_file create_person merge_persons export_evidence_list : Intent
  export_timeline_report : (format : String) → Intent
  help : Intent
  unknown : (text : String) → Intent

-- The tokens of the patterns of `regex_like`, which has `|` between them.
unfoldable pub regex_like : String → List String → Bool
regex_like text tokens = any (λ token. contains text token) tokens

-- The commands, which begin with a slash.
unfoldable pub parse_command : String → String → String → Intent
parse_command text cmd rest =
    if cmd =s "cases" || (cmd =s "nodes" || cmd =s "timeline")
    then list_nodes
    else if cmd =s "files" || cmd =s "evidence"
    then list_files
    else if cmd =s "persons" || cmd =s "people"
    then list_persons
    else if cmd =s "dedupe"
    then dedupe_persons
    else if cmd =s "search"
    then search rest
    else if cmd =s "export"
    then (if contains rest "pdf" || contains rest "report"
        then export_timeline_report "pdf"
        else export_evidence_list)
    else if cmd =s "help"
    then help
    else unknown text

unfoldable pub keyword_of : String → String
keyword_of t = trim (
    remove
      (remove (remove (remove (remove (remove (remove t "搜索") "查找") "检索") "search") "find") "搜一下")
      "帮我找")

-- The keywords, for a text in lower case.
unfoldable pub parse_words : String → String → String → Intent
parse_words current_year text t =
    let has : List String → Bool = regex_like t in
    let title = extract_title text in
    let date = extract_date current_year text in
    if has ("help" ∷ "帮助" ∷ "能做什么" ∷ "怎么用" ∷ [])
    then help
    else if has ("去重" ∷ "合并" ∷ "重复" ∷ "dedupe" ∷ [])
    then dedupe_persons
    else if has ("人物" ∷ "人员" ∷ "person" ∷ "people" ∷ [])
    then list_persons
    else if has ("导出" ∷ "export" ∷ [])
    then (if has ("证据清单" ∷ "evidence-list" ∷ "xlsx" ∷ [])
        then export_evidence_list
        else export_timeline_report (if has ("html" ∷ []) then "html" else "pdf"))
    else if has ("证据" ∷ "文件" ∷ "上传" ∷ "材料" ∷ "file" ∷ "evidence" ∷ [])
    then list_files
    else if has ("时间轴" ∷ "节点" ∷ "timeline" ∷ "node" ∷ [])
    then (if has ("新建" ∷ "新增" ∷ "创建" ∷ "添加" ∷ "add" ∷ "create" ∷ "new" ∷ [])
          || (is_some title || is_some date)
        then create_node title date none
        else list_nodes)
    else if has ("搜索" ∷ "查找" ∷ "检索" ∷ "search" ∷ "find" ∷ "搜一下" ∷ "帮我找" ∷ [])
    then search (keyword_of t)
    else unknown text

-- `parse_intent`
unfoldable pub parse_intent : (String → String) → String → String → Intent
parse_intent to_lowercase current_year text =
    let t = to_lowercase (trim text) in
    if starts_with t "/"
    then parse_command text (without_slashes (first_word (trim_start t))) (trim (after_space t))
    else parse_words current_year text t
