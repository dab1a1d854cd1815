-- ===== src/Agent/Reach.antt =====
-- What a message can make the agent do, whatever its text.
use legal_genie_agent.Prelude.{
  ℕ, String, ◌≡◌, refl, sym, subst, arith, Bool, true, false, not, ◌||◌, Option, if◌then◌else◌,
}
use legal_genie_agent.Errors.Make
use legal_genie_agent.Sql.{World, Result, ok, err, execute}
use legal_genie_agent.Sql.Rules.{
  Keeps, Keeps-execute, Keeps-bind, Keeps-raise, Keeps-on_row, Keeps-if, Keeps-if_eq, Keeps-attempt,
  keeps_rules,
}
use legal_genie_agent.Schema.{Tables, ToolCall}
use legal_genie_agent.Access.{ensure_case_access, ensure_operation}
use legal_genie_agent.Access.Complete.{checks_change_nothing}
use legal_genie_agent.Agent.Tools.{
  Env, Tool, ToolContext, danger_level, requires_approval, find_tool, execute_tool, guards,
  require_access, require_write, require_keyword, with_user,
}
use legal_genie_agent.Agent.Words.{is_some}
use legal_genie_agent.Agent.Intent.{Intent, parse_intent, parse_command, parse_words}
use legal_genie_agent.Agent.Engine.{
  db_text, save_message, save_assistant, insert_call, run_tool, ask_approval, record_result,
}
use legal_genie_agent.Agent.Sessions.{normalize_uuid, fetch_session_summary}
use legal_genie_agent.Agent.Dialogue.{
  Fresh, answer, reply, process_user_message, post_message, touch,
}

-- The intents that `parse_intent` can find.
abbrev pub is_found : Intent → Bool
is_found Intent.move_node = false
is_found Intent.delete_node = false
is_found Intent.parse_file = false
is_found Intent.create_person = false
is_found Intent.merge_persons = false
is_found _ = true

record IsFound (i : Intent) : Type 0 where
  pub found : is_found i ≡ true

IsFound-if : (b : Bool) (i j : Intent) → IsFound i → IsFound j → IsFound (if b then i else j)
IsFound-if true i j hi hj = hi
IsFound-if false i j hi hj = hj

IsFound-list_nodes : IsFound Intent.list_nodes
IsFound-list_nodes = record { found = refl }

IsFound-list_files : IsFound Intent.list_files
IsFound-list_files = record { found = refl }

IsFound-list_persons : IsFound Intent.list_persons
IsFound-list_persons = record { found = refl }

IsFound-dedupe_persons : IsFound Intent.dedupe_persons
IsFound-dedupe_persons = record { found = refl }

IsFound-search : (keyword : String) → IsFound (Intent.search keyword)
IsFound-search keyword = record { found = refl }

IsFound-create_node : (t e d : Option String) → IsFound (Intent.create_node t e d)
IsFound-create_node t e d = record { found = refl }

IsFound-export_evidence_list : IsFound Intent.export_evidence_list
IsFound-export_evidence_list = record { found = refl }

IsFound-export_timeline_report : (format : String) → IsFound (Intent.export_timeline_report format)
IsFound-export_timeline_report format = record { found = refl }

IsFound-help : IsFound Intent.help
IsFound-help = record { found = refl }

IsFound-unknown : (text : String) → IsFound (Intent.unknown text)
IsFound-unknown text = record { found = refl }

ruleset found_rules = (
  IsFound-if, IsFound-list_nodes, IsFound-list_files, IsFound-list_persons, IsFound-dedupe_persons,
  IsFound-search, IsFound-create_node, IsFound-export_evidence_list, IsFound-export_timeline_report,
  IsFound-help, IsFound-unknown,
)

command_IsFound : (text cmd rest : String) → IsFound (parse_command text cmd rest)
unfolding parse_command
command_IsFound text cmd rest = search found_rules depth 14

words_IsFound : (year text t : String) → IsFound (parse_words year text t)
unfolding parse_words
words_IsFound year text t = search found_rules depth 14

-- No text of a message is read as a wish to move or delete a node, to parse a file, or to create or
-- merge persons: the answers to those intents are never given.
pub parse_intent_never_finds :
    (to_lowercase : String → String) (year text : String)
    → is_found (parse_intent to_lowercase year text) ≡ true
unfolding parse_intent
parse_intent_never_finds to_lowercase year text =
    (IsFound-if _ _ _ (command_IsFound _ _ _) (words_IsFound _ _ _)).found

-- The users, the cases, and who may do what in them are as before.
pub record IsSameCase (s t : Tables) : Type 0 where
  pub users : t.users ≡ s.users
  pub cases : t.cases ≡ s.cases
  pub members : t.members ≡ s.members
  pub permissions : t.permissions ≡ s.permissions

module _ (s : Tables) where
  access-Keeps : (u k : String) → Keeps (IsSameCase s) (ensure_case_access u k)
  access-Keeps u k = record {
    at = λ w h. subst (IsSameCase s) (sym (checks_change_nothing w u k "").0) h;
  }

  operation-Keeps : (u k operation : String) → Keeps (IsSameCase s) (ensure_operation u k operation)
  operation-Keeps u k operation = record {
    at = λ w h. subst (IsSameCase s) (sym (checks_change_nothing w u k operation).3) h;
  }

  message-Keeps :
      (message_id session_id role content : String)
      → Keeps (IsSameCase s) (execute db_text (save_message message_id session_id role content))
  unfolding save_message
  message-Keeps message_id session_id role content =
      Keeps-execute db_text (save_message message_id session_id role content) (λ t h. record {
        users = h.users;
        cases = h.cases;
        members = h.members;
        permissions = h.permissions;
      })

  call-Keeps : (c : ToolCall) → Keeps (IsSameCase s) (execute db_text (insert_call c))
  unfolding insert_call
  call-Keeps c = Keeps-execute db_text (insert_call c) (λ t h. record {
    users = h.users;
    cases = h.cases;
    members = h.members;
    permissions = h.permissions;
  })

  touch-Keeps :
      (now : ℕ) (session_id : String)
      → Keeps (IsSameCase s) (execute Make.db_error (touch now session_id))
  unfolding touch
  touch-Keeps now session_id = Keeps-execute Make.db_error (touch now session_id) (λ t h. record {
    users = h.users;
    cases = h.cases;
    members = h.members;
    permissions = h.permissions;
  })

  ruleset same_rules =
      (keeps_rules, access-Keeps, operation-Keeps, message-Keeps, call-Keeps, touch-Keeps)

  guards-Keeps :
      (e : Env) (ctx : ToolContext) (tool : Tool) (input : String)
      → Keeps (IsSameCase s) (guards e ctx tool input)
  unfolding guards require_access require_write require_keyword with_user
  guards-Keeps e ctx Tool.list_nodes input = search same_rules depth 16
  guards-Keeps e ctx Tool.search input = search same_rules depth 16
  guards-Keeps e ctx Tool.move_node input = search same_rules depth 16
  guards-Keeps e ctx _ input = search same_rules depth 16

  module _ (e : Env) (manual : e.policy_auto ≡ false)
      (reads : (tool : Tool) (ctx : ToolContext) (input : String)
        → requires_approval (danger_level tool) ≡ false
        → Keeps (IsSameCase s) (e.body tool ctx input)) where
    tool-Keeps :
        (ctx : ToolContext) (tool : Tool) (input : String)
        → requires_approval (danger_level tool) ≡ false
        → Keeps (IsSameCase s) (execute_tool e ctx tool input)
    unfolding execute_tool
    tool-Keeps ctx tool input safe =
        Keeps-bind _ _ (guards-Keeps e ctx tool input) (λ u. reads tool ctx input safe)

    result-Keeps :
        (ctx : ToolContext) (session_id call_id message_id tool_name : String) (tool : Tool)
        (input : String) (r : Result String String)
        → Keeps
            (IsSameCase s)
            (record_result e ctx session_id call_id message_id tool_name tool input r)
    unfolding record_result save_assistant
    result-Keeps ctx session_id call_id message_id tool_name tool input (ok output) =
        search same_rules depth 16
    result-Keeps ctx session_id call_id message_id tool_name tool input (err error) =
        search same_rules depth 16

    run_tool-Keeps :
        (ctx : ToolContext) (session_id call_id message_id tool_name input : String)
        → Keeps (IsSameCase s) (run_tool e ctx session_id call_id message_id tool_name input)
    unfolding run_tool ask_approval save_assistant
    run_tool-Keeps ctx session_id call_id message_id tool_name input =
        Keeps-on_row (find_tool tool_name) _ _ (Keeps-raise _) (λ tool.
          Keeps-if_eq (not (requires_approval (danger_level tool)) || e.policy_auto) _ _
            (λ at_once.
              Keeps-bind _ _ (Keeps-attempt _ (tool-Keeps ctx tool input (ground arith)))
                (λ r. result-Keeps ctx session_id call_id message_id tool_name tool input r))
            (λ later. search same_rules depth 16))

    answer-Keeps :
        (f : Fresh) (ctx : ToolContext) (session_id : String) (i : Intent)
        → Keeps (IsSameCase s) (answer e f ctx session_id i)
    unfolding answer reply save_assistant
    answer-Keeps f ctx session_id Intent.help = search same_rules depth 12
    answer-Keeps f ctx session_id (Intent.unknown text) = search same_rules depth 12
    answer-Keeps f ctx session_id (Intent.search keyword) = run_tool-Keeps _ _ _ _ _ _
    answer-Keeps f ctx session_id Intent.list_nodes = run_tool-Keeps _ _ _ _ _ _
    answer-Keeps f ctx session_id Intent.list_files = run_tool-Keeps _ _ _ _ _ _
    answer-Keeps f ctx session_id Intent.list_persons = run_tool-Keeps _ _ _ _ _ _
    answer-Keeps f ctx session_id Intent.dedupe_persons = run_tool-Keeps _ _ _ _ _ _
    answer-Keeps f ctx session_id (Intent.create_node t d x) =
        Keeps-if (not (is_some t) || not (is_some d)) _ _ (search same_rules depth 12)
          (run_tool-Keeps _ _ _ _ _ _)
    answer-Keeps f ctx session_id Intent.move_node = search same_rules depth 12
    answer-Keeps f ctx session_id Intent.delete_node = search same_rules depth 12
    answer-Keeps f ctx session_id Intent.parse_file = search same_rules depth 12
    answer-Keeps f ctx session_id Intent.create_person = search same_rules depth 12
    answer-Keeps f ctx session_id Intent.merge_persons = search same_rules depth 12
    answer-Keeps f ctx session_id Intent.export_evidence_list = run_tool-Keeps _ _ _ _ _ _
    answer-Keeps f ctx session_id (Intent.export_timeline_report x) = run_tool-Keeps _ _ _ _ _ _

    post-Keeps :
        (f : Fresh) (user_id username raw content : String)
        → Keeps (IsSameCase s) (post_message e f user_id username raw content)
    unfolding post_message normalize_uuid fetch_session_summary process_user_message
    post-Keeps f user_id username raw content = search (same_rules, answer-Keeps) depth 20

-- Without the policy "auto", a message, whatever its text and whichever statements fail, leaves the
-- users, the cases, their members and the permission matrix as they were, if the tools of the
-- danger level read do.
pub message_leaves_cases :
    (e : Env) (f : Fresh) (user_id username raw content : String) (w : World Tables)
    → e.policy_auto ≡ false
    → ((tool : Tool) (ctx : ToolContext) (input : String)
        → requires_approval (danger_level tool) ≡ false
        → Keeps (IsSameCase w.tables) (e.body tool ctx input))
    → IsSameCase w.tables (post_message e f user_id username raw content w).1.tables
message_leaves_cases e f user_id username raw content w manual reads =
    (post-Keeps w.tables e manual reads f user_id username raw content).at w
      (record { users = refl; cases = refl; members = refl; permissions = refl })
