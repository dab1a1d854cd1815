-- ===== src/Agent/Tests.antt =====
-- The agent on a small database: ann owns the case k1, and asked in the session s1 for a timeline
-- node, which waits for her decision as the call c1.
use mathlib.Core.List.{Memᴰ}
use legal_genie_agent.Prelude.{
  String, ◌≡◌, ◌≢◌, ◌↔◌, ◌∙◌, refl, sym, true, false, none, some, [], ◌∷◌, ◌++◌, trim,
}
use legal_genie_agent.Sql.{World, healthy, Action, ok, err, pure}
use legal_genie_agent.Sql.Rows.{only_row, first_where}
use legal_genie_agent.Schema.{Tables, Case, Session, ToolCall}
use legal_genie_agent.Access.Roles.{IsKeyed, CanDo}
use legal_genie_agent.Agent.Tools.{
  Tool, create_node, export_evidence_list, Env, ToolContext, find_tool, name, guards, danger_level,
  requires_approval, as_str, description,
}
use legal_genie_agent.Agent.Engine.{AgentRun, run_tool}
use legal_genie_agent.Agent.Guard.{question_about, run_tool_waits, run_tool_asks}
use legal_genie_agent.Agent.Registry.{guards_iff}
use legal_genie_agent.Agent.Approvals.{
  Decision, Joined, PendingApproval, join_sessions, mine, null_case, list_pending_approvals,
  execute_approval,
}
use legal_genie_agent.Sql.Rules.{Keeps-pure}
use legal_genie_agent.Agent.Words.{extract_date, extract_title}
use legal_genie_agent.Agent.Intent.{Intent, parse_intent}
use legal_genie_agent.Agent.Dialogue.{Fresh, post_message}
use legal_genie_agent.Agent.Reach.{IsSameCase, message_leaves_cases}
use legal_genie_agent.Agent.Decided.{approval_decided_once}
use legal_genie_agent.Agent.Pending.{IsListed, pending_approvals_readable}

abbrev env : Env
env = record {
  parse_uuid = λ s. some s;
  parse_json = λ s. ok s;
  json_object = λ fields. "{}";
  string_field = λ k s. none;
  redact_sensitive = λ s. s;
  summarize_tool_output = λ tool output. "done";
  policy_auto = false;
  body = λ tool ctx input. pure "{}";
}

abbrev ann : ToolContext
ann = record { user_id = "ann"; username = "Ann"; case_id = some "k1" }

abbrev open_case : Case
open_case = record {
  id = "k1";
  name = "Case";
  description = none;
  owner_id = "ann";
  status = "active";
  tags = none;
  created_at = 0;
  updated_at = 0;
}

abbrev session : Session
session = record {
  id = "s1";
  case_id = some "k1";
  user_id = "ann";
  title = "New session";
  status = "active";
  created_at = 1;
  updated_at = 1;
}

abbrev call : ToolCall
call = record {
  id = "c1";
  session_id = "s1";
  tool_name = "create_node";
  input = "{}";
  output = none;
  status = "pending";
  requires_approval = true;
  danger_level = "write";
  error = none;
  requested_by = "ann";
  decided_by = none;
  decided_at = none;
}

abbrev demo : Tables
demo = record {
  users = [];
  cases = open_case ∷ [];
  members = [];
  permissions = [];
  sessions = session ∷ [];
  messages = [];
  tool_calls = call ∷ [];
}

abbrev caseless : Tables
caseless = record demo { sessions = record session { case_id = none } ∷ [] }

demo-IsKeyed : IsKeyed demo
demo-IsKeyed = record {
  case_key = λ c d at at' same. only_row at ∙ sym (only_row at');
  member_key = λ m n at at' same same'. elim at [ ];
}

confirmed :
    (execute_approval env 9 "m1" "ann" "Ann" true "c1" (healthy demo)).0
    ≡ ok (Decision.executed "c1" "{}" "done")
unfolding execute_approval legal_genie_agent.Agent.Sessions.normalize_uuid first_where join_sessions
    mine trim legal_genie_agent.Agent.Approvals.decide legal_genie_agent.Agent.Approvals.confirm
    find_tool legal_genie_agent.Agent.Approvals.approve
    legal_genie_agent.Agent.Approvals.run_confirmed legal_genie_agent.Sql.attempt
    legal_genie_agent.Agent.Approvals.conclude legal_genie_agent.Agent.Tools.execute_tool
    legal_genie_agent.Sql.map_err legal_genie_agent.Access.ensure_case_access
    legal_genie_agent.Access.find_case legal_genie_agent.Agent.Approvals.update_call
    legal_genie_agent.Access.ensure_operation legal_genie_agent.Agent.Engine.save_assistant
    legal_genie_agent.Agent.Engine.save_message legal_genie_agent.Sql.Rows.update_where
confirmed = refl

abbrev decided_tables : Tables
decided_tables = (execute_approval env 9 "m1" "ann" "Ann" true "c1" (healthy demo)).1.tables

approval_decided_once_example :
    (execute_approval env 10 "m2" "ann" "Ann" false "c1" (healthy decided_tables)).0
    ≢ ok (Decision.rejected "c1")
approval_decided_once_example =
    approval_decided_once env 9 10 "m1" "m2" "ann" "ann" "Ann" "Ann" true false "c1" "c1"
      (healthy demo) (healthy decided_tables) (Decision.executed "c1" "{}" "done")
      (Decision.rejected "c1") confirmed refl refl

abbrev shown_call : PendingApproval
shown_call = record {
  id = "c1";
  tool = "create_node";
  input = "{}";
  danger_level = "write";
  session_id = "s1";
  case_id = "k1";
}

listed : (list_pending_approvals env "ann" (some "k1") (healthy demo)).0 ≡ ok (shown_call ∷ [])
unfolding list_pending_approvals legal_genie_agent.Agent.Approvals.wanted_case
    legal_genie_agent.Agent.Sessions.normalize_uuid legal_genie_agent.Agent.Approvals.visible
    legal_genie_agent.Sql.Rows.select_where join_sessions first_where
    legal_genie_agent.Agent.Approvals.awaits trim legal_genie_agent.Sql.attempt
    legal_genie_agent.Access.ensure_case_access legal_genie_agent.Access.find_case
listed = refl

pending_approvals_readable_example : IsListed demo "ann" shown_call
pending_approvals_readable_example =
    pending_approvals_readable env "ann" (some "k1") (healthy demo) (shown_call ∷ []) listed
      shown_call (Memᴰ.head refl)

abbrev stuck : Joined
stuck = record { call = call; session = record session { case_id = none } }

good_id : env.parse_uuid (trim "c1") ≡ some "c1"
unfolding trim
good_id = refl

stuck_found :
    first_where (mine "c1" "ann") (join_sessions caseless.sessions caseless.tool_calls) ≡ some stuck
unfolding mine first_where join_sessions
stuck_found = refl

known : find_tool "create_node" ≡ some create_node
unfolding find_tool
known = refl

dangerous : requires_approval (danger_level create_node) ≡ true
unfolding danger_level
dangerous = refl

abbrev other_body : Tool → ToolContext → String → Action Tables String String
other_body tool ctx input = pure "something else"

run_tool_waits_example :
    run_tool env ann "s1" "c2" "m1" "create_node" "{}" (healthy demo)
    ≡ run_tool
        (record env { body = other_body })
        ann
        "s1"
        "c2"
        "m1"
        "create_node"
        "{}"
        (healthy demo)
run_tool_waits_example =
    run_tool_waits env ann "s1" "c2" "m1" "create_node" "{}" create_node (healthy demo) other_body
      known dangerous refl

run_tool_asks_example : run_tool env ann "s1" "c2" "m1" "create_node" "{}" (healthy demo) ≡ (
  ok (record {
    assistant_text = question_about create_node;
    tool_calls =
        record {
          id = "c2";
          tool = "create_node";
          status = "pending";
          danger_level = some (as_str (danger_level create_node));
          input = some "{}";
          output = none;
        }
        ∷ [];
    pending_approvals =
        record {
          id = "c2";
          tool = "create_node";
          danger_level = as_str (danger_level create_node);
          input = "{}";
          description = description create_node;
        }
        ∷ [];
  }),
  healthy (record demo {
    tool_calls =
        demo.tool_calls
        ++ record {
          id = "c2";
          session_id = "s1";
          tool_name = "create_node";
          input = "{}";
          output = none;
          status = "pending";
          requires_approval = true;
          danger_level = as_str (danger_level create_node);
          error = none;
          requested_by = "ann";
          decided_by = none;
          decided_at = none;
        }
          ∷ [];
    messages =
        record {
          id = "m1";
          session_id = "s1";
          role = "assistant";
          content = question_about create_node;
        }
        ∷ [];
  }),
)
run_tool_asks_example =
    run_tool_asks env ann "s1" "c2" "m1" "create_node" "{}" create_node demo known dangerous refl

guarded : (guards env ann export_evidence_list "{}" (healthy demo)).0 ≡ ok tt
unfolding guards legal_genie_agent.Sql.map_err legal_genie_agent.Access.ensure_case_access
    legal_genie_agent.Access.find_case legal_genie_agent.Access.ensure_operation
guarded = refl

guards_iff_example :
    (guards env ann export_evidence_list "{}" (healthy demo) ≡ (ok tt, healthy demo))
    ↔ CanDo demo "ann" "k1" "case:write"
guards_iff_example =
    guards_iff env ann demo "ann" "k1" export_evidence_list "{}" demo-IsKeyed refl refl refl

abbrev fresh : Fresh
fresh = record {
  now = 9;
  user_message_id = "m1";
  message_id = "m2";
  call_id = "c2";
  current_year = "2026";
  to_lowercase = λ s. s;
}

message_leaves_cases_example :
    IsSameCase demo
      (post_message env fresh "ann" "Ann" "s1" "新建节点「签约」2024-01-12" (healthy demo)).1.tables
message_leaves_cases_example =
    message_leaves_cases env fresh "ann" "Ann" "s1" "新建节点「签约」2024-01-12" (healthy demo) refl
      (λ tool ctx input safe. Keeps-pure "{}")

-- The eight digits that `extract_date` needs are not there: the seventh of January is read as a
-- month 20.
short_date : extract_date "2026" "2024-1-7" ≡ some "2026-20-24"
unfolding extract_date legal_genie_agent.Agent.Words.ascii_digits
short_date = refl

full_date : extract_date "2026" "新建节点「签约」2024-01-12" ≡ some "2024-01-12"
unfolding extract_date legal_genie_agent.Agent.Words.ascii_digits
full_date = refl

full_title : extract_title "新建节点「签约」2024-01-12" ≡ some "签约"
unfolding extract_title legal_genie_agent.Agent.Words.quoted trim
full_title = refl

asks_for_node :
    parse_intent (λ s. s) "2026" "新建节点「签约」2024-01-12"
    ≡ Intent.create_node (some "签约") (some "2024-01-12") none
unfolding parse_intent trim legal_genie_agent.Agent.Intent.parse_words
    legal_genie_agent.Agent.Intent.regex_like legal_genie_agent.Agent.Words.contains extract_title
    extract_date legal_genie_agent.Agent.Words.quoted legal_genie_agent.Agent.Words.ascii_digits
asks_for_node = refl

searches : parse_intent (λ s. s) "2026" "/search  contract" ≡ Intent.search "contract"
unfolding parse_intent trim legal_genie_agent.Agent.Intent.parse_command
    legal_genie_agent.Agent.Words.without_slashes legal_genie_agent.Agent.Words.first_word
    legal_genie_agent.Agent.Words.after_space
searches = refl
