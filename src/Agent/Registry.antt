-- ===== src/Agent/Registry.antt =====
-- The registry of tools and the guards in front of them, server/src/agent/tools.rs.
use legal_genie_agent.Prelude.{
  String, ◌=s◌, ◌≡◌, ◌↔◌, refl, inl, inr, Bool, true, false, some, List, [], ◌∷◌, arith, eq_iff,
  Bool-cases, subst, ap, sym, ◌∙◌,
}
use legal_genie_agent.Sql.{World, healthy, ok, map_err}
use legal_genie_agent.Schema.{Tables}
use legal_genie_agent.Access.{ensure_case_access, ensure_operation}
use legal_genie_agent.Access.Roles.{IsKeyed, CanRead, CanDo}
use legal_genie_agent.Access.Laws.{ensure_operation_sound}
use legal_genie_agent.Access.Complete.{
  checks_change_nothing, ensure_case_access_iff, ensure_operation_iff,
}
use legal_genie_agent.Agent.Tools.{
  Tool, list_nodes, create_node, create_person, merge_persons, export_evidence_list,
  export_timeline_report, name, find_tool, find_in, all_tools, ToolContext, Env, with_user, guards,
}

find_in_sound : (s : String) (ts : List Tool) {t : Tool} → find_in s ts ≡ some t → name t ≡ s
unfolding find_in
find_in_sound s [] e = cc
find_in_sound s (x ∷ xs) {t} e = elim (Bool-cases (name x =s s)) [
  | inl same ↦ let this : x ≡ t = ground arith in ap name (sym this) ∙ (eq_iff _ _).0 same
  | inr other ↦ find_in_sound s xs (ground arith)
]

find_tool-name : (t : Tool) → find_tool (name t) ≡ some t
unfolding find_tool
find_tool-name list_nodes = refl
find_tool-name _ = refl

-- The registry finds a tool by exactly its own name: no two tools share a name.
pub find_tool_iff : (s : String) (t : Tool) → (find_tool s ≡ some t) ↔ (name t ≡ s)
find_tool_iff s t = (
  λ e. find_in_sound s all_tools (unfold find_tool in e),
  λ e. subst (λ n. find_tool n ≡ some t) e (find_tool-name t),
)

-- A tool that writes in the case of its session.
abbrev pub writes_in_case : Tool → Bool
writes_in_case create_node = true
writes_in_case create_person = true
writes_in_case merge_persons = true
writes_in_case export_evidence_list = true
writes_in_case export_timeline_report = true
writes_in_case _ = false

module _ (e : Env) (ctx : ToolContext) (w : World Tables) (u k : String)
    (user : e.parse_uuid ctx.user_id ≡ some u) (case : ctx.case_id ≡ some k) where
  guards_checked :
      (tool : Tool) (input : String)
      → writes_in_case tool ≡ true
      → (guards e ctx tool input w).0 ≡ ok tt
      → (ensure_operation u k "case:write" (ensure_case_access u k w).1).0 ≡ ok tt
  unfolding guards with_user map_err
  guards_checked create_node input writes h = ground arith
  guards_checked _ input writes h = ground arith

  access_keeps : (ensure_case_access u k w).1.tables ≡ w.tables
  access_keeps = (checks_change_nothing w u k "case:write").0

  -- Whatever statements fail, a tool that writes in the case of its session gets behind its guards
  -- only for a user who owns the live case, or is a member with a role for which the permission
  -- matrix has "case:write".
  pub guards_sound :
      (tool : Tool) (input : String)
      → writes_in_case tool ≡ true
      → (guards e ctx tool input w).0 ≡ ok tt
      → CanDo w.tables u k "case:write"
  guards_sound tool input writes h =
      subst (λ t. CanDo t u k "case:write") access_keeps
        (ensure_operation_sound (ensure_case_access u k w).1 u k "case:write"
          (guards_checked tool input writes h))

CanDo-CanRead : (t : Tables) (u k operation : String) → CanDo t u k operation → CanRead t u k
CanDo-CanRead t u k operation (c, live, inl owner) = (c, live, inl owner)
CanDo-CanRead t u k operation (c, live, inr (m, _, row, _, _, _)) = (c, live, inr (m, row))

guards_pass :
    (e : Env) (ctx : ToolContext) (t : Tables) (u k : String) (tool : Tool) (input : String)
    → e.parse_uuid ctx.user_id ≡ some u
    → ctx.case_id ≡ some k
    → writes_in_case tool ≡ true
    → ensure_case_access u k (healthy t) ≡ (ok tt, healthy t)
    → ensure_operation u k "case:write" (healthy t) ≡ (ok tt, healthy t)
    → guards e ctx tool input (healthy t) ≡ (ok tt, healthy t)
unfolding guards with_user map_err
guards_pass e ctx t u k create_node input user case writes access operation = ground arith
guards_pass e ctx t u k _ input user case writes access operation = ground arith

-- On a keyed database and a connection that works, for a session with a case, the guards of every
-- tool that writes in its case, the two exports included, pass exactly for those who may do
-- "case:write" there, and they change nothing.
pub guards_iff :
    (e : Env) (ctx : ToolContext) (t : Tables) (u k : String) (tool : Tool) (input : String)
    → IsKeyed t
    → e.parse_uuid ctx.user_id ≡ some u
    → ctx.case_id ≡ some k
    → writes_in_case tool ≡ true
    → (guards e ctx tool input (healthy t) ≡ (ok tt, healthy t)) ↔ CanDo t u k "case:write"
guards_iff e ctx t u k tool input keyed user case writes = (
  λ h. guards_sound e ctx (healthy t) u k user case tool input writes (rw h refl),
  λ may.
      guards_pass e ctx t u k tool input user case writes
        ((ensure_case_access_iff t u k keyed).1 (CanDo-CanRead t u k "case:write" may))
        ((ensure_operation_iff t u k "case:write" keyed).1 may),
)
