-- ===== src/Agent/Trail.antt =====
-- `case_audit_trail` of server/src/agent/routes.rs: the calls of the tools in a case, who asked for
-- them and who decided. Rows are in the order of their creation.
use mathlib.Core.List.{Memᴰ}
use legal_genie_agent.Prelude.{
  ◌≡◌, String, ◌=s◌, true, refl, ap, sym, ◌∙◌, subst, Bool, false, Option, none, some, List, map,
  All, trim, eq_iff, Option-cases, inl, inr,
}
use legal_genie_agent.Errors.Make
use legal_genie_agent.Sql.{World, ok, pure, query, ◌>>=◌, ◌>>◌}
use legal_genie_agent.Sql.Rules.{>>=-eq-ok, query->>=-eq-ok, ok_inj}
use legal_genie_agent.Sql.Rows.{first_where, select_where, select_where_sound, All-of-mem}
use legal_genie_agent.Schema.{Tables, User, Session, ToolCall}
use legal_genie_agent.Access.{ensure_case_access}
use legal_genie_agent.Access.Roles.{CanRead}
use legal_genie_agent.Access.Laws.{ensure_case_access_sound}
use legal_genie_agent.Access.Complete.{checks_change_nothing}
use legal_genie_agent.Agent.Tools.{Env}
use legal_genie_agent.Agent.Sessions.{Handler, normalize_uuid}
use legal_genie_agent.Agent.Approvals.{Joined, join_sessions, or_null}
use legal_genie_agent.Agent.Pending.{joined_session}
use legal_genie_agent.Pages.Laws.{mem-map}

pub record TrailLine : Type 0 where
  pub id : String
  pub tool : String
  pub input : String
  pub output : Option String
  pub error : Option String
  pub status : String
  pub danger_level : String
  pub requested_by : Option String
  pub decided_by : Option String

pub record Trail : Type 0 where
  pub case_id : String
  pub tool_calls : List TrailLine

-- LEFT JOIN users u ON u.id = …
abbrev pub joined_username : Option User → Option String
joined_username none = none
joined_username (some u) = some u.username

unfoldable pub username_of : Tables → String → Option String
username_of t user_id = joined_username (first_where (λ u. u.id =s user_id) t.users)

abbrev pub decider : Tables → Option String → Option String
decider t none = none
decider t (some user_id) = username_of t user_id

-- WHERE s.case_id = $1, which no NULL equals
abbrev pub of_case : String → Option String → Bool
of_case case_id none = false
of_case case_id (some k) = k =s case_id

unfoldable pub in_trail : String → Joined → Bool
in_trail case_id j = of_case case_id j.session.case_id

module _ (e : Env) where
  abbrev pub shown_output : Option String → Option String
  shown_output none = none
  shown_output (some o) = some (or_null (e.parse_json o))

  abbrev pub trail_line : Tables → Joined → TrailLine
  trail_line t j = record {
    id = j.call.id;
    tool = j.call.tool_name;
    input = or_null (e.parse_json j.call.input);
    output = shown_output j.call.output;
    error = j.call.error;
    status = j.call.status;
    danger_level = j.call.danger_level;
    requested_by = username_of t j.call.requested_by;
    decided_by = decider t j.call.decided_by;
  }

  unfoldable pub trail_lines : String → Tables → List TrailLine
  trail_lines case_id t =
      map (trail_line t) (select_where (in_trail case_id) (join_sessions t.sessions t.tool_calls))

  -- `case_audit_trail`
  unfoldable pub case_audit_trail : String → String → Handler Trail
  case_audit_trail user_id raw = do
    case_id ← normalize_uuid e raw "invalid case_id"
    ensure_case_access user_id case_id
    lines ← query Make.db_error (trail_lines case_id)
    pure (record { case_id = case_id; tool_calls = lines })

-- A line of the trail, with the call behind it and the session of the case that the call is from.
pub IsTraced : Tables → String → TrailLine → Type 0
IsTraced t k l =
    (c : ToolCall) × (s : Session) × Memᴰ c t.tool_calls
    × Memᴰ s t.sessions
    × (s.id ≡ c.session_id)
    × (s.case_id ≡ some k)
    × (c.id ≡ l.id)
    × (c.status ≡ l.status)

of_case_same : (k : String) (o : Option String) → of_case k o ≡ true → o ≡ some k
of_case_same k none h = absurd (cc h)
of_case_same k (some x) h = ap some ((eq_iff x k).0 h)

line-IsTraced :
    (e : Env) (k : String) (t : Tables) (l : TrailLine)
    → Memᴰ l (trail_lines e k t)
    → IsTraced t k l
unfolding trail_lines IsTraced in_trail
line-IsTraced e k t l at =
    let rows = join_sessions t.sessions t.tool_calls in
    let (j, there, same) = mem-map (trail_line e t) (select_where (in_trail k) rows) at in
    let (row, fits) = select_where_sound (in_trail k) rows there in
    let (call, session, linked) = joined_session t.sessions t.tool_calls row in
    (
      j.call,
      j.session,
      call,
      session,
      linked,
      of_case_same k j.session.case_id fits,
      ap (λ (x : TrailLine). x.id) (sym same),
      ap (λ (x : TrailLine). x.status) (sym same),
    )

normalized :
    (e : Env) (raw message : String) (w : World Tables) {k : String}
    → (normalize_uuid e raw message w).0 ≡ ok k
    → (normalize_uuid e raw message w).1 ≡ w
unfolding normalize_uuid
normalized e raw message w {k} h = elim (Option-cases (e.parse_uuid (trim raw))) [
  | inl bad ↦ absurd (cc (rw bad at h))
  | inr (id, good) ↦ rw good refl
]

-- Whatever statements fail, a trail that is answered is that of a case which the user may read, and
-- each line shows a call, with its status, of a session of that case.
pub trail_readable :
    (e : Env) (u raw : String) (w : World Tables) (trail : Trail)
    → (case_audit_trail e u raw w).0 ≡ ok trail
    → CanRead w.tables u trail.case_id × All (IsTraced w.tables trail.case_id) trail.tool_calls
unfolding case_audit_trail
trail_readable e u raw w trail h =
    let (k, w1, h1, t1, h2, _) = >>=-eq-ok (normalize_uuid e raw "invalid case_id") _ w h in
    let here : w1.tables ≡ w.tables =
      ap (λ (x : World Tables). x.tables) (sym t1 ∙ normalized e raw "invalid case_id" w h1) in
    let (done, w2, h3, t2, h4, _) = >>=-eq-ok (ensure_case_access u k) _ w1 h2 in
    let there : w2.tables ≡ w.tables =
      ap (λ (x : World Tables). x.tables) (sym t2) ∙ (checks_change_nothing w1 u k "").0 ∙ here in
    let (w3, _, h5, _) = query->>=-eq-ok Make.db_error (trail_lines e k) _ w2 h4 in
    let shown : Path Trail (record { case_id = k; tool_calls = trail_lines e k w2.tables }) trail =
      ok_inj _ _ h5 in
    subst
      (λ (x : Trail). CanRead w.tables u x.case_id × All (IsTraced w.tables x.case_id) x.tool_calls)
      shown
      (
        subst (λ (s : Tables). CanRead s u k) here
            (ensure_case_access_sound w1 u k (h3 ∙ ap ok (only_unit done))),
        subst (λ (s : Tables). All (IsTraced s k) (trail_lines e k w2.tables)) there
            (All-of-mem (trail_lines e k w2.tables) (line-IsTraced e k w2.tables)),
      )
  where
    only_unit : (x : Unit {0}) → x ≡ tt
    only_unit x = refl
