-- ===== src/Agent/Pending.antt =====
-- What a user sees of the calls that wait for a decision, `list_pending_approvals` of
-- server/src/agent/routes.rs, and which of them no decision can reach.
use mathlib.Core.List.{Memᴰ}
use legal_genie_agent.Prelude.{
  ℕ, String, ◌=s◌, ◌≡◌, refl, sym, ap, ◌∙◌, subst, inl, inr, Bool, true, Option, none, some, List,
  [], ◌∷◌, arith, eq_iff, Option-cases, Bool-cases, if◌then◌else◌, trim,
}
use legal_genie_agent.Errors.{AppError}
use legal_genie_agent.Errors.Make
use legal_genie_agent.Sql.{World, healthy, Result, ok, err, pure, query, attempt, ◌>>=◌}
use legal_genie_agent.Sql.Rows.{select_where, select_where_sound, first_where, first_where_sound}
use legal_genie_agent.Sql.Rules.{>>=-eq-ok, query-eq-ok}
use legal_genie_agent.Schema.{Tables, Session, ToolCall}
use legal_genie_agent.Access.{ensure_case_access}
use legal_genie_agent.Access.Roles.{CanRead}
use legal_genie_agent.Access.Laws.{ensure_case_access_sound}
use legal_genie_agent.Access.Complete.{checks_change_nothing}
use legal_genie_agent.Agent.Tools.{Env}
use legal_genie_agent.Agent.Sessions.{Handler, normalize_uuid}
use legal_genie_agent.Agent.Approvals.{
  Joined, join_sessions, PendingApproval, shown, visible, awaits, wanted_case,
  list_pending_approvals, is_ok, mine, null_case, decide, execute_approval,
}

-- The row behind an approval that a user sees.
abbrev pub IsShown : Tables → String → List Joined → PendingApproval → Type 0
IsShown t u js p =
    (j : Joined) × Memᴰ j js
    × (j.call.id ≡ p.id)
    × (j.session.case_id ≡ some p.case_id)
    × CanRead t u p.case_id

access_granted :
    {u k : String} (w : World Tables) (r : Result AppError (Unit {0}))
    → (ensure_case_access u k w).0 ≡ r
    → is_ok r ≡ true
    → CanRead w.tables u k
access_granted {u} {k} w (ok tt) e h = ensure_case_access_sound w u k e
access_granted {u} {k} w (err x) e h = absurd (ground arith)

access_kept : (u k : String) (w : World Tables) → (ensure_case_access u k w).1.tables ≡ w.tables
access_kept u k w = (checks_change_nothing w u k "").0

module _ (e : Env) (u : String) where
  visible-nil :
      (w : World Tables) {ps : List PendingApproval} → (visible e u [] w).0 ≡ ok ps → ps ≡ []
  unfolding visible
  visible-nil w h = cc h

  visible_skips :
      (j : Joined) (js : List Joined) (w : World Tables)
      → j.session.case_id ≡ none
      → visible e u (j ∷ js) w ≡ visible e u js w
  unfolding visible
  visible_skips j js w h = rw h refl

  visible_checks :
      (j : Joined) (js : List Joined) (w : World Tables) {k : String}
      → j.session.case_id ≡ some k
      → visible e u (j ∷ js) w
        ≡ (if is_ok (ensure_case_access u k w).0
              then (visible e u js >>= λ others. pure (shown e u j k ∷ others))
              else visible e u js)
            (ensure_case_access u k w).1
  unfolding visible attempt
  visible_checks j js w h = rw h refl

  visible-IsShown :
      (t : Tables) (js : List Joined) (w : World Tables) {ps : List PendingApproval}
      → w.tables ≡ t
      → (visible e u js w).0 ≡ ok ps
      → (p : PendingApproval) → Memᴰ p ps
      → IsShown t u js p
  visible-IsShown t [] w {ps} same h p at = absurd (no_more (visible-nil w h) at)
    where
      no_more : {ps : List PendingApproval} → ps ≡ [] → Memᴰ p ps → ⊥
      no_more e at = elim (subst (λ qs. Memᴰ p qs) e at) [ ]
  visible-IsShown t (j ∷ js) w {ps} same h p at = elim (Option-cases j.session.case_id) [
    | inl none_there ↦ later (
        visible-IsShown t js w same (ap (λ r. r.0) (sym (visible_skips j js w none_there)) ∙ h) p
          at)
    | inr (k, there) ↦
        let w1 : World Tables = (ensure_case_access u k w).1 in
        let same1 : w1.tables ≡ t = access_kept u k w ∙ same in
        let h' = ap (λ r. r.0) (sym (visible_checks j js w there)) ∙ h in
        elim (Bool-cases (is_ok (ensure_case_access u k w).0)) [
          | inr refused ↦ later (visible-IsShown t js w1 same1 (rw refused at h') p at)
          | inl granted ↦
              let add : List PendingApproval → Handler (List PendingApproval) =
                λ others. pure (shown e u j k ∷ others) in
              let (others, w2, h1, t1, h2, _) =
                >>=-eq-ok (visible e u js) add w1 (rw granted at h') in
              let can : CanRead t u k =
                subst (λ s. CanRead s u k) same
                  (access_granted w (ensure_case_access u k w).0 refl granted) in
              first_or_later k there can (subst (λ qs. Memᴰ p qs) (same_ok (sym h2)) at)
                (λ m. visible-IsShown t js w1 same1 h1 p m)
        ]
  ]
    where
      later : IsShown t u js p → IsShown t u (j ∷ js) p
      later (i, at', id, case, can) = (i, Memᴰ.tail at', id, case, can)

      same_ok :
          {a b : List PendingApproval}
          → Path (Result AppError (List PendingApproval)) (ok a) (ok b)
          → a ≡ b
      same_ok h = cc h

      first_or_later :
          (k : String) {others : List PendingApproval}
          → j.session.case_id ≡ some k
          → CanRead t u k
          → Memᴰ p (shown e u j k ∷ others)
          → (Memᴰ p others → IsShown t u js p)
          → IsShown t u (j ∷ js) p
      first_or_later k there can (Memᴰ.head e) more = (
        j,
        Memᴰ.head refl,
        ap (λ q. q.id) (sym e),
        there ∙ ap (λ q. some q.case_id) (sym e),
        subst (λ q. CanRead t u q.case_id) (sym e) can,
      )
      first_or_later k there can (Memᴰ.tail m) more = later (more m)

pub joined_session :
    (ss : List Session) (cs : List ToolCall) {j : Joined}
    → Memᴰ j (join_sessions ss cs)
    → Memᴰ j.call cs × Memᴰ j.session ss × (j.session.id ≡ j.call.session_id)
unfolding join_sessions
joined_session ss [] at = elim at [ ]
joined_session ss (c ∷ cs) {j} at =
    elim (Option-cases (first_where (λ s. s.id =s c.session_id) ss)) [
      | inl alone ↦
          let (m, more, same) = joined_session ss cs (rw alone at at) in (Memᴰ.tail m, more, same)
      | inr (s, paired) ↦ first_or_later s paired (rw paired at at) (λ m. joined_session ss cs m)
    ]
  where
    first_or_later :
        (s : Session)
        → first_where (λ s. s.id =s c.session_id) ss ≡ some s
        → Memᴰ j (record { call = c; session = s } ∷ join_sessions ss cs)
        → (Memᴰ j (join_sessions ss cs)
            → Memᴰ j.call cs × Memᴰ j.session ss × (j.session.id ≡ j.call.session_id))
        → Memᴰ j.call (c ∷ cs) × Memᴰ j.session ss × (j.session.id ≡ j.call.session_id)
    first_or_later s paired (Memᴰ.head e) more =
        let (m, fits) = first_where_sound (λ s. s.id =s c.session_id) ss paired in
        (
          Memᴰ.head (ap (λ i. i.call) e),
          subst (λ i. Memᴰ i.session ss) (sym e) m,
          subst (λ i. i.session.id ≡ i.call.session_id) (sym e) ((eq_iff s.id c.session_id).0 fits),
        )
    first_or_later s paired (Memᴰ.tail m) more =
        let (n, rest, same) = more m in (Memᴰ.tail n, rest, same)

-- A call that waits for a decision, in an active session on a case that the user may read.
abbrev pub IsListed : Tables → String → PendingApproval → Type 0
IsListed t u p =
    (c : ToolCall) × (s : Session) × Memᴰ c t.tool_calls
    × Memᴰ s t.sessions
    × (s.id ≡ c.session_id)
    × (c.id ≡ p.id)
    × (c.status ≡ "pending")
    × (c.requires_approval ≡ true)
    × (s.status ≡ "active")
    × (s.case_id ≡ some p.case_id)
    × CanRead t u p.case_id

row-IsListed :
    (t : Tables) (u : String) (wanted : Option String) (p : PendingApproval)
    → IsShown t u (select_where (awaits wanted) (join_sessions t.sessions t.tool_calls)) p
    → IsListed t u p
unfolding awaits
row-IsListed t u wanted p (j, at, id, case, can) =
    let (m, fits) = select_where_sound (awaits wanted) (join_sessions t.sessions t.tool_calls) at in
    let (call, session, same) = joined_session t.sessions t.tool_calls m in
    (
      j.call,
      j.session,
      call,
      session,
      same,
      id,
      ground (arith, eq_iff j.call.status "pending"),
      ground arith,
      ground (arith, eq_iff j.session.status "active"),
      case,
      can,
    )

wanted_case_kept :
    (e : Env) (u : String) (raw : Option String) (w : World Tables)
    → (wanted_case e u raw w).1.tables ≡ w.tables
unfolding wanted_case normalize_uuid
wanted_case_kept e u none w = refl
wanted_case_kept e u (some raw) w = elim (Option-cases (e.parse_uuid (trim raw))) [
  | inl bad ↦ rw bad refl
  | inr (id, good) ↦ rw good refl
]

-- Whatever statements fail, each approval that the list shows to a user is a pending call that
-- requires an approval, in an active session on a live case that the user owns or is a member of.
pub pending_approvals_readable :
    (e : Env) (u : String) (raw : Option String) (w : World Tables) (ps : List PendingApproval)
    → (list_pending_approvals e u raw w).0 ≡ ok ps
    → (p : PendingApproval) → Memᴰ p ps
    → IsListed w.tables u p
unfolding list_pending_approvals
pending_approvals_readable e u raw w ps h p at =
    let rows : Option String → Tables → List Joined =
      λ wanted t. select_where (awaits wanted) (join_sessions t.sessions t.tool_calls) in
    let (wanted, w1, _, t1, h1, _) =
      >>=-eq-ok (wanted_case e u raw) (λ wanted. query Make.db_error (rows wanted) >>= visible e u)
        w h in
    let (js, w2, h2, t2, h3, _) =
      >>=-eq-ok (query Make.db_error (rows wanted)) (visible e u) w1 h1 in
    let (read, kept) = query-eq-ok Make.db_error (rows wanted) w1 h2 in
    let start : w1.tables ≡ w.tables = ap (λ v. v.tables) (sym t1) ∙ wanted_case_kept e u raw w in
    let found =
      visible-IsShown e u w.tables js w2 (ap (λ v. v.tables) (sym t2) ∙ kept ∙ start) h3 p at in
    row-IsListed w.tables u wanted p
      (subst (λ js. IsShown w.tables u js p) (read ∙ ap (rows wanted) start) found)

-- A call in a session without a case can never be decided: on a connection that works, confirming
-- and rejecting it, by the user who asked for it, both answer a database error and change nothing.
pub caseless_approval_stuck :
    (e : Env) (now : ℕ) (message_id u n : String) (confirmed : Bool) (raw id : String) (t : Tables)
    (j : Joined)
    → e.parse_uuid (trim raw) ≡ some id
    → first_where (mine id u) (join_sessions t.sessions t.tool_calls) ≡ some j
    → j.session.case_id ≡ none
    → execute_approval e now message_id u n confirmed raw (healthy t) ≡ (err null_case, healthy t)
unfolding execute_approval normalize_uuid decide
caseless_approval_stuck e now message_id u n confirmed raw id t j good found caseless =
    rw (good, found, caseless) refl
