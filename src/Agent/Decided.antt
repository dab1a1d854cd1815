-- ===== src/Agent/Decided.antt =====
-- Decisions on pending calls, `execute_approval` of server/src/agent/routes.rs.
use mathlib.Core.List.{Memᴰ}
use legal_genie_agent.Prelude.{
  ℕ, String, ◌=s◌, ◌≡◌, ◌≢◌, refl, sym, ap, ◌∙◌, subst, inl, inr, Bool, true, false, Option, none,
  some, List, [], ◌∷◌, arith, eq_iff, Option-cases, Bool-cases, if◌then◌else◌, trim,
}
use legal_genie_agent.Errors.Make
use legal_genie_agent.Sql.{
  World, Result, Result-cases, ok, err, raise, query, map_err, on_row, ◌>>=◌,
}
use legal_genie_agent.Sql.Rows.{first_where, first_where_sound, update_where, mem-update_where}
use legal_genie_agent.Sql.Rules.{>>=-eq-ok, query-eq-ok}
use legal_genie_agent.Schema.{Tables, Session, ToolCall}
use legal_genie_agent.Agent.Tools.{Env, find_tool}
use legal_genie_agent.Agent.Engine.{save_assistant, save_message}
use legal_genie_agent.Agent.Sessions.{Handler, normalize_uuid}
use legal_genie_agent.Agent.Approvals.{
  Joined, pair_up, join_sessions, mine, update_call, decided, Decision, reject, conclude,
  run_confirmed, approve, confirm, decide, execute_approval,
}

-- No call with the identifier waits for a decision.
abbrev pub IsDecided : String → Tables → Type 0
IsDecided call_id t = (c : ToolCall) → Memᴰ c t.tool_calls → c.id ≡ call_id → c.status ≢ "pending"

written-IsDecided :
    (call_id : String) (f : ToolCall → ToolCall) (cs : List ToolCall) (t : Tables)
    → ((c : ToolCall) → ((f c).id ≡ c.id) × ((f c).status ≢ "pending"))
    → t.tool_calls ≡ update_where (λ c. c.id =s call_id) f cs
    → IsDecided call_id t
written-IsDecided call_id f cs t k e c at same waiting =
    let (x, _, row) = mem-update_where (λ (d : ToolCall). d.id =s call_id) f cs (rw e at at) in
    elim (Bool-cases (x.id =s call_id)) [
      | inl fits ↦ (k x).1 (ground arith)
      | inr other ↦ ground (arith, eq_iff x.id call_id)
    ]

module _ (e : Env) (now : ℕ) (message_id user_id username : String) (j : Joined)
    (w : World Tables) where
  reject_writes :
      {d : Decision}
      → (reject e now message_id user_id username j w).0 ≡ ok d
      → (reject e now message_id user_id username j w).1.tables.tool_calls
        ≡ update_where (λ c. c.id =s j.call.id) (decided now user_id "rejected") w.tables.tool_calls
  unfolding reject map_err save_assistant save_message update_call
  reject_writes h = ground arith

  conclude_writes :
      {d : Decision} (output : String)
      → (conclude e now message_id user_id username j (ok output) w).0 ≡ ok d
      → (conclude e now message_id user_id username j (ok output) w).1.tables.tool_calls
        ≡ update_where
            (λ c. c.id =s j.call.id)
            (λ c. record c { status = "executed"; output = some output })
            w.tables.tool_calls
  unfolding conclude map_err save_assistant save_message update_call
  conclude_writes output h = ground arith

  conclude_fails :
      {d : Decision} (error : String)
      → (conclude e now message_id user_id username j (err error) w).0 ≡ ok d
      → ⊥
  unfolding conclude map_err save_assistant save_message update_call
  conclude_fails error h = ground arith

  -- A confirmed call that returns ends in `conclude`.
  confirm_concludes :
      {d : Decision} (case_id input : String)
      → (confirm e now message_id user_id username j case_id input w).0 ≡ ok d
      → (r : Result String String) × (w' : World Tables) × ((conclude e now message_id user_id
            username j r w').0
          ≡ ok d)
        × (confirm e now message_id user_id username j case_id input w
            ≡ conclude e now message_id user_id username j r w')
  unfolding confirm
  confirm_concludes {d} case_id input h = elim (Option-cases (find_tool j.call.tool_name)) [
    | inl unknown ↦ absurd (ground arith)
    | inr (tool, known) ↦
        let run : Handler (Result String String) =
          run_confirmed e now message_id user_id username j case_id input tool in
        let end : Result String String → Handler Decision =
          conclude e now message_id user_id username j in
        let start : Handler (Unit {0}) = approve e now message_id user_id username j in
        let h' : ((start >>= λ _. run >>= end) w).0 ≡ ok d = rw known at h in
        let (_, w1, _, _, h1, same1) = >>=-eq-ok start (λ _. run >>= end) w h' in
        let (r, w2, _, _, h2, same2) = >>=-eq-ok run end w1 h1 in
        (r, w2, h2, rw known (same1 ∙ same2))
  ]

not_pending : (s : String) → s =s "pending" ≡ false → s ≢ "pending"
not_pending s h e = ground (arith, eq_iff s "pending")

module _ (e : Env) (now : ℕ) (message_id user_id username : String) (j : Joined) where
  conclude_decides :
      {d : Decision} (r : Result String String) (w : World Tables)
      → (conclude e now message_id user_id username j r w).0 ≡ ok d
      → IsDecided j.call.id (conclude e now message_id user_id username j r w).1.tables
  conclude_decides (ok output) w h =
      written-IsDecided j.call.id (λ c. record c { status = "executed"; output = some output })
        w.tables.tool_calls (conclude e now message_id user_id username j (ok output) w).1.tables
        (λ c. (refl, not_pending "executed" refl))
        (conclude_writes e now message_id user_id username j w output h)
  conclude_decides (err error) w h =
      absurd (conclude_fails e now message_id user_id username j w error h)

  confirm_decides :
      {d : Decision} (case_id input : String) (w : World Tables)
      → (confirm e now message_id user_id username j case_id input w).0 ≡ ok d
      → IsDecided j.call.id (confirm e now message_id user_id username j case_id input w).1.tables
  confirm_decides case_id input w h =
      let (r, w', h', same) =
        confirm_concludes e now message_id user_id username j w case_id input h in
      rw same (conclude_decides r w' h')

  reject_decides :
      {d : Decision} (w : World Tables)
      → (reject e now message_id user_id username j w).0 ≡ ok d
      → IsDecided j.call.id (reject e now message_id user_id username j w).1.tables
  reject_decides w h =
      written-IsDecided j.call.id (decided now user_id "rejected") w.tables.tool_calls
        (reject e now message_id user_id username j w).1.tables
        (λ c. (refl, not_pending "rejected" refl))
        (reject_writes e now message_id user_id username j w h)

  -- A decision that returns was about a pending call, and settles it.
  decide_decides :
      {d : Decision} (confirmed : Bool) (w : World Tables)
      → (decide e now message_id user_id username confirmed j w).0 ≡ ok d
      → (j.call.status ≡ "pending")
        × IsDecided j.call.id (decide e now message_id user_id username confirmed j w).1.tables
  unfolding decide
  decide_decides {d} confirmed w h = elim (Option-cases j.session.case_id) [
    | inl none_there ↦ absurd (ground arith)
    | inr (case_id, there) ↦ elim (Bool-cases (j.call.status =s "pending")) [
      | inr settled ↦ absurd (ground arith)
      | inl waiting ↦ elim (Result-cases (e.parse_json j.call.input)) [
        | inl (text, bad) ↦ absurd (ground arith)
        | inr (input, good) ↦ (
          (eq_iff _ _).0 waiting,
          rw (there, waiting, good)
              (either confirmed case_id input (rw (there, waiting, good) at h)),
        )
      ]
    ]
  ]
    where
      either :
          (b : Bool) (case_id input : String)
          → ((if b
                then confirm e now message_id user_id username j case_id input
                else reject e now message_id user_id username j)
              w).0
            ≡ ok d
          → IsDecided j.call.id
              ((if b
                  then confirm e now message_id user_id username j case_id input
                  else reject e now message_id user_id username j)
                w).1.tables
      either true case_id input g = confirm_decides case_id input w g
      either false case_id input g = reject_decides w g

same_some : {a b : String} → some a ≡ some b → a ≡ b
same_some h = cc h

abbrev IsMine : String → String → Tables → Joined → Type 0
IsMine approval_id user_id t j =
    Memᴰ j (join_sessions t.sessions t.tool_calls)
    × (j.call.id ≡ approval_id)
    × (j.call.requires_approval ≡ true)
    × (j.call.requested_by ≡ user_id)

normalized :
    (e : Env) (raw what : String) (w : World Tables) {id : String}
    → (normalize_uuid e raw what w).0 ≡ ok id
    → (e.parse_uuid (trim raw) ≡ some id) × ((normalize_uuid e raw what w).1 ≡ w)
unfolding normalize_uuid
normalized e raw what w {id} h = elim (Option-cases (e.parse_uuid (trim raw))) [
  | inl bad ↦ absurd (ground arith)
  | inr (found, good) ↦ (ground arith, ground arith)
]

found_mine :
    (approval_id user_id : String) (t : Tables) {j : Joined}
    → first_where (mine approval_id user_id) (join_sessions t.sessions t.tool_calls) ≡ some j
    → IsMine approval_id user_id t j
unfolding mine
found_mine approval_id user_id t {j} h =
    let (at, fits) =
      first_where_sound (mine approval_id user_id) (join_sessions t.sessions t.tool_calls) h in
    (
      at,
      ground (arith, eq_iff j.call.id approval_id),
      ground arith,
      ground (arith, eq_iff j.call.requested_by user_id),
    )

module _ (e : Env) (now : ℕ) (message_id user_id username : String) where
  -- A decision that returns has found its pending call, and settles it.
  execute_decides :
      {d : Decision} (confirmed : Bool) (raw : String) (w : World Tables)
      → (execute_approval e now message_id user_id username confirmed raw w).0 ≡ ok d
      → (j : Joined) × (e.parse_uuid (trim raw) ≡ some j.call.id)
        × IsMine j.call.id user_id w.tables j
        × (j.call.status ≡ "pending")
        × IsDecided j.call.id
            (execute_approval e now message_id user_id username confirmed raw w).1.tables
  unfolding execute_approval
  execute_decides {d} confirmed raw w h =
      let next : String → Option Joined → Handler Decision = λ _ row.
        on_row row (raise (Make.not_found_code 480102 "approval not found"))
          (decide e now message_id user_id username confirmed) in
      let look : String → Tables → Option Joined =
        λ id t. first_where (mine id user_id) (join_sessions t.sessions t.tool_calls) in
      let norm : Handler String = normalize_uuid e raw "invalid approval id" in
      let (id, w1, h1, t1, h2, same1) =
        >>=-eq-ok norm (λ id. query Make.db_error (look id) >>= next id) w h in
      let (row, w2, h3, t2, h4, same2) =
        >>=-eq-ok (query Make.db_error (look id)) (next id) w1 h2 in
      let (good, back) = normalized e raw "invalid approval id" w h1 in
      let (read, kept) = query-eq-ok Make.db_error (look id) w1 h3 in
      let here : w2.tables ≡ w.tables =
        sym (ap (λ v. v.tables) t2) ∙ kept ∙ ap (λ v. v.tables) (sym t1 ∙ back) in
      let was : w1.tables ≡ w.tables = ap (λ v. v.tables) (sym t1 ∙ back) in
      settled id row w2 good (read ∙ ap (look id) was) h4 (same1 ∙ same2)
    where
      settled :
          (id : String) (row : Option Joined) (w2 : World Tables)
          → e.parse_uuid (trim raw) ≡ some id
          → row
            ≡ first_where (mine id user_id) (join_sessions w.tables.sessions w.tables.tool_calls)
          → (on_row row
              (raise (Make.not_found_code 480102 "approval not found"))
              (decide e now message_id user_id username confirmed)
              w2).0
            ≡ ok d
          → execute_approval e now message_id user_id username confirmed raw w
            ≡ on_row row
                (raise (Make.not_found_code 480102 "approval not found"))
                (decide e now message_id user_id username confirmed)
                w2
          → (j : Joined) × (e.parse_uuid (trim raw) ≡ some j.call.id)
            × IsMine j.call.id user_id w.tables j
            × (j.call.status ≡ "pending")
            × IsDecided j.call.id
                (execute_approval e now message_id user_id username confirmed raw w).1.tables
      settled id none w2 good read h4 same = absurd (cc h4)
      settled id (some j) w2 good read h4 same =
          let found = found_mine id user_id w.tables (sym read) in
          let (_, here, approval, requester) = found in
          let (waiting, after) =
            decide_decides e now message_id user_id username j confirmed w2 h4 in
          (
            j,
            good ∙ ap some (sym here),
            (found.0, refl, approval, requester),
            waiting,
            rw same after,
          )

-- What the join returns is a call of the table.
pair_up-mem :
    (c : ToolCall) (o : Option Session) (rest : List Joined) (cs : List ToolCall) {j : Joined}
    → (Memᴰ j rest → Memᴰ j.call cs)
    → Memᴰ j (pair_up c o rest)
    → Memᴰ j.call (c ∷ cs)
pair_up-mem c none rest cs k at = Memᴰ.tail (k at)
pair_up-mem c (some s) rest cs k (Memᴰ.head e) = Memᴰ.head (ap (λ i. i.call) e)
pair_up-mem c (some s) rest cs k (Memᴰ.tail at) = Memᴰ.tail (k at)

joined_call :
    (ss : List Session) (cs : List ToolCall) {j : Joined}
    → Memᴰ j (join_sessions ss cs)
    → Memᴰ j.call cs
unfolding join_sessions
joined_call ss [] at = elim at [ ]
joined_call ss (c ∷ cs) at =
    pair_up-mem c (first_where (λ s. s.id =s c.session_id) ss) (join_sessions ss cs) cs
      (joined_call ss cs) at

-- Once a decision on a call has returned, no decision on that call returns on the tables that it
-- left, whoever makes it, whether it confirms or rejects, and whatever statements fail.
pub approval_decided_once :
    (e : Env) (now message_now : ℕ) (m m' u u' n n' : String) (c c' : Bool) (raw raw' : String)
    (w w' : World Tables) (d d' : Decision)
    → (execute_approval e now m u n c raw w).0 ≡ ok d
    → w'.tables ≡ (execute_approval e now m u n c raw w).1.tables
    → e.parse_uuid (trim raw') ≡ e.parse_uuid (trim raw)
    → (execute_approval e message_now m' u' n' c' raw' w').0 ≢ ok d'
approval_decided_once e now message_now m m' u u' n n' c c' raw raw' w w' d d' h after same h' =
    let (i, id, _, _, gone) = execute_decides e now m u n c raw w h in
    let (j, id', mine', waiting, _) = execute_decides e message_now m' u' n' c' raw' w' h' in
    let call : Memᴰ j.call w'.tables.tool_calls =
      joined_call w'.tables.sessions w'.tables.tool_calls mine'.0 in
    gone j.call (subst (λ t. Memᴰ j.call t.tool_calls) after call) (same_some (sym id' ∙ same ∙ id))
      waiting

-- A decision that returns was made by the user whose request made the call, on a call that is
-- pending and requires an approval.
pub decided_by_requester :
    (e : Env) (now : ℕ) (m u n : String) (c : Bool) (raw : String) (w : World Tables) (d : Decision)
    → (execute_approval e now m u n c raw w).0 ≡ ok d
    → (x : ToolCall) × Memᴰ x w.tables.tool_calls
      × (e.parse_uuid (trim raw) ≡ some x.id)
      × (x.requested_by ≡ u)
      × (x.requires_approval ≡ true)
      × (x.status ≡ "pending")
decided_by_requester e now m u n c raw w d h =
    let (j, id, (at, _, approval, requester), waiting, _) = execute_decides e now m u n c raw w h in
    (j.call, joined_call w.tables.sessions w.tables.tool_calls at, id, requester, approval, waiting)
