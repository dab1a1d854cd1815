-- ===== src/Cases/Life.antt =====
-- The beginning and the end of a case.
use mathlib.Core.List.{Memᴰ}
use legal_genie_agent.Prelude.{
  ℕ, String, ◌=s◌, ◌≡◌, ◌≢◌, sym, ap, ◌∙◌, subst, Option, Bool-cases, inl, inr, eq_iff,
}
use legal_genie_agent.Errors.{AppError}
use legal_genie_agent.Errors.Make
use legal_genie_agent.Sql.{World, Result, ok, pure, query, execute, ◌>>=◌, ◌>>◌}
use legal_genie_agent.Sql.Rules.{execute_cases, query->>=-eq-ok, >>=-eq-ok}
use legal_genie_agent.Sql.Rows.{mem-update_where}
use legal_genie_agent.Schema.{Tables, Case}
use legal_genie_agent.Access.{find_case, ensure_case_access, ensure_case_owner}
use legal_genie_agent.Access.Roles.{IsOwner}
use legal_genie_agent.Access.Laws.{ensure_case_owner_sound, ensure_case_access_sound}
use legal_genie_agent.Access.Complete.{checks_change_nothing}
use legal_genie_agent.Oplog.{OperationLogNew}
use legal_genie_agent.Cases.{
  Codec, Caller, Handler, update_cases, mark_deleted, delete_case, deleted_entry,
}

module _ (codec : Codec) (now : ℕ) (caller : Caller) (id : String) where
  -- The end of `delete_case`.
  abbrev finish : Option Case → Handler (Option OperationLogNew)
  finish row = do
    execute Make.db_error (update_cases id (mark_deleted now))
    pure (deleted_entry codec caller row)

  finish_done :
      (row : Option Case) (w : World Tables) {entry : Option OperationLogNew}
      → (finish row w).0 ≡ ok entry
      → (finish row w).1.tables ≡ (update_cases id (mark_deleted now) w.tables).1
  finish_done row w h =
      elim (execute_cases {E = AppError} Make.db_error (update_cases id (mark_deleted now)) w) [
        | inl (x, failed, kept) ↦ absurd (cc (rw failed at h))
        | inr (done, changed) ↦ rw done changed
      ]

  delete_case_done :
      (w : World Tables) {entry : Option OperationLogNew}
      → (delete_case codec now caller id w).0 ≡ ok entry
      → IsOwner w.tables caller.user_id id
        × ((delete_case codec now caller id w).1.tables
            ≡ (update_cases id (mark_deleted now) w.tables).1)
  unfolding delete_case
  delete_case_done w h =
      let rest : Handler (Option OperationLogNew) = query Make.db_error (find_case id) >>= finish in
      let (u, w1, passed, t1, h1, same1) =
        >>=-eq-ok (ensure_case_owner caller.user_id id) (λ _. rest) w h in
      let (w2, t2, h2, same2) = query->>=-eq-ok Make.db_error (find_case id) finish w1 h1 in
      let changed = finish_done (find_case id w1.tables) w2 h2 in
      let still : w2.tables ≡ w.tables =
        t2
        ∙ ap (λ (x : World Tables). x.tables) (sym t1)
        ∙ (checks_change_nothing w caller.user_id id "").2 in
      (
        ensure_case_owner_sound w caller.user_id id passed,
        ap (λ (r : Result AppError (Option OperationLogNew) × World Tables). r.1.tables)
              (same1 ∙ same2)
            ∙ changed
            ∙ ap (λ t. (update_cases id (mark_deleted now) t).1) still,
      )

-- After the update no row with the identifier is live.
none_live :
    (now : ℕ) (id : String) (t : Tables) (c : Case)
    → Memᴰ c (update_cases id (mark_deleted now) t).1.cases
    → c.id ≡ id
    → c.status ≡ "deleted"
unfolding update_cases
none_live now id t c at same =
    let (r, _, is) = mem-update_where (λ c. c.id =s id) (mark_deleted now) t.cases at in
    elim (Bool-cases (r.id =s id)) [
      | inl own ↦
          let marked : c ≡ mark_deleted now r = rw own at is in ap (λ (c : Case). c.status) marked
      | inr other ↦
          let kept : c ≡ r = rw other at is in
          let own : r.id ≡ id = ap (λ (c : Case). c.id) (sym kept) ∙ same in
          absurd (cc (other, (eq_iff r.id id).1 own))
    ]

-- A deletion that returns was made by the owner of the live case, and from then on, as long as the
-- tables stay, nobody gets past the check for reading the case, its owner neither.
pub delete_case_hides :
    (codec : Codec) (now : ℕ) (caller : Caller) (id u : String) (w later : World Tables)
    (entry : Option OperationLogNew)
    → (delete_case codec now caller id w).0 ≡ ok entry
    → later.tables ≡ (delete_case codec now caller id w).1.tables
    → IsOwner w.tables caller.user_id id × ((ensure_case_access u id later).0 ≢ ok tt)
delete_case_hides codec now caller id u w later entry h stays =
    let (owner, changed) = delete_case_done codec now caller id w h in
    (
      owner,
      λ passed.
          let (c, (at, same, live), _) = ensure_case_access_sound later u id passed in
          live (
            none_live now id w.tables c
              (subst (λ (t : Tables). Memᴰ c t.cases) (stays ∙ changed) at) same),
    )
