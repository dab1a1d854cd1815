-- ===== src/Cases/Created.antt =====
-- A case that is created is there.
use legal_genie_agent.Prelude.{
  ℕ, String, ◌=s◌, ◌≡◌, refl, sym, ap, ◌∙◌, subst, false, Option, none, some, List, [], ◌∷◌, ◌++◌,
  any, arith, Bool-cases, inl, inr, eq_iff, is_empty, trim,
}
use legal_genie_agent.Errors.{AppError}
use legal_genie_agent.Errors.Make
use legal_genie_agent.Sql.{
  World, healthy, Result, ok, Result-cases, pure, raise, execute, statement, on_row, ◌>>=◌,
}
use legal_genie_agent.Sql.Rules.{
  execute_cases, statement_cases, unless-eq-ok, ok_inj, query->>=-eq-ok, on_row-eq-ok, >>=-eq-ok,
}
use legal_genie_agent.Sql.Rows.{first_where}
use legal_genie_agent.Schema.{Tables, Case, Member}
use legal_genie_agent.Access.{find_case, case_not_found, ensure_case_access}
use legal_genie_agent.Access.Complete.{checks_change_nothing}
use legal_genie_agent.Members.{insert_member, same_member}
use legal_genie_agent.Oplog.{OperationLogNew}
use legal_genie_agent.Cases.{
  CreateCaseRequest, CaseDetail, Codec, Caller, Handler, insert_case, write_tags, case_log,
  detail_json, detail_of, fetch_case_detail, get_case, new_case, owner_row, insert_rows,
  create_case,
}

some_inj : {A : Type 0} (a b : A) → Path (Option A) (some a) (some b) → a ≡ b
some_inj a b h = cc h

-- The new row is found, where no other has its identifier.
first_where-last :
    (id : String) (cs : List Case) (new : Case)
    → any (λ c. c.id =s id) cs ≡ false
    → new.id ≡ id
    → first_where (λ c. c.id =s id) (cs ++ new ∷ []) ≡ some new
unfolding first_where
first_where-last id [] new fresh same = rw ((eq_iff new.id id).1 same) refl
first_where-last id (c ∷ cs) new fresh same = elim (Bool-cases (c.id =s id)) [
  | inl taken ↦ absurd (ground arith)
  | inr other ↦ rw other (first_where-last id cs new (rw other at fresh) same)
]

inserted_found :
    (new : Case) (m : Member) (t t' : Tables)
    → insert_case new t ≡ ok (tt, t')
    → find_case new.id (insert_member m t').1 ≡ some new
unfolding insert_case insert_member find_case
inserted_found new m t t' done =
    let (fresh, same) = unless-eq-ok _ _ _ done in
    let here : first_where (λ c. c.id =s new.id) t'.cases ≡ some new =
      ap (λ (s : Tables). first_where (λ c. c.id =s new.id) s.cases) (sym same)
      ∙ first_where-last new.id t.cases new fresh refl in
    elim (Bool-cases (any (same_member m.case_id m.user_id) t'.members)) [
      | inl known ↦ rw known here
      | inr unknown ↦ rw unknown here
    ]

module _ (codec : Codec) where
  fetch_done :
      (u k : String) (w : World Tables) {d : CaseDetail}
      → (fetch_case_detail codec u k w).0 ≡ ok d
      → (c : Case) × (find_case k w.tables ≡ some c)
        × (detail_of codec c ≡ d)
        × ((fetch_case_detail codec u k w).1.tables ≡ w.tables)
  unfolding fetch_case_detail
  fetch_done u k w {d} h =
      let rest : Case → Handler CaseDetail =
        λ c. ensure_case_access u c.id >>= λ _. pure (detail_of codec c) in
      let (w1, t1, h1, same1) =
        query->>=-eq-ok Make.db_error (find_case k) (λ row. on_row row (raise case_not_found) rest)
          w h in
      let (c, found, h2, same2) = on_row-eq-ok (find_case k w.tables) case_not_found rest w1 h1 in
      let (v, w2, _, t2, h3, same3) =
        >>=-eq-ok (ensure_case_access u c.id) (λ _. pure (detail_of codec c)) w1 h2 in
      (
        c,
        found,
        ok_inj _ _ h3,
        ap (λ (r : Result AppError CaseDetail × World Tables). r.1.tables) (same1 ∙ same2 ∙ same3)
            ∙ ap (λ (x : World Tables). x.tables) (sym t2)
            ∙ (checks_change_nothing w1 u c.id "").0
            ∙ t1,
      )

  own_read :
      (u : String) (c : Case) (t : Tables)
      → find_case c.id t ≡ some c
      → c.owner_id ≡ u
      → c.status ≡ "active"
      → fetch_case_detail codec u c.id (healthy t) ≡ (ok (detail_of codec c), healthy t)
  unfolding fetch_case_detail ensure_case_access
  own_read u c t found owner active =
      let mine = (eq_iff c.owner_id u).1 owner in
      let not_deleted : (c.status =s "deleted") ≡ false =
        subst (λ s. (s =s "deleted") ≡ false) (sym active) refl in
      simp (found, not_deleted, mine) refl

  module _ (now : ℕ) (new_id member_id : String) (caller : Caller) (req : CreateCaseRequest) where
    abbrev Created : CaseDetail → Tables → Type 0
    Created d t =
        (json : Option String) × (d ≡ detail_of codec (new_case now new_id caller.user_id req json))
        × (find_case new_id t ≡ some (new_case now new_id caller.user_id req json))

    rows-Created :
        (json : Option String) (w : World Tables) {d : CaseDetail} {entry : OperationLogNew}
        → (insert_rows codec now new_id member_id caller req json w).0 ≡ ok (d, entry)
        → Created d (insert_rows codec now new_id member_id caller req json w).1.tables
    unfolding insert_rows
    rows-Created json w {d} {entry} h =
        let new = new_case now new_id caller.user_id req json in
        let m = owner_row now member_id new_id caller.user_id in
        let first = statement {E = AppError} Make.db_error (insert_case new) in
        let second = execute {E = AppError} Make.db_error (insert_member m) in
        let third = fetch_case_detail codec caller.user_id new_id in
        let answer : CaseDetail → Handler (CaseDetail × OperationLogNew) =
          λ x. pure (x, case_log caller "CREATE" x.id x.name none (some (detail_json x))) in
        let (u1, w1, h1, t1, h2, same1) =
          >>=-eq-ok first (λ _. second >>= λ _. third >>= answer) w h in
        let (u2, w2, h3, t2, h4, same2) = >>=-eq-ok second (λ _. third >>= answer) w1 h2 in
        let (x, w3, h5, t3, h6, same3) = >>=-eq-ok third answer w2 h4 in
        let (c, found, is, kept) = fetch_done caller.user_id new_id w2 h5 in
        let (s, ran, after1) = inserted new w h1 in
        let after2 = joined m w1 h3 in
        let there : find_case new_id w2.tables ≡ some new =
          ap (λ (y : World Tables). find_case new_id y.tables) (sym t2)
          ∙ ap (find_case new_id) (
              after2
              ∙ ap (λ t. (insert_member m t).1)
                  (ap (λ (y : World Tables). y.tables) (sym t1) ∙ after1))
          ∙ inserted_found new m w.tables s ran in
        let c_is : c ≡ new = some_inj _ _ (sym found ∙ there) in
        (
          json,
          ap (λ (q : CaseDetail × OperationLogNew). q.0) (sym (ok_inj _ _ h6))
              ∙ sym is
              ∙ ap (detail_of codec) c_is,
          ap
                (λ (r : Result AppError (CaseDetail × OperationLogNew) × World Tables).
                  find_case new_id r.1.tables)
                (same1 ∙ same2 ∙ same3)
              ∙ ap (λ (y : World Tables). find_case new_id y.tables) (sym t3)
              ∙ ap (find_case new_id) kept
              ∙ there,
        )
      where
        inserted :
            (new : Case) (w : World Tables) {u : Unit {0}}
            → (statement {E = AppError} Make.db_error (insert_case new) w).0 ≡ ok u
            → (s : Tables) × (insert_case new w.tables ≡ ok (tt, s))
              × ((statement {E = AppError} Make.db_error (insert_case new) w).1.tables ≡ s)
        inserted new w h1 =
            elim (statement_cases {E = AppError} Make.db_error (insert_case new) w) [
              | inl (x, failed, kept) ↦ absurd (cc (failed, h1))
              | inr (u, s, ran, done, after) ↦ (s, ran, after)
            ]

        joined :
            (m : Member) (w : World Tables) {u : Unit {0}}
            → (execute {E = AppError} Make.db_error (insert_member m) w).0 ≡ ok u
            → (execute {E = AppError} Make.db_error (insert_member m) w).1.tables
              ≡ (insert_member m w.tables).1
        joined m w h1 = elim (execute_cases {E = AppError} Make.db_error (insert_member m) w) [
          | inl (x, failed, kept) ↦ absurd (cc (failed, h1))
          | inr (done, after) ↦ after
        ]

    case-Created :
        (w : World Tables) {d : CaseDetail} {entry : OperationLogNew}
        → (create_case codec now new_id member_id caller req w).0 ≡ ok (d, entry)
        → Created d (create_case codec now new_id member_id caller req w).1.tables
    unfolding create_case write_tags
    case-Created w {d} {entry} h = elim (Bool-cases (is_empty (trim req.name))) [
      | inl unnamed ↦ absurd (cc (rw unnamed at h))
      | inr named ↦ rw named (tagged req.tags w (rw named at h))
    ]
      where
        tagged :
            (tags : Option (List String)) (w : World Tables)
            → ((write_tags codec tags none >>= insert_rows codec now new_id member_id caller req)
                w).0
              ≡ ok (d, entry)
            → Created d
                ((write_tags codec tags none >>= insert_rows codec now new_id member_id caller req)
                  w).1.tables
        tagged none w h = rows-Created none w h
        tagged (some ts) w h = elim (Result-cases (codec.to_string ts)) [
          | inl (x, failed) ↦ absurd (cc (rw failed at h))
          | inr (json, done) ↦ rw done (rows-Created (some json) w (rw done at h))
        ]

-- A case that is created is there for its owner: after a creation that returns, whatever failed on
-- the way, reading the case over a connection that works gives the answer of the creation, which is
-- an active case of the caller under the trimmed name.
pub get_case-create_case :
    (codec : Codec) (now : ℕ) (new_id member_id : String) (caller : Caller)
    (req : CreateCaseRequest) (w : World Tables) (d : CaseDetail) (entry : OperationLogNew)
    → (create_case codec now new_id member_id caller req w).0 ≡ ok (d, entry)
    → ((get_case codec caller new_id
          (healthy (create_case codec now new_id member_id caller req w).1.tables)).0
        ≡ ok d)
      × (d.id ≡ new_id)
      × (d.name ≡ trim req.name)
      × (d.owner_id ≡ caller.user_id)
      × (d.status ≡ "active")
unfolding get_case
get_case-create_case codec now new_id member_id caller req w d entry h =
    let (json, is, there) = case-Created codec now new_id member_id caller req w h in
    let new = new_case now new_id caller.user_id req json in
    (
      ap (λ r. r.0) (own_read codec caller.user_id new _ there refl refl) ∙ ap ok (sym is),
      ap (λ (x : CaseDetail). x.id) is,
      ap (λ (x : CaseDetail). x.name) is,
      ap (λ (x : CaseDetail). x.owner_id) is,
      ap (λ (x : CaseDetail). x.status) is,
    )
