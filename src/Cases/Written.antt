-- ===== src/Cases/Written.antt =====
-- The row that an update of a case writes, and that each call leaves the tables or writes it.
use legal_genie_agent.Prelude.{
  ℕ, String, ◌<>◌, ◌=s◌, ◌≡◌, ◌⊎◌, refl, sym, ap, ◌∙◌, subst, Option, none, some, List,
  Option-cases, arith, inl, inr, Bool-cases, eq_iff,
}
use legal_genie_agent.Errors.{AppError}
use legal_genie_agent.Errors.Make
use legal_genie_agent.Sql.{
  World, healthy, Result, ok, err, Result-cases, pure, raise, query, execute, on_row, ◌>>=◌,
}
use legal_genie_agent.Sql.Rules.{
  Keeps, Keeps-bind, Keeps-query, Keeps-pure, execute_cases, >>=-cases, query-eq-ok, keeps_rules,
}
use legal_genie_agent.Sql.Rows.{first_where_sound, update_where}
use legal_genie_agent.Schema.{Tables, Case}
use legal_genie_agent.Access.{
  find_case, find_member, write_role, case_not_found, ensure_case_access, ensure_case_write_access,
}
use legal_genie_agent.Access.Roles.{CanWrite}
use legal_genie_agent.Access.Laws.{ensure_case_write_access_sound}
use legal_genie_agent.Access.Complete.{checks_change_nothing}
use legal_genie_agent.Oplog.{OperationLogNew}
use legal_genie_agent.Cases.Merged.{Merges, IsSameRow, Encoded, merged-Merges}
use legal_genie_agent.Cases.{
  UpdateCaseRequest, CaseDetail, Codec, Caller, Handler, update_cases, detail_of, detail_json,
  case_log, fetch_case_detail, write_tags, merged, update_row, update_case,
}

-- The tables with the one row written as the request asks, by a caller who may write the case.
abbrev pub Written :
    Codec
    → ℕ
    → Caller
    → String
    → UpdateCaseRequest
    → Tables
    → Result AppError (CaseDetail × OperationLogNew) × World Tables
    → Type 0
Written codec now caller id req before after =
    (existing : Case) × (write : Case → Case) × (find_case id before ≡ some existing)
    × CanWrite before caller.user_id id
    × ((c : Case) → Merges codec now req existing (write c) × IsSameRow c (write c))
    × (after.1.tables ≡ record before { cases = update_where (λ c. c.id =s id) write before.cases })

abbrev pub LeftOrWrote :
    Codec
    → ℕ
    → Caller
    → String
    → UpdateCaseRequest
    → Tables
    → Result AppError (CaseDetail × OperationLogNew) × World Tables
    → Type 0
LeftOrWrote codec now caller id req before after =
    ((x : AppError) × (after.0 ≡ err x) × (after.1.tables ≡ before))
    ⊎ Written codec now caller id req before after

abbrev pub answer_in : {A : Type 0} → Result AppError A × World Tables → Result AppError A
answer_in r = r.0

abbrev pub tables_of : {A : Type 0} → Result AppError A × World Tables → Tables
tables_of r = r.1.tables

module _ (codec : Codec) where
  pub write_tags_cases :
      {B : Type 0} (tags : Option (List String)) (old : Option String)
      (k : Option String → Handler B) (w : World Tables)
      → ((x : AppError) × ((ts : List String) × (e : String) × (tags ≡ some ts)
            × (codec.to_string ts ≡ err e))
          × ((write_tags codec tags old >>= k) w ≡ (err x, w)))
        ⊎ ((json : Option String) × Encoded codec tags old json
            × ((write_tags codec tags old >>= k) w ≡ k json w))
  unfolding write_tags
  write_tags_cases none old k w = inr (old, inr (refl, refl), refl)
  write_tags_cases (some tags) old k w = elim (Result-cases (codec.to_string tags)) [
    | inl (x, failed) ↦
        inl (Make.bad_request ("invalid tags: " <> x), (tags, x, refl, failed), rw failed refl)
    | inr (s, done) ↦ inr (some s, inl (tags, s, refl, done, refl), rw done refl)
  ]

  rest-Keeps :
      (t : Tables) (caller : Caller) (id : String)
      → Keeps (λ s. s ≡ t) (fetch_case_detail codec caller.user_id id)
  unfolding fetch_case_detail ensure_case_access
  rest-Keeps t caller id = search keeps_rules depth 20

  module _ (now : ℕ) (caller : Caller) (id : String) (req : UpdateCaseRequest) where
    abbrev pub finish : Case → Unit {0} → Handler (CaseDetail × OperationLogNew)
    finish existing u = do
      detail ← fetch_case_detail codec caller.user_id id
      pure (
        detail,
        case_log caller "UPDATE" detail.id detail.name
            (some (detail_json (detail_of codec existing))) (some (detail_json detail)),
      )

    finish-Keeps : (t : Tables) (existing : Case) → Keeps (λ s. s ≡ t) (finish existing tt)
    finish-Keeps t existing = Keeps-bind _ _ (rest-Keeps t caller id) (λ d. Keeps-pure _)

    abbrev pub write : Case → Option String → Handler (CaseDetail × OperationLogNew)
    write existing tags_json =
        execute Make.db_error (update_cases id (merged now req existing tags_json))
        >>= finish existing

    -- The row is written, or the tables are left alone.
    write_cases :
        (existing : Case) (tags_json : Option String) (w : World Tables)
        → ((x : AppError) × ((write existing tags_json w).0 ≡ err x)
            × ((write existing tags_json w).1.tables ≡ w.tables))
          ⊎ ((write existing tags_json w).1.tables
              ≡ (update_cases id (merged now req existing tags_json) w.tables).1)
    write_cases existing tags_json w =
        let update = execute Make.db_error (update_cases id (merged now req existing tags_json)) in
        elim (execute_cases {E = AppError} Make.db_error
          (update_cases id (merged now req existing tags_json)) w) [
            | inl (x, failed, kept) ↦ elim (>>=-cases update (finish existing) w) [
              | inl (y, _, whole) ↦ inl (y, ap answer_in whole, ap tables_of whole ∙ kept)
              | inr (u, done, whole) ↦ absurd (cc (failed, done))
            ]
            | inr (done, changed) ↦ elim (>>=-cases update (finish existing) w) [
              | inl (y, failed, whole) ↦ absurd (cc (failed, done))
              | inr (u, _, whole) ↦ inr (
                  ap tables_of whole
                  ∙ (finish-Keeps (update w).1.tables existing).at (update w).1 refl
                  ∙ changed)
            ]
          ]

    row-Wrote :
        (existing : Case) (w : World Tables)
        → find_case id w.tables ≡ some existing
        → LeftOrWrote codec now caller id req w.tables
            (update_row codec now caller id req existing w)
    unfolding update_row find_case update_cases merged
    row-Wrote existing w found =
        let same_id =
          (eq_iff existing.id id).0 (first_where_sound (λ c. c.id =s id) w.tables.cases found).1 in
        let check = ensure_case_write_access caller.user_id existing.id in
        let still = (checks_change_nothing w caller.user_id existing.id "").1 in
        elim (>>=-cases check (λ _. write_tags codec req.tags existing.tags >>= write existing) w) [
          | inl (x, refused, whole) ↦ inl (x, ap answer_in whole, ap tables_of whole ∙ still)
          | inr (u, passed, whole) ↦
              elim (write_tags_cases req.tags existing.tags (write existing) (check w).1) [
                | inl (x, _, failed) ↦
                    inl (x, ap answer_in (whole ∙ failed), ap tables_of (whole ∙ failed) ∙ still)
                | inr (json, encoded, goes) ↦ elim (write_cases existing json (check w).1) [
                  | inl (x, failed, kept) ↦ inl (
                    x,
                    ap answer_in (whole ∙ goes) ∙ failed,
                    ap tables_of (whole ∙ goes) ∙ kept ∙ still,
                  )
                  | inr changed ↦ inr (
                    existing,
                    merged now req existing json,
                    found,
                    subst (CanWrite w.tables caller.user_id) same_id
                        (ensure_case_write_access_sound w caller.user_id existing.id passed),
                    λ c. (merged-Merges codec now req existing c json encoded, (refl, refl, refl)),
                    ap tables_of (whole ∙ goes)
                        ∙ changed
                        ∙ ap (λ t. (update_cases id (merged now req existing json) t).1) still,
                  )
                ]
              ]
        ]

query_keeps :
    {A : Type 0} (f : Tables → A) (w : World Tables)
    → (query {E = AppError} Make.db_error f w).1.tables ≡ w.tables
query_keeps f w = (Keeps-query {P = λ s. s ≡ w.tables} Make.db_error f).at w refl

pub left_or_wrote :
    (codec : Codec) (now : ℕ) (caller : Caller) (id : String) (req : UpdateCaseRequest)
    (w : World Tables)
    → LeftOrWrote codec now caller id req w.tables (update_case codec now caller id req w)
unfolding update_case
left_or_wrote codec now caller id req w =
    let read = query {E = AppError} Make.db_error (find_case id) in
    elim (>>=-cases read
      (λ row. on_row row (raise case_not_found) (update_row codec now caller id req)) w) [
        | inl (x, failed, whole) ↦
            inl (x, ap answer_in whole, ap tables_of whole ∙ query_keeps (find_case id) w)
        | inr (row, done, whole) ↦
            let (found, kept) = query-eq-ok Make.db_error (find_case id) w done in
            subst (LeftOrWrote codec now caller id req w.tables) (sym whole)
              (from_row row (read w).1 kept found)
      ]
  where
    from_row :
        (row : Option Case) (w1 : World Tables)
        → w1.tables ≡ w.tables
        → row ≡ find_case id w.tables
        → LeftOrWrote codec now caller id req w.tables
            (on_row row (raise case_not_found) (update_row codec now caller id req) w1)
    from_row none w1 kept found = inl (case_not_found, refl, kept)
    from_row (some c) w1 kept found =
        subst (λ t. LeftOrWrote codec now caller id req t (update_row codec now caller id req c w1))
          kept (row-Wrote codec now caller id req c w1 (ap (find_case id) kept ∙ sym found))

check_calm : (u k : String) (t : Tables) → (ensure_case_write_access u k (healthy t)).1 ≡ healthy t
unfolding ensure_case_write_access
check_calm u k t = elim (Option-cases (find_case k t)) [
  | inl missing ↦ rw missing refl
  | inr (c, found) ↦ elim (Bool-cases (c.status =s "deleted")) [
    | inl gone ↦ rw (found, gone) refl
    | inr live ↦ elim (Bool-cases (c.owner_id =s u)) [
      | inl own ↦ rw (found, live, own) refl
      | inr other ↦ elim (Option-cases (find_member k u t)) [
        | inl stranger ↦ rw (found, live, other, stranger) refl
        | inr (m, joined) ↦ rw (found, live, other, joined) (role_calm m.role_in_case)
      ]
    ]
  ]
]
  where
    role_calm : (role : String) → (write_role role (healthy t)).1 ≡ healthy t
    role_calm role = ground arith

-- Over a connection that works, a caller who passes the check writes the row.
pub update_works :
    (codec : Codec) (now : ℕ) (caller : Caller) (id : String) (req : UpdateCaseRequest) (t : Tables)
    (existing : Case) (json : Option String)
    → find_case id t ≡ some existing
    → (ensure_case_write_access caller.user_id id (healthy t)).0 ≡ ok tt
    → Encoded codec req.tags existing.tags json
    → (write_tags codec req.tags existing.tags >>= write codec now caller id req existing)
        (healthy t)
      ≡ write codec now caller id req existing json (healthy t)
    → Written codec now caller id req t (update_case codec now caller id req (healthy t))
unfolding update_case update_row update_cases merged find_case
update_works codec now caller id req t existing json found passed encoded goes =
    let same_id : existing.id ≡ id =
      (eq_iff existing.id id).0 (first_where_sound (λ c. c.id =s id) t.cases found).1 in
    let checked : ensure_case_write_access caller.user_id id (healthy t) ≡ (ok tt, healthy t) =
      both passed (check_calm caller.user_id id t) in
    let checked' : ensure_case_write_access caller.user_id existing.id (healthy t)
        ≡ (ok tt, healthy t) =
      subst (λ i. ensure_case_write_access caller.user_id i (healthy t) ≡ (ok tt, healthy t))
        (sym same_id) checked in
    let run : update_case codec now caller id req (healthy t)
        ≡ write codec now caller id req existing json (healthy t) =
      rw (found, checked') goes in
    let after = (update_cases id (merged now req existing json) t).1 in
    (
      existing,
      merged now req existing json,
      found,
      ensure_case_write_access_sound (healthy t) caller.user_id id passed,
      λ c. (merged-Merges codec now req existing c json encoded, (refl, refl, refl)),
      ap tables_of run
          ∙ (finish-Keeps codec now caller id req after existing).at (healthy after) refl,
    )
  where
    both : {A B : Type 0} {x y : A} {u v : B} → x ≡ y → u ≡ v → Path (A × B) (x, u) (y, v)
    both e f = cc (e, f)
