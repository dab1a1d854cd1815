-- ===== src/Cases/Update.antt =====
-- What an update of a case may write, and for whom.
use legal_genie_agent.Prelude.{
  ℕ, String, ◌=s◌, ◌≡◌, ◌⊎◌, refl, sym, ap, ◌∙◌, subst, Option, none, some, List, [], ◌∷◌, ◌≢◌,
  Option-cases, inl, inr,
}
use legal_genie_agent.Errors.{AppError}
use legal_genie_agent.Sql.{World, healthy, Result, ok, err, Result-cases}
use legal_genie_agent.Sql.Rows.{first_where_sound, first_where-update_where}
use legal_genie_agent.Schema.{Tables, Case}
use legal_genie_agent.Access.{
  find_case, case_not_found, ensure_case_access, ensure_case_write_access,
}
use legal_genie_agent.Access.Roles.{IsKeyed, CanWrite}
use legal_genie_agent.Access.Complete.{find_case_complete, ensure_case_write_access_iff}
use legal_genie_agent.Oplog.{OperationLogNew}
use legal_genie_agent.Cases.{
  UpdateCaseRequest, CaseDetail, Codec, Caller, update_cases, fetch_case_detail, write_tags, merged,
  update_row, update_case,
}
use legal_genie_agent.Cases.Written.{Written, left_or_wrote, update_works, write, write_tags_cases}

-- Why an update may answer an error: a statement may fail, the case is not there, the caller may not
-- write it, or the tags cannot be encoded.
abbrev pub Refusal : Codec → Caller → String → UpdateCaseRequest → World Tables → Type 0
Refusal codec caller id req w =
    (w.faults ≢ [])
    ⊎ (find_case id w.tables ≡ none)
    ⊎ ((x : AppError) × ((ensure_case_write_access caller.user_id id (healthy w.tables)).0 ≡ err x))
    ⊎ ((ts : List String) × (x : String) × (req.tags ≡ some ts) × (codec.to_string ts ≡ err x))

-- What a call to update a case has left: the tables, if it is refused, or the tables with the one
-- row written as the request asks, by a caller who may write the case.
abbrev pub Wrote :
    Codec
    → ℕ
    → Caller
    → String
    → UpdateCaseRequest
    → World Tables
    → Result AppError (CaseDetail × OperationLogNew) × World Tables
    → Type 0
Wrote codec now caller id req w after =
    ((x : AppError) × Refusal codec caller id req w
      × (after.0 ≡ err x)
      × (after.1.tables ≡ w.tables))
    ⊎ Written codec now caller id req w.tables after

healthy_writes :
    (codec : Codec) (now : ℕ) (caller : Caller) (id : String) (req : UpdateCaseRequest) (t : Tables)
    → Wrote codec now caller id req (healthy t) (update_case codec now caller id req (healthy t))
healthy_writes codec now caller id req t =
    elim (left_or_wrote codec now caller id req (healthy t)) [
      | inr wrote ↦ inr wrote
      | inl (x, failed, kept) ↦ elim (Option-cases (find_case id t)) [
        | inl missing ↦ inl (x, inr (inl missing), failed, kept)
        | inr (c, found) ↦
            elim (Result-cases (ensure_case_write_access caller.user_id id (healthy t)).0) [
              | inl (y, refused) ↦ inl (x, inr (inr (inl (y, refused))), failed, kept)
              | inr (u, passed) ↦
                  elim (write_tags_cases codec req.tags c.tags (write codec now caller id req c)
                    (healthy t)) [
                      | inl (y, broken, _) ↦ inl (x, inr (inr (inr broken)), failed, kept)
                      | inr (json, encoded, goes) ↦
                          inr (
                            update_works codec now caller id req t c json found passed encoded goes)
                    ]
            ]
      ]
    ]

-- `update_case` answers an error and leaves the tables as they were, or it writes the one row of the
-- case, for a caller who may write the case: the name, the description, the tags and the status
-- become what the request gives, or stay where it gives none (the name also where it gives a blank
-- one); the identifier, the owner and the time of the creation stay. It leaves the tables only
-- where a statement may fail, the case is not there, the check for writing refuses the caller, or
-- the tags cannot be encoded.
pub update_case_writes :
    (codec : Codec) (now : ℕ) (caller : Caller) (id : String) (req : UpdateCaseRequest)
    (w : World Tables)
    → Wrote codec now caller id req w (update_case codec now caller id req w)
update_case_writes codec now caller id req w = by_faults w.faults refl
  where
    by_faults :
        (fs : List (Option String))
        → w.faults ≡ fs
        → Wrote codec now caller id req w (update_case codec now caller id req w)
    by_faults [] none_left =
        let calm : w ≡ healthy w.tables =
          ap (λ fs. record { tables = w.tables; faults = fs }) none_left in
        subst (λ v. Wrote codec now caller id req v (update_case codec now caller id req v))
          (sym calm) (healthy_writes codec now caller id req w.tables)
    by_faults (f ∷ fs) some_left = elim (left_or_wrote codec now caller id req w) [
      | inl (x, failed, kept) ↦ inl (x, inl (λ e. cc (some_left, e)), failed, kept)
      | inr wrote ↦ inr wrote
    ]

abbrev pub deleting : UpdateCaseRequest
deleting = record { name = none; description = none; tags = none; status = some "deleted" }

abbrev marked : ℕ → String → Case → Tables → Tables
marked now id c t = (update_cases id (merged now deleting c c.tags) t).1

found_deleted :
    (now : ℕ) (id : String) (c : Case) (t : Tables)
    → find_case id t ≡ some c
    → find_case id (marked now id c t) ≡ some (merged now deleting c c.tags c)
unfolding find_case update_cases merged
found_deleted now id c t found =
    let own = (first_where_sound (λ c. c.id =s id) t.cases found).1 in
    let now_there =
      first_where-update_where (λ c. c.id =s id) (λ c. c.id =s id) (merged now deleting c c.tags)
        t.cases (λ x. refl) found in
    rw own at now_there

deleted_refused :
    (now : ℕ) (id user_id : String) (c : Case) (t : Tables)
    → find_case id t ≡ some c
    → ensure_case_access user_id id (healthy (marked now id c t))
      ≡ (err case_not_found, healthy (marked now id c t))
unfolding ensure_case_access merged
deleted_refused now id user_id c t found = rw (found_deleted now id c t found) refl

own_deleted :
    (codec : Codec) (now : ℕ) (caller : Caller) (c : Case) (t : Tables)
    → find_case c.id t ≡ some c
    → ensure_case_write_access caller.user_id c.id (healthy t) ≡ (ok tt, healthy t)
    → update_case codec now caller c.id deleting (healthy t)
      ≡ (err case_not_found, healthy (marked now c.id c t))
unfolding update_case update_row write_tags fetch_case_detail update_cases merged
own_deleted codec now caller c t found passed =
    let there = found_deleted now c.id c t found in
    let refused' = deleted_refused now c.id caller.user_id c t found in
    simp (found, passed, there, refused') refl

-- Where the connection works, a caller who may write a case, be it as a mere member, deletes it by
-- an update with the status deleted: the call answers that there is no such case, so that no entry
-- is logged, but the case is deleted.
pub writer_deletes :
    (codec : Codec) (now : ℕ) (caller : Caller) (id : String) (t : Tables)
    → IsKeyed t
    → CanWrite t caller.user_id id
    → ((update_case codec now caller id deleting (healthy t)).0 ≡ err case_not_found)
      × ((c : Case) × (find_case id (update_case codec now caller id deleting (healthy t)).1.tables
            ≡ some c)
          × (c.status ≡ "deleted"))
unfolding merged
writer_deletes codec now caller id t keyed (c, live, how) =
    let found = find_case_complete t keyed caller.user_id id c live in
    let same : c.id ≡ id = live.1 in
    let passed = (ensure_case_write_access_iff t caller.user_id id keyed).1 (c, live, how) in
    let run : update_case codec now caller id deleting (healthy t)
        ≡ (err case_not_found, healthy (marked now id c t)) =
      subst
        (λ i.
          update_case codec now caller i deleting (healthy t)
          ≡ (err case_not_found, healthy (marked now i c t)))
        same
        (own_deleted codec now caller c t (subst (λ i. find_case i t ≡ some c) (sym same) found) (
          subst (λ i. ensure_case_write_access caller.user_id i (healthy t) ≡ (ok tt, healthy t))
            (sym same) passed)) in
    (
      ap (λ r. r.0) run,
      (
        merged now deleting c c.tags c,
        ap
              (λ (r : Result AppError (CaseDetail × OperationLogNew) × World Tables).
                find_case id r.1.tables)
              run
            ∙ found_deleted now id c t found,
        refl,
      ),
    )
