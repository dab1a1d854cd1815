-- ===== src/Jobs/Budget.antt =====
-- How many failures a job survives, `fail_job` of server/src/jobs.rs called again and again.
use mathlib.Core.List.{Memᴰ}
use legal_genie_agent.Prelude.{
  ℕ, ◌+◌, ◌<◌, ◌≤◌, String, ◌≡◌, ◌≢◌, refl, sym, ap, ◌∙◌, subst, inl, inr, true, some, List, [],
  ◌∷◌, if◌then◌else◌, length, All, arith, Bool-cases,
}
use legal_genie_agent.Sql.{World, healthy, ok}
use legal_genie_agent.Sql.Rows.{update_where, mem-update_where, update_where-mem}
use legal_genie_agent.Jobs.{
  JobRow, Queue, pending, dead, is_active, active_unique, with_id, truncate_error, fail_job,
  dead_row, retry_row,
}
use legal_genie_agent.Jobs.Retries.{
  IsKeyed, failed_as, failed_as-Outcome, failed_as_fields, found_by_id, failed_unique, with_id_self,
  fail_job-healthy,
}

-- The row after a run of failures, each with its clock, its nanoseconds and its text.
abbrev failures : List (ℕ × ℕ × String) → JobRow → JobRow
failures [] r = r
failures ((now, nanos, text) ∷ fs) r = failures fs (failed_as now nanos text r r)

failed_as_max :
    (now nanos : ℕ) (text : String) (r : JobRow)
    → (failed_as now nanos text r r).max_attempts ≡ r.max_attempts
unfolding failed_as dead_row retry_row
failed_as_max now nanos text r = ground arith

failures_spent :
    (fs : List (ℕ × ℕ × String)) (r : JobRow)
    → fs ≢ []
    → r.attempts + length fs ≡ r.max_attempts
    → ((failures fs r).status ≡ dead) × ((failures fs r).attempts ≡ r.max_attempts)
failures_spent [] r some_left all = absurd (some_left refl)
failures_spent ((now, nanos, text) ∷ []) r some_left all =
    ground (arith, failed_as-Outcome now nanos text r, (failed_as_fields now nanos text r).1)
failures_spent ((now, nanos, text) ∷ (f ∷ fs)) r some_left all = ground (
  arith,
  failed_as_max now nanos text r,
  (failed_as_fields now nanos text r).1,
  failures_spent (f ∷ fs) (failed_as now nanos text r r) (λ e. cc),
)

failures_left :
    (fs : List (ℕ × ℕ × String)) (r : JobRow)
    → fs ≢ []
    → r.attempts + length fs < r.max_attempts
    → ((failures fs r).status ≡ pending) × ((failures fs r).attempts ≡ r.attempts + length fs)
failures_left [] r some_left all = absurd (some_left refl)
failures_left ((now, nanos, text) ∷ []) r some_left all =
    ground (arith, failed_as-Outcome now nanos text r, (failed_as_fields now nanos text r).1)
failures_left ((now, nanos, text) ∷ (f ∷ fs)) r some_left all = ground (
  arith,
  failed_as_max now nanos text r,
  (failed_as_fields now nanos text r).1,
  failures_left (f ∷ fs) (failed_as now nanos text r r) (λ e. cc),
)

-- A report of a failure: the clock, its nanoseconds and the text.
abbrev pub Report : Type 0
Report = ℕ × ℕ × String

-- The reports of failures of one job, one after the other.
abbrev pub fail_all : List Report → String → World Queue → World Queue
fail_all [] job_id w = w
fail_all ((now, nanos, text) ∷ fs) job_id w =
    fail_all fs job_id (fail_job now nanos job_id text w).1

-- The text is one that `truncate_error` keeps as it is.
abbrev pub IsShort : Report → Type 0
IsShort (now, nanos, text) = truncate_error text ≡ some text

record IsFailing (id : String) (q : Queue) (r : JobRow) : Type 0 where
  pub unique : active_unique q.jobs ≡ true
  pub keyed : IsKeyed q
  pub here : Memᴰ r q.jobs
  pub same : r.id ≡ id

failed_as_id :
    (now nanos : ℕ) (text : String) (r s : JobRow) → (failed_as now nanos text r s).id ≡ s.id
unfolding failed_as dead_row retry_row
failed_as_id now nanos text r s = ground arith

module _ (now nanos : ℕ) (text : String) (q : Queue) (r : JobRow) where
  abbrev after : Queue
  after = record q { jobs = update_where (with_id r.id) (failed_as now nanos text r) q.jobs }

  kept_id :
      (x s : JobRow)
      → s ≡ (if with_id r.id x then failed_as now nanos text r x else x)
      → s.id ≡ x.id
  kept_id x s e = elim (Bool-cases (with_id r.id x)) [
    | inl fits ↦ ap (λ y. y.id) (rw fits at e) ∙ failed_as_id now nanos text r x
    | inr out ↦ ap (λ y. y.id) (rw out at e)
  ]

  after-IsKeyed : IsKeyed q → IsKeyed after
  after-IsKeyed keyed a b at at' same =
      let (x, m, e) = mem-update_where (with_id r.id) (failed_as now nanos text r) q.jobs at in
      let (y, n, f) = mem-update_where (with_id r.id) (failed_as now nanos text r) q.jobs at' in
      let one : x ≡ y = keyed x y m n (sym (kept_id x a e) ∙ same ∙ kept_id y b f) in
      e ∙ ap (λ z. if with_id r.id z then failed_as now nanos text r z else z) one ∙ sym f

  -- One report: the job's row is `failed_as`, and what the next report needs holds again.
  fails_on :
      (id : String)
      → truncate_error text ≡ some text
      → is_active r.status ≡ true
      → IsFailing id q r
      → (fail_job now nanos id text (healthy q) ≡ (ok tt, healthy after))
        × IsFailing id after (failed_as now nanos text r r)
  fails_on id short active f =
      let unique = failed_unique now nanos text q r f.unique f.keyed f.here active in
      (
        subst (λ i. fail_job now nanos i text (healthy q) ≡ (ok tt, healthy after)) f.same
            (fail_job-healthy now nanos text text short q r (found_by_id q r f.keyed f.here)
              unique),
        record {
          unique = unique;
          keyed = after-IsKeyed f.keyed;
          here =
              rw (with_id_self r) at
                (update_where-mem (with_id r.id) (failed_as now nanos text r) q.jobs f.here);
          same = (failed_as_fields now nanos text r).0 ∙ f.same;
        },
      )

fail_all_rows :
    (fs : List Report) (id : String) (q : Queue) (r : JobRow)
    → All IsShort fs
    → r.attempts + length fs ≤ r.max_attempts
    → is_active r.status ≡ true
    → IsFailing id q r
    → IsFailing id (fail_all fs id (healthy q)).tables (failures fs r)
fail_all_rows [] id q r short room active f = f
fail_all_rows ((now, nanos, text) ∷ []) id q r (short, _) room active f =
    let (done, next) = fails_on now nanos text q r id short active f in rw (fail_all, done) next
fail_all_rows ((now, nanos, text) ∷ (g ∷ fs)) id q r (short, shorter) room active f =
    let (done, next) = fails_on now nanos text q r id short active f in
    let waits : is_active (failed_as now nanos text r r).status ≡ true =
      ground (arith, failed_as-Outcome now nanos text r, (failed_as_fields now nanos text r).1) in
    let left : (failed_as now nanos text r r).attempts + length (g ∷ fs)
        ≤ (failed_as now nanos text r r).max_attempts =
      ground (arith, (failed_as_fields now nanos text r).1, failed_as_max now nanos text r) in
    rw (fail_all, done)
      (fail_all_rows (g ∷ fs) id (after now nanos text q r) (failed_as now nanos text r r) shorter
        left waits next)

module _ (fs : List Report) (q : Queue) (r : JobRow) (unique : active_unique q.jobs ≡ true)
    (keyed : IsKeyed q) (at : Memᴰ r q.jobs) (active : is_active r.status ≡ true)
    (short : All IsShort fs) (some_left : fs ≢ []) where
  reported :
      r.attempts + length fs ≤ r.max_attempts
      → IsFailing r.id (fail_all fs r.id (healthy q)).tables (failures fs r)
  reported room =
      fail_all_rows fs r.id q r short room active
        (record { unique = unique; keyed = keyed; here = at; same = refl })

  -- On a queue whose identifiers and unique index hold, over a connection that works, an active
  -- job that fails as often as it has retries left, at least once and with texts that are not cut,
  -- is dead.
  pub retry_budget_spent :
      r.attempts + length fs ≡ r.max_attempts
      → (s : JobRow) × Memᴰ s (fail_all fs r.id (healthy q)).tables.jobs
        × (s.id ≡ r.id)
        × (s.status ≡ dead)
        × (s.attempts ≡ r.max_attempts)
  retry_budget_spent all =
      let f = reported (omega arith) in
      let (gone, tries) = failures_spent fs r some_left all in
      (failures fs r, f.here, f.same, gone, tries)

  -- On a queue whose identifiers and unique index hold, over a connection that works, an active
  -- job that fails less often than it has retries left, at least once and with texts that are not
  -- cut, waits for its next run and has counted each failure.
  pub retry_budget_left :
      r.attempts + length fs < r.max_attempts
      → (s : JobRow) × Memᴰ s (fail_all fs r.id (healthy q)).tables.jobs
        × (s.id ≡ r.id)
        × (s.status ≡ pending)
        × (s.attempts ≡ r.attempts + length fs)
  retry_budget_left few =
      let f = reported (omega arith) in
      let (waits, tries) = failures_left fs r some_left few in
      (failures fs r, f.here, f.same, waits, tries)
