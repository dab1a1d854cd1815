-- ===== src/Jobs/Invariant.antt =====
-- The invariants of the queue under the operations of server/src/jobs.rs: the unique index, the
-- retry budget and the leases.
use legal_genie_agent.Prelude.{
  ℕ, ◌+◌, ◌<◌, String, ◌=s◌, ◌≡◌, refl, ◌⊎◌, inl, inr, Bool, true, false, ◌||◌, Option, none, some,
  List, [], ◌∷◌, any, leb, arith, subst, Bool-cases, All,
}
use legal_genie_agent.Sql.{World, Result, ok, err, statement, pure, on_row}
use legal_genie_agent.Sql.Rules.{
  Keeps, Keeps-statement, Keeps-execute, Keeps-transaction, Keeps-bind, Keeps-pure, Keeps-if_eq,
  Keeps-query-bind, keeps_rules,
}
use legal_genie_agent.Sql.Rows.{
  first_where, first_where_sound, update_where, All-update_where, All-mem,
}
use legal_genie_agent.Jobs.{
  JobRow, Queue, Failure, error, JobStatus, dead, is_leased, conflicts, active_unique, update_jobs,
  insert_job, enqueue_job, claim_row, claim_body, claim_tx, returned, claim_next_job, mark_running,
  complete_job, fail_job, fail_row, truncate_error, reset_stale_jobs, heartbeat_job,
  record_job_event, or_panic, with_id, is_stale, dead_row, retry_row, JobKind,
}
use legal_genie_agent.Jobs.Operation.{
  Operation, enqueue, claim, run, complete, fail, sweep, beat, note, perform, history,
}

abbrev pub has_lease : Option ℕ → Bool
has_lease none = false
has_lease (some _) = true

abbrev pub is_dead : JobStatus → Bool
is_dead dead = true
is_dead _ = false

-- A job that is not dead has retries left, and a lease is held exactly while a worker has the job.
pub record IsSound (r : JobRow) : Type 0 where
  pub five : r.max_attempts ≡ 5
  pub retries : (is_dead r.status ≡ true) ⊎ (r.attempts < r.max_attempts)
  pub leases : has_lease r.lease_until ≡ is_leased r.status

-- The table is one that the unique index accepts, and its rows are sound.
pub record IsValid (q : Queue) : Type 0 where
  pub unique : active_unique q.jobs ≡ true
  pub rows : All IsSound q.jobs

module _ (p : JobRow → Bool) (f : JobRow → JobRow) where
  update_jobs-IsValid :
      ((r : JobRow) → IsSound r → p r ≡ true → IsSound (f r))
      → (q : Queue) → IsValid q
      → (n : ℕ) (q' : Queue) → update_jobs p f q ≡ ok (n, q')
      → IsValid q'
  unfolding update_jobs
  update_jobs-IsValid k q v n q' e = elim (Bool-cases (active_unique (update_where p f q.jobs))) [
    | inl unique ↦
        let same : record q { jobs = update_where p f q.jobs } ≡ q' = ground arith in
        subst IsValid same
          (record { unique = unique; rows = All-update_where IsSound p f q.jobs k v.rows })
    | inr refused ↦ absurd (ground arith)
  ]

  -- An update whose change of a row is sound keeps the queue valid.
  update-IsValid :
      ((r : JobRow) → IsSound r → p r ≡ true → IsSound (f r))
      → Keeps IsValid (statement error (update_jobs p f))
  update-IsValid k = Keeps-statement error (update_jobs p f) (update_jobs-IsValid k)

no_conflict :
    (r : JobRow) (rs : List JobRow)
    → any (λ s. s.id =s r.id || conflicts r s) rs ≡ false
    → any (conflicts r) rs ≡ false
no_conflict r [] h = refl
no_conflict r (s ∷ rs) h = ground (arith, no_conflict r rs)

insert_job-IsValid : (r : JobRow) (q : Queue) → IsSound r → IsValid q → IsValid (insert_job r q).1
unfolding insert_job active_unique
insert_job-IsValid r q h v = ground (arith, no_conflict r q.jobs)

enqueue-IsValid :
    (now : ℕ) (new_id : String) (kind : JobKind) (case_id : Option String) (ref_id payload : String)
    → Keeps IsValid (enqueue_job now new_id kind case_id ref_id payload)
unfolding enqueue_job
enqueue-IsValid now new_id kind case_id ref_id payload =
    Keeps-execute error (insert_job _) (λ q v. insert_job-IsValid _ q (ground arith) v)

claim_row-IsValid :
    (now : ℕ) (job_id : String) → Keeps IsValid (statement error (claim_row now job_id))
unfolding claim_row
claim_row-IsValid now job_id = update-IsValid _ _ (λ r h fits. ground arith)

returned-IsValid : {A : Type 0} (r : Result Failure A) → Keeps IsValid (returned r)
returned-IsValid (ok a) = record { at = λ w h. h }
returned-IsValid (err e) = record { at = λ w h. h }

pub or_panic-IsValid : {A : Type 0} (o : Option A) → Keeps IsValid (or_panic o)
or_panic-IsValid none = record { at = λ w h. h }
or_panic-IsValid (some a) = record { at = λ w h. h }

ruleset valid_rules = (keeps_rules, claim_row-IsValid, returned-IsValid, or_panic-IsValid)

claim_body-IsValid : (now : ℕ) (locked : List String) → Keeps IsValid (claim_body now locked)
unfolding claim_body
claim_body-IsValid now locked = search valid_rules depth 14

claim_tx-IsValid : (now : ℕ) (locked : List String) → Keeps IsValid (claim_tx now locked)
unfolding claim_tx
claim_tx-IsValid now locked =
    Keeps-transaction error (claim_body now locked) (claim_body-IsValid now locked)

pub claim-IsValid : (now : ℕ) (locked : List String) → Keeps IsValid (claim_next_job now locked)
unfolding claim_next_job
claim-IsValid now locked =
    Keeps-bind (claim_tx now locked) _ (claim_tx-IsValid now locked)
      (λ row. search valid_rules depth 14)

pub run-IsValid : (now : ℕ) (job_id : String) → Keeps IsValid (mark_running now job_id)
unfolding mark_running
run-IsValid now job_id =
    Keeps-bind _ _ (update-IsValid _ _ (λ r h fits. ground arith)) (λ n. Keeps-pure tt)

pub complete-IsValid : (now : ℕ) (job_id : String) → Keeps IsValid (complete_job now job_id)
unfolding complete_job
complete-IsValid now job_id =
    Keeps-bind _ _ (update-IsValid _ _ (λ r h fits. ground arith)) (λ n. Keeps-pure tt)

pub sweep-IsValid : (now : ℕ) → Keeps IsValid (reset_stale_jobs now)
unfolding reset_stale_jobs is_stale
sweep-IsValid now = update-IsValid _ _ (λ r h fits. ground arith)

pub beat-IsValid : (now : ℕ) (job_id : String) → Keeps IsValid (heartbeat_job now job_id)
unfolding heartbeat_job
beat-IsValid now job_id =
    Keeps-bind _ _ (update-IsValid _ _ (λ r h fits. ground arith)) (λ n. Keeps-pure tt)

pub note-IsValid :
    (job_id : String) (kind : JobKind) (event : String) (detail : Option String)
    → Keeps IsValid (record_job_event job_id kind event detail)
unfolding record_job_event
note-IsValid job_id kind event detail = Keeps-execute error _ (λ q v. ground arith)

retry-IsValid :
    (now delay attempts : ℕ) (job_id text : String)
    → attempts < 5
    → Keeps IsValid
        (statement error (update_jobs (with_id job_id) (retry_row now text attempts delay)))
retry-IsValid now delay attempts job_id text room =
    update-IsValid _ _ (λ r h fits. unfold retry_row in ground arith)

dead-IsValid :
    (now attempts : ℕ) (job_id text : String)
    → Keeps IsValid (statement error (update_jobs (with_id job_id) (dead_row now text attempts)))
dead-IsValid now attempts job_id text =
    update-IsValid _ _ (λ r h fits. unfold dead_row in ground arith)

ruleset fail_rules = (valid_rules, dead-IsValid)

fail_row-IsValid :
    (now nanos : ℕ) (job_id message : String) (r : JobRow)
    → IsSound r
    → Keeps IsValid (fail_row now nanos job_id message r)
unfolding fail_row
fail_row-IsValid now nanos job_id message r sound =
    Keeps-if_eq (leb r.max_attempts (r.attempts + 1)) _ _ (λ over. search fail_rules depth 14)
      (λ room.
        let left : r.attempts + 1 < 5 = ground arith in
        Keeps-bind _ _ (or_panic-IsValid (truncate_error message)) (λ text.
          Keeps-bind _ _ (retry-IsValid now _ (r.attempts + 1) job_id text left)
            (λ n. Keeps-pure tt)))

pub fail-IsValid :
    (now nanos : ℕ) (job_id message : String) → Keeps IsValid (fail_job now nanos job_id message)
unfolding fail_job
fail-IsValid now nanos job_id message =
    Keeps-query-bind error (λ (q : Queue). first_where (with_id job_id) q.jobs) _
      (λ q v. row_read (first_where (with_id job_id) q.jobs) (λ r found.
        All-mem IsSound q.jobs v.rows (first_where_sound (with_id job_id) q.jobs found).0))
  where
    row_read :
        (o : Option JobRow)
        → ((r : JobRow) → o ≡ some r → IsSound r)
        → Keeps IsValid (on_row o (pure tt) (fail_row now nanos job_id message))
    row_read none sound = Keeps-pure tt
    row_read (some r) sound = fail_row-IsValid now nanos job_id message r (sound r refl)

perform-IsValid : (o : Operation) → Keeps IsValid (perform o)
unfolding perform
perform-IsValid (enqueue now new_id kind case_id ref_id payload) =
    Keeps-bind _ _ (enqueue-IsValid now new_id kind case_id ref_id payload) (λ b. Keeps-pure tt)
perform-IsValid (claim now locked) = Keeps-bind _ _ (claim-IsValid now locked) (λ b. Keeps-pure tt)
perform-IsValid (run now job_id) = run-IsValid now job_id
perform-IsValid (complete now job_id) = complete-IsValid now job_id
perform-IsValid (fail now nanos job_id message) = fail-IsValid now nanos job_id message
perform-IsValid (sweep now) = Keeps-bind _ _ (sweep-IsValid now) (λ b. Keeps-pure tt)
perform-IsValid (beat now job_id) = beat-IsValid now job_id
perform-IsValid (note job_id kind event detail) = note-IsValid job_id kind event detail

-- Whatever the workers and handlers do to the queue, in whatever order and whichever statements
-- fail, at most one job is active for each (kind, ref_id), every job that is not dead has retries
-- left, and a job has a lease exactly while it is claimed or processing.
pub history-IsValid :
    (os : List Operation) (w : World Queue) → IsValid w.tables → IsValid (history os w).tables
unfolding history
history-IsValid [] w v = v
history-IsValid (o ∷ os) w v = history-IsValid os (perform o w).1 ((perform-IsValid o).at w v)
