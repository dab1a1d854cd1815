-- ===== src/Jobs/Retries.antt =====
-- Failed jobs, `fail_job` of server/src/jobs.rs: the retry budget, the delays, and what a failure
-- that is reported late does.
use mathlib.Core.List.{Memᴰ}
use mathlib.Core.Path.{fun_ext}
use Prim.Native.String.{len}
use text.Mathlib.Text.{is_char_boundary}
use legal_genie_agent.Prelude.{
  ℕ, ◌+◌, ◌≤◌, ◌<◌, String, ◌≡◌, refl, ◌⊎◌, inl, inr, Bool, true, false, none, some, List, [], ◌∷◌,
  All, leb, ltb, arith, eq_iff, eq_refl, Bool-cases, if◌then◌else◌,
}
use legal_genie_agent.Sql.{healthy, ok, err}
use legal_genie_agent.Sql.Rows.{
  first_where, first_where_complete, update_where, count_where, update_where-mem,
}
use legal_genie_agent.Jobs.{
  JobRow, Queue, panic, pending, succeeded, dead, is_active, active_unique, update_jobs, with_id,
  fail_job, fail_row, truncate_error, dead_row, retry_row, backoff_seconds,
}
use legal_genie_agent.Jobs.Unique.{active_unique_changed}
use legal_genie_agent.Jobs.Backoff.{backoff_seconds_bounds}

-- What a failure makes of a row `s`, where `r` is the row that was read.
unfoldable pub failed_as : ℕ → ℕ → String → JobRow → JobRow → JobRow
failed_as now nanos text r s =
    if leb r.max_attempts (r.attempts + 1)
    then dead_row now text (r.attempts + 1) s
    else retry_row now text (r.attempts + 1) (backoff_seconds (r.attempts + 1) nanos) s

update_lets_through :
    (p : JobRow → Bool) (f : JobRow → JobRow) (q : Queue)
    → active_unique (update_where p f q.jobs) ≡ true
    → update_jobs p f q ≡ ok (count_where p q.jobs, record q { jobs = update_where p f q.jobs })
unfolding update_jobs
update_lets_through p f q h = rw h

module _ (now nanos : ℕ) (text : String) (r : JobRow) where
  failed_as-over :
      leb r.max_attempts (r.attempts + 1) ≡ true
      → failed_as now nanos text r ≡ dead_row now text (r.attempts + 1)
  unfolding failed_as
  failed_as-over over = fun_ext λ s. rw over

  failed_as-room :
      leb r.max_attempts (r.attempts + 1) ≡ false
      → failed_as now nanos text r
        ≡ retry_row now text (r.attempts + 1) (backoff_seconds (r.attempts + 1) nanos)
  unfolding failed_as
  failed_as-room room = fun_ext λ s. rw room

module _ (now nanos : ℕ) (message text : String) (short : truncate_error message ≡ some text) where
  fail_row-healthy :
      (q : Queue) (r : JobRow)
      → active_unique (update_where (with_id r.id) (failed_as now nanos text r) q.jobs) ≡ true
      → fail_row now nanos r.id message r (healthy q) ≡ (
        ok tt,
        healthy
            (record q { jobs = update_where (with_id r.id) (failed_as now nanos text r) q.jobs }),
      )
  unfolding fail_row
  fail_row-healthy q r unique = elim (Bool-cases (leb r.max_attempts (r.attempts + 1))) [
    | inl over ↦
        let e = failed_as-over now nanos text r over in
        rw (e, over, short, update_lets_through (with_id r.id) _ q (rw e at unique))
    | inr room ↦
        let e = failed_as-room now nanos text r room in
        rw (e, room, short, update_lets_through (with_id r.id) _ q (rw e at unique))
  ]

  -- A failure report changes the row of its job as `failed_as` says, if the unique index admits
  -- the change.
  pub fail_job-healthy :
      (q : Queue) (r : JobRow)
      → first_where (with_id r.id) q.jobs ≡ some r
      → active_unique (update_where (with_id r.id) (failed_as now nanos text r) q.jobs) ≡ true
      → fail_job now nanos r.id message (healthy q) ≡ (
        ok tt,
        healthy
            (record q { jobs = update_where (with_id r.id) (failed_as now nanos text r) q.jobs }),
      )
  unfolding fail_job
  fail_job-healthy q r found unique = rw found (fail_row-healthy q r unique)

-- The primary key of `jobs`.
abbrev pub IsKeyed : Queue → Type 0
IsKeyed q = (r s : JobRow) → Memᴰ r q.jobs → Memᴰ s q.jobs → r.id ≡ s.id → r ≡ s

All-of_mem : {P : JobRow → Type 0} (rs : List JobRow) → ((r : JobRow) → Memᴰ r rs → P r) → All P rs
All-of_mem [] k = tt
All-of_mem (x ∷ xs) k = (k x (Memᴰ.head refl), All-of_mem xs (λ r m. k r (Memᴰ.tail m)))

pub with_id_self : (r : JobRow) → with_id r.id r ≡ true
unfolding with_id
with_id_self r = eq_refl r.id

with_id-eq : (job_id : String) (s : JobRow) → with_id job_id s ≡ true → s.id ≡ job_id
unfolding with_id
with_id-eq job_id s h = (eq_iff _ _).0 h

pub found_by_id :
    (q : Queue) (r : JobRow)
    → IsKeyed q
    → Memᴰ r q.jobs
    → first_where (with_id r.id) q.jobs ≡ some r
found_by_id q r keyed at =
    first_where_complete (with_id r.id) q.jobs r at (with_id_self r)
      (λ s m fits. keyed s r m at (with_id-eq r.id s fits))

failed_as_same :
    (now nanos : ℕ) (text : String) (r s : JobRow)
    → ((failed_as now nanos text r s).kind ≡ s.kind)
      × ((failed_as now nanos text r s).ref_id ≡ s.ref_id)
unfolding failed_as dead_row retry_row
failed_as_same now nanos text r s = ground arith

-- A failure of a job that a worker has never breaks the unique index.
pub failed_unique :
    (now nanos : ℕ) (text : String) (q : Queue) (r : JobRow)
    → active_unique q.jobs ≡ true
    → IsKeyed q
    → Memᴰ r q.jobs
    → is_active r.status ≡ true
    → active_unique (update_where (with_id r.id) (failed_as now nanos text r) q.jobs) ≡ true
failed_unique now nanos text q r unique keyed at active =
    active_unique_changed (with_id r.id) (failed_as now nanos text r)
      (λ s. (failed_as_same now nanos text r s).0) (λ s. (failed_as_same now nanos text r s).1)
      q.jobs
      (All-of_mem q.jobs (λ s m. elim (Bool-cases (with_id r.id s)) [
        | inl fits ↦
            let same : s ≡ r = keyed s r m at (with_id-eq r.id s fits) in inr (inr (rw same active))
        | inr out ↦ inl out
      ]))
      unique

pub failed_as_fields :
    (now nanos : ℕ) (text : String) (r : JobRow)
    → ((failed_as now nanos text r r).id ≡ r.id)
      × ((failed_as now nanos text r r).attempts ≡ r.attempts + 1)
      × ((failed_as now nanos text r r).lease_until ≡ none)
      × ((failed_as now nanos text r r).last_error ≡ some text)
unfolding failed_as dead_row retry_row
failed_as_fields now nanos text r = (ground arith, ground arith, ground arith, ground arith)

-- The two ways in which a failure leaves its job.
abbrev pub Outcome : ℕ → ℕ → JobRow → Type 0
Outcome now most s =
    (most ≤ s.attempts) × (s.status ≡ dead)
    ⊎ (s.attempts < most)
      × (s.status ≡ pending)
      × (now + 10 ≤ s.next_run_at)
      × (s.next_run_at < now + 800)

pub failed_as-Outcome :
    (now nanos : ℕ) (text : String) (r : JobRow)
    → Outcome now r.max_attempts (failed_as now nanos text r r)
unfolding failed_as dead_row retry_row
failed_as-Outcome now nanos text r =
    let bounds = backoff_seconds_bounds (r.attempts + 1) nanos (omega arith) in
    elim (Bool-cases (leb r.max_attempts (r.attempts + 1))) [
      | inl over ↦ inl (ground arith)
      | inr room ↦ inr (ground (arith, bounds))
    ]

-- On a queue whose identifiers and unique index hold, over a connection that works, the failure of
-- an active job, with a text that is not cut, uses up one retry and clears the lease: the job is
-- dead if that was the last one, and else it waits for at least ten seconds and less than 800.
pub failure_uses_one_retry :
    (now nanos : ℕ) (message text : String) (q : Queue) (r : JobRow)
    → truncate_error message ≡ some text
    → active_unique q.jobs ≡ true
    → IsKeyed q
    → Memᴰ r q.jobs
    → is_active r.status ≡ true
    → (q' : Queue) × (s : JobRow) × (fail_job now nanos r.id message (healthy q)
        ≡ (ok tt, healthy q'))
      × Memᴰ s q'.jobs
      × (s.id ≡ r.id)
      × (s.attempts ≡ r.attempts + 1)
      × (s.lease_until ≡ none)
      × (s.last_error ≡ some text)
      × Outcome now r.max_attempts s
failure_uses_one_retry now nanos message text q r short unique keyed at active = (
  _,
  _,
  fail_job-healthy now nanos message text short q r (found_by_id q r keyed at)
      (failed_unique now nanos text q r unique keyed at active),
  rw (with_id_self r) at (update_where-mem (with_id r.id) (failed_as now nanos text r) q.jobs at),
  (failed_as_fields now nanos text r).0,
  (failed_as_fields now nanos text r).1,
  (failed_as_fields now nanos text r).2,
  (failed_as_fields now nanos text r).3,
  failed_as-Outcome now nanos text r,
)

-- On a queue whose identifiers hold, over a connection that works, a failure reported for a job
-- that has succeeded and has retries left puts the job back into the queue, if the unique index
-- admits it.
pub late_failure_revives :
    (now nanos : ℕ) (message text : String) (q : Queue) (r : JobRow)
    → truncate_error message ≡ some text
    → IsKeyed q
    → Memᴰ r q.jobs
    → r.status ≡ succeeded
    → r.attempts + 1 < r.max_attempts
    → active_unique (update_where (with_id r.id) (failed_as now nanos text r) q.jobs) ≡ true
    → (q' : Queue) × (s : JobRow) × (fail_job now nanos r.id message (healthy q)
        ≡ (ok tt, healthy q'))
      × Memᴰ s q'.jobs
      × (s.id ≡ r.id)
      × (s.status ≡ pending)
late_failure_revives now nanos message text q r short keyed at finished room unique = (
  _,
  _,
  fail_job-healthy now nanos message text short q r (found_by_id q r keyed at) unique,
  rw (with_id_self r) at (update_where-mem (with_id r.id) (failed_as now nanos text r) q.jobs at),
  (failed_as_fields now nanos text r).0,
  ground (arith, failed_as-Outcome now nanos text r, (failed_as_fields now nanos text r).1),
)

-- On a queue whose identifiers hold, over a connection that works, an error text longer than 2000
-- bytes whose byte 2000 lies inside a character makes `fail_job` panic before it writes: the queue
-- is as it was.
pub long_error_panics :
    (now nanos : ℕ) (message : String) (q : Queue) (r : JobRow)
    → IsKeyed q
    → Memᴰ r q.jobs
    → 2000 < len message
    → is_char_boundary message 2000 ≡ false
    → fail_job now nanos r.id message (healthy q) ≡ (err panic, healthy q)
unfolding fail_job fail_row truncate_error
long_error_panics now nanos message q r keyed at long inside =
    let found = found_by_id q r keyed at in
    let far : ltb 2000 (len message) ≡ true = ground arith in
    elim (Bool-cases (leb r.max_attempts (r.attempts + 1))) [
      | inl over ↦ rw (found, over, far, inside)
      | inr room ↦ rw (found, room, far, inside)
    ]
