-- ===== src/Worker/Succeeds.antt =====
-- A job whose task succeeds: from the claim to the row `succeeded`, on a connection that works.
use mathlib.Core.List.{Memᴰ}
use legal_genie_agent.Prelude.{
  ℕ, ◌+◌, String, ◌≡◌, refl, Bool, true, ◌&&◌, none, some, List, [], ◌∷◌, arith, eq_iff, sym, ◌∙◌,
  ◌++◌,
}
use legal_genie_agent.Sql.{Action, healthy, ok, attempt}
use legal_genie_agent.Sql.Rows.{update_where, update_where-mem, count_where}
use legal_genie_agent.Jobs.{
  Failure, as_str, Job, JobRow, Queue, claimed, processing, succeeded, is_claimed, is_processing,
  is_leased, active_unique, with_id, update_jobs, lease_secs, mark_running, complete_job,
  heartbeat_job, record_job_event,
}
use legal_genie_agent.Jobs.Unique.{IsTame, All-intro, active_unique_changed, update_jobs-eq-ok}
use legal_genie_agent.Worker.{Tasks, Turn, ignore, heartbeats, finish_job, run_job}

abbrev pub running : ℕ → JobRow → JobRow
running now r = record r {
  status = processing;
  lease_until = some (now + lease_secs);
  updated_at = now;
}

abbrev beaten : ℕ → JobRow → JobRow
beaten now r = record r { lease_until = some (now + lease_secs); updated_at = now }

abbrev finished : ℕ → JobRow → JobRow
finished now r = record r {
  status = succeeded;
  lease_until = none;
  last_error = none;
  updated_at = now;
}

-- The row stands in a table that the unique index accepts.
abbrev pub Holds : Queue → JobRow → Type 0
Holds q r = (active_unique q.jobs ≡ true) × Memᴰ r q.jobs

update-Holds :
    (p : JobRow → Bool) (f : JobRow → JobRow) (q : Queue) (r : JobRow)
    → IsTame p f q.jobs
    → Holds q r
    → p r ≡ true
    → (q' : Queue) × (update_jobs p f q ≡ ok (count_where p q.jobs, q')) × Holds q' (f r)
update-Holds p f q r tame (unique, at) fits = (
  record q { jobs = update_where p f q.jobs },
  update_jobs-eq-ok p f q tame unique,
  (
    active_unique_changed p f tame.same_kind tame.same_ref q.jobs tame.no_new unique,
    rw fits at (update_where-mem p f q.jobs at),
  ),
)

module _ (now : ℕ) (id : String) (q : Queue) (r : JobRow) (same : r.id ≡ id) where
  own : with_id id r ≡ true
  unfolding with_id
  own = ground (arith, eq_iff r.id id)

  -- What an update of the job's row changes.
  abbrev pub Changed : (Action Queue Failure (Unit {0})) → (JobRow → JobRow) → Type 0
  Changed m f = (q' : Queue) × (m (healthy q) ≡ (ok tt, healthy q')) × Holds q' (f r)

  pub mark_running-Holds :
      r.status ≡ claimed → Holds q r → Changed (mark_running now id) (running now)
  unfolding mark_running
  mark_running-Holds held holds =
      let p : JobRow → Bool = λ s. with_id id s && is_claimed s.status in
      let (q', done, holds') =
        update-Holds p (running now) q r
          (record {
            same_kind = λ s. refl;
            same_ref = λ s. refl;
            no_new = All-intro _ q.jobs (λ s. ground arith);
          })
          holds (ground (arith, own)) in
      (q', rw done refl, holds')

  heartbeat-Holds : r.status ≡ processing → Holds q r → Changed (heartbeat_job now id) (beaten now)
  unfolding heartbeat_job
  heartbeat-Holds held holds =
      let p : JobRow → Bool = λ s. with_id id s && is_processing s.status in
      let (q', done, holds') =
        update-Holds p (beaten now) q r
          (record {
            same_kind = λ s. refl;
            same_ref = λ s. refl;
            no_new = All-intro _ q.jobs (λ s. ground arith);
          })
          holds (ground (arith, own)) in
      (q', rw done refl, holds')

  complete-Holds : r.status ≡ processing → Holds q r → Changed (complete_job now id) (finished now)
  unfolding complete_job
  complete-Holds held holds =
      let p : JobRow → Bool = λ s. with_id id s && is_leased s.status in
      let (q', done, holds') =
        update-Holds p (finished now) q r
          (record {
            same_kind = λ s. refl;
            same_ref = λ s. refl;
            no_new = All-intro _ q.jobs (λ s. ground arith);
          })
          holds (ground (arith, own)) in
      (q', rw done refl, holds')

-- The row while its worker has the job.
abbrev pub IsRunning : String → ℕ → ℕ → Queue → JobRow → Type 0
IsRunning id attempts most q r =
    Holds q r
    × (r.id ≡ id)
    × (r.status ≡ processing)
    × (r.attempts ≡ attempts)
    × (r.max_attempts ≡ most)

pub heartbeats_run :
    (ts : List ℕ) (id : String) (attempts most : ℕ) (q : Queue) (r : JobRow)
    → IsRunning id attempts most q r
    → (q' : Queue) × (s : JobRow) × (heartbeats ts id (healthy q) ≡ (ok tt, healthy q'))
      × IsRunning id attempts most q' s
unfolding heartbeats ignore attempt
heartbeats_run [] id attempts most q r runs = (q, r, refl, runs)
heartbeats_run (now ∷ later) id attempts most q r (holds, same, busy, tries, limit) =
    let (q1, done, holds1) = heartbeat-Holds now id q r same busy holds in
    let (q2, s, rest, runs) =
      heartbeats_run later id attempts most q1 (beaten now r) (holds1, same, busy, tries, limit) in
    (q2, s, rw done rest, runs)

unfoldable pub noted : Job → String → Queue → Queue
noted job event q = record q {
  events =
      q.events
      ++ record { job_id = job.id; kind = as_str job.kind; event = event; detail = none } ∷ [];
}

pub note_healthy :
    (job : Job) (event : String) (q : Queue)
    → record_job_event job.id job.kind event none (healthy q) ≡ (ok tt, healthy (noted job event q))
unfolding record_job_event noted
note_healthy job event q = refl

-- Where the unique index holds, over a connection that works, a claimed job whose task succeeds
-- and leaves the queue alone ends as succeeded, its lease and error cleared and its attempts as
-- they were, however often the heartbeat renewed the lease meanwhile.
pub run_job_succeeds :
    (tasks : Tasks) (t : Turn) (job : Job) (q : Queue) (r : JobRow)
    → active_unique q.jobs ≡ true
    → Memᴰ r q.jobs
    → r.id ≡ job.id
    → r.status ≡ claimed
    → ((s : Queue) → tasks.run job.kind job.ref_id (healthy s) ≡ (ok tt, healthy s))
    → (q' : Queue) × (s : JobRow) × (run_job tasks t job (healthy q) ≡ (ok tt, healthy q'))
      × Memᴰ s q'.jobs
      × (s.id ≡ r.id)
      × (s.status ≡ succeeded)
      × (s.attempts ≡ r.attempts)
      × (s.lease_until ≡ none)
      × (s.last_error ≡ none)
unfolding run_job attempt finish_job noted
run_job_succeeds tasks t job q r unique at same held works =
    let (q1, marked, holds1) = mark_running-Holds t.started job.id q r same held (unique, at) in
    let q2 = noted job "started" q1 in
    let (q3, s, beat, (holds3, s_id, busy, tries, _)) =
      heartbeats_run t.beats job.id r.attempts r.max_attempts q2 (running t.started r)
        (holds1, same, refl, refl, refl) in
    let (q4, done, holds4) = complete-Holds t.ended job.id q3 s s_id busy holds3 in
    (
      noted job "succeeded" q4,
      finished t.ended s,
      rw
          (
            marked,
            note_healthy job "started" q1,
            beat,
            works q3,
            done,
            note_healthy job "succeeded" q4,
          )
          refl,
      holds4.1,
      s_id ∙ sym same,
      refl,
      tries,
      refl,
      refl,
    )
