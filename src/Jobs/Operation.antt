-- ===== src/Jobs/Operation.antt =====
-- The operations of server/src/jobs.rs as one type, so that a history of the queue is a list: the
-- request handlers and any number of workers take turns, and each statement may fail.
use legal_genie_agent.Prelude.{ℕ, String, Option, List, [], ◌∷◌}
use legal_genie_agent.Sql.{World, Action, pure, ◌>>=◌}
use legal_genie_agent.Jobs.{
  Queue, Failure, JobKind, enqueue_job, claim_next_job, mark_running, complete_job, fail_job,
  reset_stale_jobs, heartbeat_job, record_job_event,
}

pub data Operation : Type 0 where
  enqueue :
      (now : ℕ) (new_id : String) (kind : JobKind) (case_id : Option String) (ref_id : String)
      (payload : String)
      → Operation
  claim : (now : ℕ) (locked : List String) → Operation
  run : (now : ℕ) (job_id : String) → Operation
  complete : (now : ℕ) (job_id : String) → Operation
  fail : (now nanos : ℕ) (job_id message : String) → Operation
  sweep : (now : ℕ) → Operation
  beat : (now : ℕ) (job_id : String) → Operation
  note : (job_id : String) (kind : JobKind) (event : String) (detail : Option String) → Operation

unfoldable pub perform : Operation → Action Queue Failure (Unit {0})
perform (enqueue now new_id kind case_id ref_id payload) = do
  made ← enqueue_job now new_id kind case_id ref_id payload
  pure tt
perform (claim now locked) = do job ← claim_next_job now locked; pure tt
perform (run now job_id) = mark_running now job_id
perform (complete now job_id) = complete_job now job_id
perform (fail now nanos job_id message) = fail_job now nanos job_id message
perform (sweep now) = do n ← reset_stale_jobs now; pure tt
perform (beat now job_id) = heartbeat_job now job_id
perform (note job_id kind event detail) = record_job_event job_id kind event detail

-- A history: an error, or a panic, ends only the operation that meets it.
unfoldable pub history : List Operation → World Queue → World Queue
history [] w = w
history (o ∷ os) w = history os (perform o w).1
