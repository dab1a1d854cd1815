-- ===== src/Worker/Tests.antt =====
-- Runs of the worker on small queues.
use mathlib.Core.List.{Memᴰ}
use Prim.Native.String.{slice}
use legal_genie_agent.Prelude.{
  ℕ, zero, suc, String, ◌<>◌, ◌≡◌, ◌∙◌, sym, refl, none, true, some, [], ◌∷◌, true,
}
use legal_genie_agent.Sql.{World, healthy, ok, err, pure}
use legal_genie_agent.Jobs.{
  Job, JobRow, Queue, JobKind, parse, pending, claimed, succeeded, error, panic, active_unique,
  fail_job, truncate_error,
}
use legal_genie_agent.Worker.{Tasks, Turn, clip, run_job, worker_loop}
use legal_genie_agent.Worker.Laws.{GoesOn, worker_survives_errors}
use legal_genie_agent.Worker.Succeeds.{run_job_succeeds}
use legal_genie_agent.Worker.Fails.{failure_of, run_job_fails}
use legal_genie_agent.Jobs.Retries.{IsKeyed, Outcome}
use legal_genie_agent.Sql.Rows.{only_row}

abbrev easy : Tasks
easy = record { redact_sensitive = λ s. s; run = λ k ref_id. pure tt }

abbrev turn : Turn
turn = record {
  swept = 20;
  claimed = 20;
  locked = [];
  started = 21;
  beats = 81 ∷ 141 ∷ [];
  ended = 150;
  nanos = 9;
}

abbrev job : Job
job = record {
  id = "j1";
  kind = parse;
  case_id = none;
  ref_id = "f1";
  payload = "{}";
  attempts = 1;
  max_attempts = 5;
}

abbrev row : JobRow
row = record {
  id = "j1";
  kind = "parse";
  case_id = none;
  ref_id = "f1";
  payload = "{}";
  status = claimed;
  attempts = 1;
  max_attempts = 5;
  lease_until = some 320;
  next_run_at = 10;
  last_error = some "timeout";
  created_at = 10;
  updated_at = 20;
}

abbrev queue : Queue
queue = record { jobs = row ∷ []; events = [] }

unique : active_unique queue.jobs ≡ true
unfolding active_unique
unique = refl

run_job_succeeds_example :
    (q' : Queue) × (s : JobRow) × (run_job easy turn job (healthy queue) ≡ (ok tt, healthy q'))
    × Memᴰ s q'.jobs
    × (s.id ≡ "j1")
    × (s.status ≡ succeeded)
    × (s.attempts ≡ 1)
    × (s.lease_until ≡ none)
    × (s.last_error ≡ none)
run_job_succeeds_example =
    run_job_succeeds easy turn job queue row unique (Memᴰ.head refl) refl refl (λ s. refl)

abbrev waiting : Queue
waiting = record { jobs = record row { status = pending; lease_until = none } ∷ []; events = [] }

abbrev failing : Tasks
failing = record { redact_sensitive = λ s. s; run = λ k ref_id w. (err (error "no text"), w) }

queue-IsKeyed : IsKeyed queue
queue-IsKeyed a b at at' same = only_row at ∙ sym (only_row at')

uncut : truncate_error "no text" ≡ some "no text"
unfolding truncate_error
uncut = refl

unclipped : clip "no text" ≡ some "no text"
unfolding clip
unclipped = refl

run_job_fails_example :
    (q' : Queue) × (s : JobRow) × (run_job failing turn job (healthy queue) ≡ (ok tt, healthy q'))
    × Memᴰ s q'.jobs
    × (s.id ≡ "j1")
    × (s.attempts ≡ 2)
    × (s.lease_until ≡ none)
    × (s.last_error ≡ some "no text")
    × Outcome 150 5 s
    × Memᴰ (failure_of job "no text") q'.events
run_job_fails_example =
    run_job_fails failing turn job "no text" "no text" "no text" queue row unique queue-IsKeyed
      (Memᴰ.head refl) refl refl (λ s. refl) uncut unclipped

-- The sweep, the claim and the mark meet a closed connection.
abbrev broken : World Queue
broken = record {
  tables = waiting;
  faults = some "closed" ∷ none ∷ none ∷ none ∷ none ∷ some "closed" ∷ [];
}

worker_survives_errors_example : GoesOn easy 14 (turn ∷ []) (turn ∷ []) broken
worker_survives_errors_example = worker_survives_errors easy 14 (turn ∷ []) (turn ∷ []) broken

-- The first turn meets only errors, and the loop goes on.
all_fail : (worker_loop easy 14 (turn ∷ []) broken).0 ≡ ok tt
unfolding worker_loop run_job clip active_unique fail_job truncate_error
    legal_genie_agent.Worker.worker_turn legal_genie_agent.Worker.sweep
    legal_genie_agent.Worker.ignore legal_genie_agent.Worker.work_on
    legal_genie_agent.Worker.heartbeats legal_genie_agent.Worker.finish_job
    legal_genie_agent.Sql.attempt legal_genie_agent.Sql.transaction
    legal_genie_agent.Jobs.reset_stale_jobs legal_genie_agent.Jobs.claim_next_job
    legal_genie_agent.Jobs.claim_tx legal_genie_agent.Jobs.claim_body legal_genie_agent.Jobs.oldest
    legal_genie_agent.Jobs.is_due legal_genie_agent.Jobs.claim_row
    legal_genie_agent.Jobs.update_jobs legal_genie_agent.Jobs.conflicts
    legal_genie_agent.Jobs.first_of_two legal_genie_agent.Jobs.earlier
    legal_genie_agent.Jobs.is_stale legal_genie_agent.Jobs.job_of_row
    legal_genie_agent.Jobs.mark_running legal_genie_agent.Jobs.parse_kind
    legal_genie_agent.Jobs.record_job_event legal_genie_agent.Jobs.with_id
    legal_genie_agent.Jobs.complete_job legal_genie_agent.Jobs.heartbeat_job
    legal_genie_agent.Jobs.fail_row legal_genie_agent.Sql.Rows.select_where
    legal_genie_agent.Sql.Rows.update_where legal_genie_agent.Sql.Rows.count_where
    legal_genie_agent.Sql.Rows.first_where
all_fail = refl

abbrev twice : ℕ → String → String
twice zero s = s
twice (suc n) s = twice n (s <> s)

-- 501 bytes, the last character from byte 499 to 501.
abbrev long_text : String
long_text = slice (twice 9 "a") 0 499 <> "é"

recorded : (fail_job 150 9 "j1" long_text (healthy queue)).0 ≡ ok tt
unfolding fail_job legal_genie_agent.Sql.Rows.first_where legal_genie_agent.Jobs.with_id
    legal_genie_agent.Jobs.fail_row legal_genie_agent.Jobs.truncate_error
    legal_genie_agent.Jobs.update_jobs active_unique legal_genie_agent.Sql.Rows.update_where
recorded = refl
