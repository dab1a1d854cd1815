-- ===== src/Worker.antt =====
-- server/src/job_worker.rs: the loop that claims jobs and runs them.
-- A turn of the loop has the readings of the clock that its calls take. The heartbeat, a task of
-- its own, beats at `beats`, here before the work of the job and not between its statements. The two kinds of job (parser.rs, translation.rs)
-- are the parameter `run` of `Tasks`: what they do to the queue, and how they end.
pub mod Laws
pub mod Succeeds
pub mod Fails
mod Tests
use Prim.Native.String.{len, slice}
use text.Mathlib.Text.{is_char_boundary}
use legal_genie_agent.Prelude.{
  ℕ, ◌+◌, ◌%◌, ◌^◌, min, String, Bool, Option, none, some, List, [], ◌∷◌, ◌==◌, if◌then◌else◌,
}
use legal_genie_agent.Sql.{Result, ok, err, Action, pure, raise, attempt, ◌>>=◌, ◌>>◌, on_row}
use legal_genie_agent.Jobs.{
  JobKind, Job, Queue, Failure, error, panic, or_panic, claim_next_job, mark_running, complete_job,
  fail_job, reset_stale_jobs, heartbeat_job, record_job_event,
}

pub record Tasks : Type 0 where
  -- `config::redact_sensitive`
  pub redact_sensitive : String → String
  -- `run_parse_job` and `run_translate_job`
  pub run : JobKind → String → Action Queue Failure (Unit {0})

pub record Turn : Type 0 where
  pub swept : ℕ
  pub claimed : ℕ
  pub locked : List String
  pub started : ℕ
  pub beats : List ℕ
  pub ended : ℕ
  pub nanos : ℕ

abbrev pub stale_sweep_every : ℕ
stale_sweep_every = 15

-- An error is logged and dropped; a panic unwinds.
abbrev pub dropped : {A : Type 0} → Result Failure A → Action Queue Failure (Unit {0})
dropped (ok a) w = (ok tt, w)
dropped (err (error e)) w = (ok tt, w)
dropped (err panic) w = (err panic, w)

unfoldable pub ignore : {A : Type 0} → Action Queue Failure A → Action Queue Failure (Unit {0})
ignore m = attempt m >>= dropped

unfoldable pub heartbeats : List ℕ → String → Action Queue Failure (Unit {0})
heartbeats [] job_id = pure tt
heartbeats (now ∷ later) job_id = do ignore (heartbeat_job now job_id); heartbeats later job_id

-- `&message[..message.len().min(500)]`; `none` is the panic inside a character.
unfoldable pub clip : String → Option String
clip message =
    let end = min (len message) 500 in
    if is_char_boundary message end then some (slice message 0 end) else none

module _ (tasks : Tasks) (t : Turn) (job : Job) where
  -- The `match result` of `run_job`.
  unfoldable pub finish_job : Result Failure (Unit {0}) → Action Queue Failure (Unit {0})
  finish_job (ok u) = do
    complete_job t.ended job.id
    record_job_event job.id job.kind "succeeded" none
  finish_job (err (error e)) =
      let message = tasks.redact_sensitive e in
      do
        fail_job t.ended t.nanos job.id message
        detail ← or_panic (clip message)
        record_job_event job.id job.kind "failed" (some detail)
  finish_job (err panic) = raise panic

  -- `run_job`
  unfoldable pub run_job : Action Queue Failure (Unit {0})
  run_job = do
    mark_running t.started job.id
    record_job_event job.id job.kind "started" none
    heartbeats t.beats job.id
    result ← attempt (tasks.run job.kind job.ref_id)
    finish_job result

module _ (tasks : Tasks) where
  unfoldable pub sweep : ℕ → Turn → Action Queue Failure (Unit {0})
  sweep cycle t =
      if cycle % stale_sweep_every == 0 then ignore (reset_stale_jobs t.swept) else pure tt

  -- The `match` on `claim_next_job`: without a job the worker sleeps.
  unfoldable pub work_on : Turn → Result Failure (Option Job) → Action Queue Failure (Unit {0})
  work_on t (ok none) = pure tt
  work_on t (ok (some job)) = ignore (run_job tasks t job)
  work_on t (err (error e)) = pure tt
  work_on t (err panic) = raise panic

  -- One turn of `worker_loop`.
  unfoldable pub worker_turn : ℕ → Turn → Action Queue Failure (Unit {0})
  worker_turn cycle t = do
    sweep cycle t
    job ← attempt (claim_next_job t.claimed t.locked)
    work_on t job

  -- `worker_loop`: the turns before the shutdown is seen. `cycle` is a `u32`, which wraps around
  -- as in a release build.
  unfoldable pub worker_loop : ℕ → List Turn → Action Queue Failure (Unit {0})
  worker_loop cycle [] = pure tt
  worker_loop cycle (t ∷ ts) =
      let next = (cycle + 1) % 2 ^ 32 in do worker_turn next t; worker_loop next ts
