-- ===== src/Worker/Laws.antt =====
-- The worker of server/src/job_worker.rs, whatever its tasks do and whichever statements fail.
use Prim.Native.String.{len}
use text.Mathlib.Text.{is_char_boundary}
use legal_genie_agent.Prelude.{
  ◌<◌, true, false, ℕ, ◌+◌, ◌%◌, ◌^◌, String, ◌≡◌, ◌≢◌, ◌⊎◌, inl, inr, ◌++◌, refl, Bool, Option,
  none, some, List, [], ◌∷◌, ◌==◌, if◌then◌else◌, arith,
}
use legal_genie_agent.Sql.{World, Result, ok, err, Action, pure, attempt, continue, ◌>>=◌}
use legal_genie_agent.Sql.Rules.{Keeps, Keeps-bind, Keeps-attempt, keeps_rules}
use legal_genie_agent.Jobs.{
  JobKind, Job, Queue, Failure, error, panic, claim_next_job, fail_job, reset_stale_jobs,
}
use legal_genie_agent.Jobs.Invariant.{
  IsValid, claim-IsValid, run-IsValid, complete-IsValid, fail-IsValid, sweep-IsValid, beat-IsValid,
  note-IsValid, or_panic-IsValid,
}
use legal_genie_agent.Worker.{
  Tasks, Turn, dropped, ignore, heartbeats, clip, finish_job, run_job, sweep, stale_sweep_every,
  work_on, worker_turn, worker_loop,
}

dropped-IsValid : {A : Type 0} (r : Result Failure A) → Keeps IsValid (dropped r)
dropped-IsValid (ok a) = record { at = λ w h. h }
dropped-IsValid (err (error e)) = record { at = λ w h. h }
dropped-IsValid (err panic) = record { at = λ w h. h }

ignore-IsValid :
    {A : Type 0} (m : Action Queue Failure A) → Keeps IsValid m → Keeps IsValid (ignore m)
unfolding ignore
ignore-IsValid m k = Keeps-bind (attempt m) dropped (Keeps-attempt m k) dropped-IsValid

ruleset worker_rules = (
  keeps_rules, claim-IsValid, run-IsValid, complete-IsValid, fail-IsValid, sweep-IsValid,
  beat-IsValid, note-IsValid, or_panic-IsValid, ignore-IsValid,
)

heartbeats-IsValid : (ts : List ℕ) (job_id : String) → Keeps IsValid (heartbeats ts job_id)
unfolding heartbeats
heartbeats-IsValid [] job_id = search worker_rules depth 8
heartbeats-IsValid (now ∷ later) job_id =
    Keeps-bind _ _ (ignore-IsValid _ (beat-IsValid now job_id))
      (λ u. heartbeats-IsValid later job_id)

module _ (tasks : Tasks)
    (keeps : (k : JobKind) (ref_id : String) → Keeps IsValid (tasks.run k ref_id)) where
  finish_job-IsValid :
      (t : Turn) (job : Job) (r : Result Failure (Unit {0}))
      → Keeps IsValid (finish_job tasks t job r)
  unfolding finish_job
  finish_job-IsValid t job (ok u) = search worker_rules depth 14
  finish_job-IsValid t job (err (error e)) = search worker_rules depth 14
  finish_job-IsValid t job (err panic) = search worker_rules depth 14

  run_job-IsValid : (t : Turn) (job : Job) → Keeps IsValid (run_job tasks t job)
  unfolding run_job
  run_job-IsValid t job =
      search (worker_rules, heartbeats-IsValid, keeps, finish_job-IsValid) depth 16

  work_on-IsValid : (t : Turn) (r : Result Failure (Option Job)) → Keeps IsValid (work_on tasks t r)
  unfolding work_on
  work_on-IsValid t (ok none) = search worker_rules depth 4
  work_on-IsValid t (ok (some job)) = ignore-IsValid (run_job tasks t job) (run_job-IsValid t job)
  work_on-IsValid t (err (error e)) = search worker_rules depth 4
  work_on-IsValid t (err panic) = search worker_rules depth 4

  worker_turn-IsValid : (cycle : ℕ) (t : Turn) → Keeps IsValid (worker_turn tasks cycle t)
  unfolding worker_turn sweep
  worker_turn-IsValid cycle t = search (worker_rules, work_on-IsValid) depth 16

  loop-IsValid : (cycle : ℕ) (ts : List Turn) → Keeps IsValid (worker_loop tasks cycle ts)
  unfolding worker_loop
  loop-IsValid cycle [] = search worker_rules depth 4
  loop-IsValid cycle (t ∷ ts) =
      Keeps-bind _ _ (worker_turn-IsValid ((cycle + 1) % 2 ^ 32) t)
        (λ u. loop-IsValid ((cycle + 1) % 2 ^ 32) ts)

-- A worker keeps the queue's invariants in all its turns, whichever statements fail and wherever
-- a panic ends it, if the tasks that it runs keep them.
pub worker_loop-IsValid :
    (tasks : Tasks) (cycle : ℕ) (ts : List Turn) (w : World Queue)
    → ((k : JobKind) (ref_id : String) → Keeps IsValid (tasks.run k ref_id))
    → IsValid w.tables
    → IsValid (worker_loop tasks cycle ts w).1.tables
worker_loop-IsValid tasks cycle ts w keeps valid = (loop-IsValid tasks keeps cycle ts).at w valid

-- An action that an error does not end: it returns, or it panics.
abbrev IsCalm : Action Queue Failure (Unit {0}) → Type 0
IsCalm m = (w : World Queue) (e : String) → (m w).0 ≢ err (error e)

IsCalm-then :
    (m : Action Queue Failure (Unit {0})) (n : Unit {0} → Action Queue Failure (Unit {0}))
    → IsCalm m
    → ((u : Unit {0}) → IsCalm (n u))
    → IsCalm (m >>= n)
IsCalm-then m n calm_m calm_n w e = continued (m w).0 (m w).1 refl
  where
    continued :
        (r : Result Failure (Unit {0})) (w' : World Queue)
        → (m w).0 ≡ r
        → (continue n r w').0 ≢ err (error e)
    continued (ok u) w' same = calm_n u w' e
    continued (err (error x)) w' same = absurd (calm_m w x same)
    continued (err panic) w' same = λ h. cc h

ignore-IsCalm : {A : Type 0} (m : Action Queue Failure A) → IsCalm (ignore m)
unfolding ignore attempt
ignore-IsCalm m w e = dropped_calm (m w).0 (m w).1
  where
    dropped_calm :
        {A : Type 0} (r : Result Failure A) (w' : World Queue) → (dropped r w').0 ≢ err (error e)
    dropped_calm (ok a) w' h = cc h
    dropped_calm (err (error x)) w' h = cc h
    dropped_calm (err panic) w' h = cc h

work_on-IsCalm :
    (tasks : Tasks) (t : Turn) (r : Result Failure (Option Job)) → IsCalm (work_on tasks t r)
unfolding work_on
work_on-IsCalm tasks t (ok none) w e h = cc h
work_on-IsCalm tasks t (ok (some job)) w e h = ignore-IsCalm (run_job tasks t job) w e h
work_on-IsCalm tasks t (err (error x)) w e h = cc h
work_on-IsCalm tasks t (err panic) w e h = cc h

sweep-IsCalm : (tasks : Tasks) (cycle : ℕ) (t : Turn) → IsCalm (sweep tasks cycle t)
unfolding sweep
sweep-IsCalm tasks cycle t = either (cycle % stale_sweep_every == 0)
  where
    either : (b : Bool) → IsCalm (if b then ignore (reset_stale_jobs t.swept) else pure tt)
    either true w e h = ignore-IsCalm (reset_stale_jobs t.swept) w e h
    either false w e h = cc h

worker_turn-IsCalm : (tasks : Tasks) (cycle : ℕ) (t : Turn) → IsCalm (worker_turn tasks cycle t)
unfolding worker_turn attempt
worker_turn-IsCalm tasks cycle t =
    IsCalm-then (sweep tasks cycle t)
      (λ _. attempt (claim_next_job t.claimed t.locked) >>= work_on tasks t)
      (sweep-IsCalm tasks cycle t)
      (λ _ w e h.
        work_on-IsCalm tasks t (claim_next_job t.claimed t.locked w).0
          (claim_next_job t.claimed t.locked w).1 e h)

-- The count of the cycles after some turns.
abbrev pub cycle_after : ℕ → List Turn → ℕ
cycle_after cycle [] = cycle
cycle_after cycle (t ∷ ts) = cycle_after ((cycle + 1) % 2 ^ 32) ts

-- What the loop makes of more turns, after what it made of the first ones: a panic is the end, and
-- else all of the later turns are taken.
abbrev pub GoesOn : Tasks → ℕ → List Turn → List Turn → World Queue → Type 0
GoesOn tasks cycle ts us w =
    ((worker_loop tasks cycle ts w).0 ≡ err panic)
      × (worker_loop tasks cycle (ts ++ us) w ≡ worker_loop tasks cycle ts w)
    ⊎ ((worker_loop tasks cycle ts w).0 ≡ ok tt)
      × (worker_loop tasks cycle (ts ++ us) w
          ≡ worker_loop tasks (cycle_after cycle ts) us (worker_loop tasks cycle ts w).1)

-- No error of a job or of a statement ends the loop of a worker. Whatever fails during some turns,
-- either one of them has panicked, which ends the loop, or all of the turns that come later, up to
-- the shutdown, are taken too, from the queue and with the count of cycles that the first have left.
pub worker_survives_errors :
    (tasks : Tasks) (cycle : ℕ) (ts us : List Turn) (w : World Queue) → GoesOn tasks cycle ts us w
unfolding worker_loop
worker_survives_errors tasks cycle [] us w = inr (refl, refl)
worker_survives_errors tasks cycle (t ∷ ts) us w =
    after (λ v. worker_survives_errors tasks next ts us v) (worker_turn tasks next t w).0
      (worker_turn tasks next t w).1 refl
  where
    next : ℕ
    next = (cycle + 1) % 2 ^ 32

    first : List Turn → Result Failure (Unit {0}) → Action Queue Failure (Unit {0})
    first us r = continue (λ _. worker_loop tasks next us) r

    after :
        ((v : World Queue) → GoesOn tasks next ts us v)
        → (r : Result Failure (Unit {0})) (w' : World Queue) → (worker_turn tasks next t w).0 ≡ r
        → ((first ts r w').0 ≡ err panic) × (first (ts ++ us) r w' ≡ first ts r w')
          ⊎ ((first ts r w').0 ≡ ok tt)
            × (first (ts ++ us) r w' ≡ worker_loop tasks (cycle_after next ts) us (first ts r w').1)
    after later (ok u) w' same = later w'
    after later (err panic) w' same = inl (refl, refl)
    after later (err (error e)) w' same = absurd (worker_turn-IsCalm tasks next t w e same)

-- If the redacted error is longer than 500 bytes and byte 500 is inside a character, the end of a
-- job whose failure has been recorded panics.
pub clipped_error_panics :
    (tasks : Tasks) (t : Turn) (job : Job) (e : String) (w : World Queue)
    → 500 < len (tasks.redact_sensitive e)
    → is_char_boundary (tasks.redact_sensitive e) 500 ≡ false
    → (fail_job t.ended t.nanos job.id (tasks.redact_sensitive e) w).0 ≡ ok tt
    → (finish_job tasks t job (err (error e)) w).0 ≡ err panic
unfolding finish_job clip
clipped_error_panics tasks t job e w long inside recorded = ground arith
