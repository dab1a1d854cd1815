-- ===== src/Jobs/Tests.antt =====
-- The queue on small tables: a parse job that waits, a job that is run, one that is finished.
use mathlib.Core.List.{Memᴰ}
use Prim.Native.String.{slice}
use legal_genie_agent.Prelude.{
  ℕ, zero, suc, ◌≤◌, ◌&&◌, ◌=s◌, String, ◌<>◌, ◌≡◌, ◌≢◌, ◌∙◌, refl, sym, true, none, some, List, [],
  ◌∷◌, arith, All, inr,
}
use legal_genie_agent.Sql.{World, healthy, ok, err}
use legal_genie_agent.Sql.Rows.{only_row, update_where}
use legal_genie_agent.Jobs.{
  Job, JobRow, Queue, JobKind, parse, pending, claimed, processing, succeeded, dead, panic,
  active_unique, is_pending, is_due, is_leased, is_active, lease_secs, backoff_base,
  backoff_seconds, claim_next_job, claim_tx, with_id, fail_job, heartbeat_job, reset_stale_jobs,
  truncate_error,
}
use legal_genie_agent.Jobs.Claim.{claim_exclusive, claim_finds, claimed_row, due_jobs}
use legal_genie_agent.Jobs.Lifecycle.{heartbeat_protects, beaten}
use legal_genie_agent.Jobs.Operation.{Operation, claim, fail, sweep, history}
use legal_genie_agent.Jobs.Invariant.{IsValid, history-IsValid}
use legal_genie_agent.Jobs.Budget.{Report, fail_all, IsShort, retry_budget_spent}
use legal_genie_agent.Jobs.Retries.{IsKeyed, failed_as, late_failure_revives}

abbrev waiting : JobRow
waiting = record {
  id = "j1";
  kind = "parse";
  case_id = none;
  ref_id = "f1";
  payload = "{}";
  status = pending;
  attempts = 0;
  max_attempts = 5;
  lease_until = none;
  next_run_at = 10;
  last_error = none;
  created_at = 10;
  updated_at = 10;
}

abbrev second : JobRow
second = record waiting { id = "j2"; ref_id = "f2"; created_at = 12 }

abbrev busy : JobRow
busy = record waiting { status = processing; lease_until = some 310 }

abbrev done : JobRow
done = record waiting { status = succeeded }

abbrev queue_of : JobRow → Queue
queue_of r = record { jobs = r ∷ []; events = [] }

abbrev two_jobs : Queue
two_jobs = record { jobs = second ∷ waiting ∷ []; events = [] }

abbrev job_of : JobRow → Job
job_of r = record {
  id = r.id;
  kind = parse;
  case_id = r.case_id;
  ref_id = r.ref_id;
  payload = r.payload;
  attempts = r.attempts;
  max_attempts = r.max_attempts;
}

first_claim : (claim_next_job 20 [] (healthy two_jobs)).0 ≡ ok (some (job_of waiting))
unfolding claim_next_job claim_tx legal_genie_agent.Sql.transaction
    legal_genie_agent.Jobs.claim_body legal_genie_agent.Jobs.oldest
    legal_genie_agent.Sql.Rows.select_where is_due legal_genie_agent.Jobs.claim_row
    legal_genie_agent.Jobs.update_jobs active_unique update_where with_id
    legal_genie_agent.Sql.Rows.count_where legal_genie_agent.Jobs.job_of_row
first_claim = refl

second_claim :
    (claim_next_job 20 [] (claim_next_job 20 [] (healthy two_jobs)).1).0 ≡ ok (some (job_of second))
unfolding claim_next_job claim_tx legal_genie_agent.Sql.transaction
    legal_genie_agent.Jobs.claim_body legal_genie_agent.Jobs.oldest
    legal_genie_agent.Sql.Rows.select_where is_due legal_genie_agent.Jobs.claim_row
    legal_genie_agent.Jobs.update_jobs active_unique update_where with_id
    legal_genie_agent.Sql.Rows.count_where legal_genie_agent.Jobs.job_of_row
second_claim = refl

claim_exclusive_example : second.id ≢ waiting.id
claim_exclusive_example =
    claim_exclusive 20 20 [] [] (healthy two_jobs) (job_of waiting) (job_of second) first_claim
      second_claim

two_unique : active_unique two_jobs.jobs ≡ true
unfolding active_unique
two_unique = refl

waiting_due : is_due 20 [] waiting ≡ true
unfolding is_due
waiting_due = refl

claim_finds_example :
    (r : JobRow) × (q' : Queue) × (claim_tx 20 [] (healthy two_jobs) ≡ (ok (some r), healthy q'))
    × Memᴰ r two_jobs.jobs
    × (is_due 20 [] r ≡ true)
    × All (λ s. r.created_at ≤ s.created_at) (due_jobs 20 [] two_jobs)
    × Memᴰ (claimed_row 20 r) q'.jobs
    × (q'.jobs
        ≡ update_where (λ s. s.id =s r.id && is_pending s.status) (claimed_row 20) two_jobs.jobs)
claim_finds_example =
    claim_finds 20 [] two_jobs waiting two_unique (Memᴰ.tail (Memᴰ.head refl)) waiting_due

one_unique : (r : JobRow) → active_unique (queue_of r).jobs ≡ true
unfolding active_unique
one_unique r = refl

one-IsKeyed : (r : JobRow) → IsKeyed (queue_of r)
one-IsKeyed r a b at at' same = only_row at ∙ sym (only_row at')

heartbeat_protects_example :
    Memᴰ
      (beaten 300 busy)
      (reset_stale_jobs 500 (heartbeat_job 300 "j1" (healthy (queue_of busy))).1).1.tables.jobs
heartbeat_protects_example =
    heartbeat_protects 300 500 (queue_of busy) busy (one_unique busy) (Memᴰ.head refl) refl
      (omega arith)

short_text : truncate_error "no text layer" ≡ some "no text layer"
unfolding truncate_error
short_text = refl

fits_again :
    active_unique
      (update_where (with_id "j1") (failed_as 50 7 "no text layer" done) (queue_of done).jobs)
    ≡ true
unfolding active_unique update_where
fits_again = refl

late_failure_revives_example :
    (q' : Queue) × (s : JobRow) × (fail_job 50 7 "j1" "no text layer" (healthy (queue_of done))
      ≡ (ok tt, healthy q'))
    × Memᴰ s q'.jobs
    × (s.id ≡ "j1")
    × (s.status ≡ pending)
late_failure_revives_example =
    late_failure_revives 50 7 "no text layer" "no text layer" (queue_of done) done short_text
      (one-IsKeyed done) (Memᴰ.head refl) refl (omega arith) fits_again

waiting-IsValid : IsValid (queue_of waiting)
waiting-IsValid = record {
  unique = one_unique waiting;
  rows = (record { five = refl; retries = inr (omega arith); leases = refl }, tt);
}

abbrev some_work : List Operation
some_work = claim 20 [] ∷ sweep 400 ∷ claim 500 [] ∷ fail 510 3 "j1" "bad" ∷ []

history-IsValid_example : IsValid (history some_work (healthy (queue_of waiting))).tables
history-IsValid_example = history-IsValid some_work (healthy (queue_of waiting)) waiting-IsValid

abbrev two_failures : List Report
two_failures = (1, 1, "a") ∷ (2, 2, "b") ∷ []

abbrev five_failures : List Report
five_failures = (1, 1, "a") ∷ (2, 2, "b") ∷ (3, 3, "c") ∷ (4, 4, "d") ∷ (5, 5, "e") ∷ []

five-IsShort : All IsShort five_failures
unfolding truncate_error
five-IsShort = (refl, (refl, (refl, (refl, (refl, tt)))))

retry_budget_spent_example :
    (s : JobRow) × Memᴰ s (fail_all five_failures "j1" (healthy (queue_of busy))).tables.jobs
    × (s.id ≡ "j1")
    × (s.status ≡ dead)
    × (s.attempts ≡ 5)
retry_budget_spent_example =
    retry_budget_spent five_failures (queue_of busy) busy (one_unique busy) (one-IsKeyed busy)
      (Memᴰ.head refl) refl five-IsShort (λ e. cc e) refl

-- 2001 bytes, the last character from byte 1999 to 2001.
abbrev twice : ℕ → String → String
twice zero s = s
twice (suc n) s = twice n (s <> s)

abbrev long_text : String
long_text = slice (twice 11 "a") 0 1999 <> "é"

two-IsShort : All IsShort two_failures
unfolding truncate_error
two-IsShort = (refl, (refl, tt))
