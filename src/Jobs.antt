-- ===== src/Jobs.antt =====
-- server/src/jobs.rs with server/migrations_pg/0017_jobs.sql: the durable job queue.
-- Times (`utc_text()`, `lease_until`, `next_run_at`) are seconds: the source compares their texts
-- "%Y-%m-%d %H:%M:%S", which are ordered as the times are. `attempts` and `max_attempts` start at
-- 0 and 5 and only grow, so they are natural numbers. Each operation takes the clock `now`, and
-- where the source draws one, the new identifier or the nanoseconds of the clock.
pub mod Backoff
pub mod Unique
pub mod Claim
pub mod Lifecycle
pub mod Invariant
pub mod Retries
pub mod Budget
pub mod Operation
mod Tests
use Prim.Native.Nat.{bit_and, bit_or, bit_xor}
use Prim.Native.String.{compare, len, slice}
use text.Mathlib.Text.{is_lt, is_char_boundary}
use legal_genie_agent.Prelude.{
  ℕ, ◌+◌, ◌-◌, ◌*◌, ◌/◌, ◌%◌, ◌^◌, min, max, String, ◌<>◌, ◌=s◌, Bool, true, false, not, ◌&&◌, ◌||◌,
  Option, none, some, List, [], ◌∷◌, ◌++◌, any, leb, ltb, ◌==◌, if◌then◌else◌,
}
use legal_genie_agent.Sql.{
  Result, ok, err, Action, pure, raise, statement, query, execute, transaction, ◌>>=◌, ◌>>◌, on_row,
}
use legal_genie_agent.Sql.Rows.{first_where, select_where, update_where, count_where}

-- An `anyhow` error, or the unwinding of a panic, which no `?` or `if let Err` stops.
pub data Failure : Type 0 where
  error : String → Failure
  panic : Failure

pub data JobKind : Type 0 where
  parse translate : JobKind

-- `JobKind::as_str`
abbrev pub as_str : JobKind → String
as_str parse = "parse"
as_str translate = "translate"

-- The values of the column `jobs.status`.
pub data JobStatus : Type 0 where
  pending claimed processing succeeded failed dead : JobStatus

abbrev pub is_pending : JobStatus → Bool
is_pending pending = true
is_pending _ = false

abbrev pub is_claimed : JobStatus → Bool
is_claimed claimed = true
is_claimed _ = false

abbrev pub is_processing : JobStatus → Bool
is_processing processing = true
is_processing _ = false

-- status IN ('claimed', 'processing')
abbrev pub is_leased : JobStatus → Bool
is_leased s = is_claimed s || is_processing s

-- status IN ('pending', 'claimed', 'processing')
abbrev pub is_active : JobStatus → Bool
is_active s = is_pending s || is_leased s

-- A row of the table `jobs`.
pub record JobRow : Type 0 where
  pub id : String
  pub kind : String
  pub case_id : Option String
  pub ref_id : String
  pub payload : String
  pub status : JobStatus
  pub attempts : ℕ
  pub max_attempts : ℕ
  pub lease_until : Option ℕ
  pub next_run_at : ℕ
  pub last_error : Option String
  pub created_at : ℕ
  pub updated_at : ℕ

-- A row of the table `job_events`.
pub record JobEvent : Type 0 where
  pub job_id : String
  pub kind : String
  pub event : String
  pub detail : Option String

pub record Queue : Type 0 where
  pub jobs : List JobRow
  pub events : List JobEvent

-- `Job`; the payload is kept as its JSON text, since nothing reads the decoded value.
pub record Job : Type 0 where
  pub id : String
  pub kind : JobKind
  pub case_id : Option String
  pub ref_id : String
  pub payload : String
  pub attempts : ℕ
  pub max_attempts : ℕ

abbrev pub lease_secs : ℕ
lease_secs = 5 * 60

abbrev pub max_backoff_secs : ℕ
max_backoff_secs = 600

unfoldable pub parse_kind : String → Result Failure JobKind
parse_kind raw =
    if raw =s "parse"
    then ok parse
    else if raw =s "translate"
    then ok translate
    else err (error ("unknown job kind: " <> raw))

-- `fast_rand`, from the clock's nanoseconds; `rotate_left(17)` of an `i64` on its bits.
unfoldable pub fast_rand : ℕ → ℕ
fast_rand nanos =
    let rotated = bit_or (nanos * 2 ^ 17 % 2 ^ 64) (nanos / 2 ^ 47) in
    bit_and (bit_xor nanos rotated) 0x7fff_ffff

-- `5_i64.saturating_mul(1_i64 << attempt.min(8)).min(MAX_BACKOFF_SECS)`
unfoldable pub backoff_base : ℕ → ℕ
backoff_base attempt = min (min (5 * 2 ^ min attempt 8) (2 ^ 63 - 1)) max_backoff_secs

unfoldable pub backoff_seconds : ℕ → ℕ → ℕ
unfolding backoff_base fast_rand
backoff_seconds attempt nanos =
    let base = backoff_base attempt in
    let jitter = max (base / 3) 1 in base + fast_rand nanos % jitter

-- idx_jobs_active_unique: one active job per (kind, ref_id).
unfoldable pub conflicts : JobRow → JobRow → Bool
conflicts a b =
    is_active a.status && is_active b.status && (a.kind =s b.kind && a.ref_id =s b.ref_id)

unfoldable pub active_unique : List JobRow → Bool
unfolding conflicts
active_unique [] = true
active_unique (r ∷ rs) = not (any (conflicts r) rs) && active_unique rs

abbrev pub unique_violation : String
unique_violation = "duplicate key value violates unique constraint \"idx_jobs_active_unique\""

-- UPDATE jobs SET f WHERE p, refused if the unique index would not hold after it.
unfoldable pub update_jobs : (JobRow → Bool) → (JobRow → JobRow) → Queue → Result String (ℕ × Queue)
update_jobs p f q =
    let rows = update_where p f q.jobs in
    if active_unique rows
    then ok (count_where p q.jobs, record q { jobs = rows })
    else err unique_violation

-- INSERT INTO jobs … ON CONFLICT DO NOTHING: the primary key and the unique index are the
-- conflicts.
unfoldable pub insert_job : JobRow → Queue → Bool × Queue
unfolding conflicts
insert_job r q =
    if any (λ s. s.id =s r.id || conflicts r s) q.jobs
    then (false, q)
    else (true, record q { jobs = r ∷ q.jobs })

-- `enqueue_job`; `attempts`, `max_attempts` and `created_at` have the defaults of the schema.
unfoldable pub enqueue_job :
    ℕ → String → JobKind → Option String → String → String → Action Queue Failure Bool
enqueue_job now new_id kind case_id ref_id payload = execute error (
    insert_job (record {
      id = new_id;
      kind = as_str kind;
      case_id = case_id;
      ref_id = ref_id;
      payload = payload;
      status = pending;
      attempts = 0;
      max_attempts = 5;
      lease_until = none;
      next_run_at = now;
      last_error = none;
      created_at = now;
      updated_at = now;
    }))

-- ORDER BY created_at ASC, id ASC LIMIT 1
unfoldable pub earlier : JobRow → JobRow → Bool
earlier a b =
    ltb a.created_at b.created_at || a.created_at == b.created_at && is_lt (compare a.id b.id)

unfoldable pub first_of_two : JobRow → Option JobRow → JobRow
unfolding earlier
first_of_two r none = r
first_of_two r (some s) = if earlier s r then s else r

unfoldable pub oldest : List JobRow → Option JobRow
unfolding first_of_two
oldest [] = none
oldest (r ∷ rs) = some (first_of_two r (oldest rs))

-- WHERE status = 'pending' AND next_run_at <= utc_text(), with the rows that other transactions
-- hold left out (SKIP LOCKED).
unfoldable pub is_due : ℕ → List String → JobRow → Bool
is_due now locked r =
    is_pending r.status && leb r.next_run_at now && not (any (λ i. i =s r.id) locked)

unfoldable pub with_id : String → JobRow → Bool
with_id job_id r = r.id =s job_id

-- The UPDATE of `claim_next_job`.
unfoldable pub claim_row : ℕ → String → Queue → Result String (ℕ × Queue)
claim_row now job_id =
    update_jobs (λ r. with_id job_id r && is_pending r.status)
      (λ r. record r { status = claimed; lease_until = some (now + lease_secs); updated_at = now })

-- Between BEGIN and COMMIT of `claim_next_job`.
unfoldable pub claim_body : ℕ → List String → Action Queue Failure (Option JobRow)
claim_body now locked = do
  row ← query error (λ q. oldest (select_where (is_due now locked) q.jobs))
  on_row row (pure none) λ r. do
    updated ← statement error (claim_row now r.id)
    if updated == 0 then pure none else pure (some r)

-- The transaction of `claim_next_job`: the row that it claimed.
unfoldable pub claim_tx : ℕ → List String → Action Queue Failure (Option JobRow)
claim_tx now locked = transaction error (claim_body now locked)

-- The `Job` of a claimed row; an unknown kind is an error, after the commit.
unfoldable pub job_of_row : JobRow → Result Failure Job
unfolding parse_kind
job_of_row r = elim (parse_kind r.kind) [
  | ok kind ↦ ok (record {
    id = r.id;
    kind = kind;
    case_id = r.case_id;
    ref_id = r.ref_id;
    payload = r.payload;
    attempts = r.attempts;
    max_attempts = r.max_attempts;
  })
  | err e ↦ err e
]

abbrev pub returned : {A S : Type 0} → Result Failure A → Action S Failure (Option A)
returned (ok a) w = (ok (some a), w)
returned (err e) w = (err e, w)

-- `claim_next_job`
unfoldable pub claim_next_job : ℕ → List String → Action Queue Failure (Option Job)
claim_next_job now locked = do
  row ← claim_tx now locked
  on_row row (pure none) λ r. returned (job_of_row r)

-- `mark_running`
unfoldable pub mark_running : ℕ → String → Action Queue Failure (Unit {0})
mark_running now job_id = do
  n ← statement error (
      update_jobs (λ r. with_id job_id r && is_claimed r.status)
        (λ r. record r {
          status = processing;
          lease_until = some (now + lease_secs);
          updated_at = now;
        }))
  pure tt

-- `complete_job`
unfoldable pub complete_job : ℕ → String → Action Queue Failure (Unit {0})
complete_job now job_id = do
  n ← statement error (
      update_jobs (λ r. with_id job_id r && is_leased r.status)
        (λ r. record r {
          status = succeeded;
          lease_until = none;
          last_error = none;
          updated_at = now;
        }))
  pure tt

-- `truncate_error`; `none` is the panic of `String::truncate` inside a character.
unfoldable pub truncate_error : String → Option String
truncate_error e =
    if ltb 2000 (len e)
    then (if is_char_boundary e 2000 then some (slice e 0 2000) else none)
    else some e

abbrev pub or_panic : {S A : Type 0} → Option A → Action S Failure A
or_panic none w = (err panic, w)
or_panic (some a) w = (ok a, w)

-- The row of a job whose retries are used up, and of one that is tried again.
unfoldable pub dead_row : ℕ → String → ℕ → JobRow → JobRow
dead_row now text attempts r = record r {
  status = dead;
  lease_until = none;
  last_error = some text;
  attempts = attempts;
  updated_at = now;
}

unfoldable pub retry_row : ℕ → String → ℕ → ℕ → JobRow → JobRow
retry_row now text attempts delay r = record r {
  status = pending;
  lease_until = none;
  last_error = some text;
  attempts = attempts;
  next_run_at = now + delay;
  updated_at = now;
}

-- `fail_job`, once the row is read.
unfoldable pub fail_row : ℕ → ℕ → String → String → JobRow → Action Queue Failure (Unit {0})
fail_row now nanos job_id message r =
    let next_attempts = r.attempts + 1 in
    let delay = backoff_seconds next_attempts nanos in
    if leb r.max_attempts next_attempts
    then (do
      text ← or_panic (truncate_error message)
      n ← statement error (update_jobs (with_id job_id) (dead_row now text next_attempts))
      pure tt)
    else (do
      text ← or_panic (truncate_error message)
      n ← statement error (update_jobs (with_id job_id) (retry_row now text next_attempts delay))
      pure tt)

-- `fail_job`
unfoldable pub fail_job : ℕ → ℕ → String → String → Action Queue Failure (Unit {0})
fail_job now nanos job_id message = do
  row ← query error (λ q. first_where (with_id job_id) q.jobs)
  on_row row (pure tt) (fail_row now nanos job_id message)

-- lease_until IS NOT NULL AND lease_until < utc_text()
unfoldable pub is_stale : ℕ → JobRow → Bool
is_stale now r = is_leased r.status && elim r.lease_until [ none ↦ false | some t ↦ ltb t now ]

-- `reset_stale_jobs`: how many jobs were returned to the queue.
unfoldable pub reset_stale_jobs : ℕ → Action Queue Failure ℕ
reset_stale_jobs now = statement error (
    update_jobs (is_stale now)
      (λ r. record r { status = pending; lease_until = none; updated_at = now }))

-- `heartbeat_job`
unfoldable pub heartbeat_job : ℕ → String → Action Queue Failure (Unit {0})
heartbeat_job now job_id = do
  n ← statement error (
      update_jobs (λ r. with_id job_id r && is_processing r.status)
        (λ r. record r { lease_until = some (now + lease_secs); updated_at = now }))
  pure tt

-- `record_job_event`
unfoldable pub record_job_event :
    String → JobKind → String → Option String → Action Queue Failure (Unit {0})
record_job_event job_id kind event detail = execute error (λ q. (
  tt,
  record q {
    events =
        q.events
        ++ record { job_id = job_id; kind = as_str kind; event = event; detail = detail } ∷ [];
  },
))
