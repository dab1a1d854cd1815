-- ===== src/Jobs/Lifecycle.antt =====
-- Leases and failures of server/src/jobs.rs: heartbeats, the sweep of stale jobs, the retry budget.
use mathlib.Core.List.{Memᴰ}
use legal_genie_agent.Prelude.{
  ℕ, ◌+◌, ◌≤◌, ◌<◌, String, ◌≡◌, refl, Bool, true, false, ◌&&◌, none, some, arith, eq_refl,
}
use legal_genie_agent.Sql.{healthy, ok}
use legal_genie_agent.Sql.Rows.{update_where, count_where, count_where-pos, update_where-mem}
use legal_genie_agent.Jobs.{
  JobRow, Queue, pending, processing, is_processing, is_leased, active_unique, with_id, lease_secs,
  reset_stale_jobs, heartbeat_job, is_stale,
}
use legal_genie_agent.Jobs.Unique.{All-intro, update_jobs-eq-ok, active_unique_changed}

abbrev pub beaten : ℕ → JobRow → JobRow
beaten now r = record r { lease_until = some (now + lease_secs); updated_at = now }

abbrev pub returned_row : ℕ → JobRow → JobRow
returned_row now r = record r { status = pending; lease_until = none; updated_at = now }

abbrev pub beating : String → JobRow → Bool
beating job_id r = with_id job_id r && is_processing r.status

beat-healthy :
    (now : ℕ) (job_id : String) (q : Queue)
    → active_unique q.jobs ≡ true
    → heartbeat_job now job_id (healthy q)
      ≡ (ok tt, healthy (record q { jobs = update_where (beating job_id) (beaten now) q.jobs }))
unfolding heartbeat_job
beat-healthy now job_id q unique = rw (
    update_jobs-eq-ok (beating job_id) (beaten now) q
      (record {
        same_kind = λ r. refl;
        same_ref = λ r. refl;
        no_new = All-intro _ q.jobs (λ r. ground arith);
      })
      unique)

sweep-healthy :
    (now : ℕ) (q : Queue)
    → active_unique q.jobs ≡ true
    → reset_stale_jobs now (healthy q) ≡ (
      ok (count_where (is_stale now) q.jobs),
      healthy (record q { jobs = update_where (is_stale now) (returned_row now) q.jobs }),
    )
unfolding reset_stale_jobs
sweep-healthy now q unique = rw (
    update_jobs-eq-ok (is_stale now) (returned_row now) q
      (record {
        same_kind = λ r. refl;
        same_ref = λ r. refl;
        no_new = All-intro _ q.jobs (λ r. unfold is_stale in ground arith);
      })
      unique)

unique_after_beat :
    (now : ℕ) (job_id : String) (q : Queue)
    → active_unique q.jobs ≡ true
    → active_unique (update_where (beating job_id) (beaten now) q.jobs) ≡ true
unique_after_beat now job_id q unique =
    active_unique_changed (beating job_id) (beaten now) (λ r. refl) (λ r. refl) q.jobs
      (All-intro _ q.jobs (λ r. ground arith)) unique

beaten_stays :
    (now later : ℕ) (r : JobRow) → later ≤ now + lease_secs → is_stale later (beaten now r) ≡ false
unfolding is_stale
beaten_stays now later r h = ground arith

-- Where the unique index holds, over a connection that works, a job in processing whose worker has
-- just renewed its lease is not taken away by a sweep within five minutes.
pub heartbeat_protects :
    (now later : ℕ) (q : Queue) (r : JobRow)
    → active_unique q.jobs ≡ true
    → Memᴰ r q.jobs
    → r.status ≡ processing
    → later ≤ now + lease_secs
    → Memᴰ
        (beaten now r)
        (reset_stale_jobs later (heartbeat_job now r.id (healthy q)).1).1.tables.jobs
heartbeat_protects now later q r unique at running soon =
    let beat = update_where-mem (beating r.id) (beaten now) q.jobs at in
    let fits : beating r.id r ≡ true = unfold with_id in ground (arith, eq_refl r.id) in
    let here = rw fits at beat in
    let kept = update_where-mem (is_stale later) (returned_row later) _ here in
    let rows = record q { jobs = update_where (beating r.id) (beaten now) q.jobs } in
    rw
      (
        beat-healthy now r.id q unique,
        sweep-healthy later rows (unique_after_beat now r.id q unique),
      )
      (rw (beaten_stays now later r soon) at kept)

-- Where the unique index holds, over a connection that works, a sweep returns a claimed or
-- processing job whose lease has run out to the queue, with its retry budget as it was, and
-- reports at least one job.
pub sweep_recovers :
    (now lease : ℕ) (q : Queue) (r : JobRow)
    → active_unique q.jobs ≡ true
    → Memᴰ r q.jobs
    → is_leased r.status ≡ true
    → r.lease_until ≡ some lease
    → lease < now
    → (n : ℕ) × (q' : Queue) × (reset_stale_jobs now (healthy q) ≡ (ok n, healthy q'))
      × (1 ≤ n)
      × Memᴰ (returned_row now r) q'.jobs
sweep_recovers now lease q r unique at held leased past =
    let stale : is_stale now r ≡ true = unfold is_stale in ground arith in
    (
      _,
      _,
      sweep-healthy now q unique,
      count_where-pos (is_stale now) q.jobs at stale,
      rw stale at (update_where-mem (is_stale now) (returned_row now) q.jobs at),
    )
