-- ===== src/Worker/Fails.antt =====
-- A job whose task fails: from the claim to the row that waits for a retry, or is dead, on a
-- connection that works.
use mathlib.Core.List.{Memᴰ}
use legal_genie_agent.Prelude.{
  ℕ, ◌+◌, String, ◌≡◌, refl, sym, ap, ◌∙◌, subst, Bool, Bool-cases, inl, inr, true, none, some,
  List, [], ◌∷◌, ◌++◌, if◌then◌else◌, arith,
}
use legal_genie_agent.Sql.{World, healthy, ok, err, Result, Action, attempt, statement}
use legal_genie_agent.Sql.Rules.{Keeps, Keeps-bind, Keeps-pure, Keeps-statement, Keeps-attempt}
use legal_genie_agent.Sql.Rows.{update_where, mem-update_where}
use legal_genie_agent.Jobs.{
  Job, JobRow, JobEvent, Queue, Failure, error, panic, as_str, claimed, active_unique, update_jobs,
  truncate_error, fail_job, mark_running, heartbeat_job, record_job_event,
}
use legal_genie_agent.Jobs.Retries.{IsKeyed, Outcome, failure_uses_one_retry}
use legal_genie_agent.Worker.{Tasks, Turn, dropped, ignore, heartbeats, clip, finish_job, run_job}
use legal_genie_agent.Worker.Succeeds.{
  mark_running-Holds, heartbeats_run, running, noted, note_healthy,
}

module _ (p : JobRow → Bool) (f : JobRow → JobRow) (same_id : (r : JobRow) → (f r).id ≡ r.id) where
  kept_id : (x s : JobRow) → s ≡ (if p x then f x else x) → s.id ≡ x.id
  kept_id x s e = elim (Bool-cases (p x)) [
    | inl fits ↦ ap (λ y. y.id) (rw fits at e) ∙ same_id x
    | inr out ↦ ap (λ y. y.id) (rw out at e)
  ]

  updated-IsKeyed : (q q' : Queue) → IsKeyed q → q'.jobs ≡ update_where p f q.jobs → IsKeyed q'
  updated-IsKeyed q q' keyed rows a b at at' same =
      let (x, m, e) = mem-update_where p f q.jobs (subst (Memᴰ a) rows at) in
      let (y, n, g) = mem-update_where p f q.jobs (subst (Memᴰ b) rows at') in
      let one : x ≡ y = keyed x y m n (sym (kept_id x a e) ∙ same ∙ kept_id y b g) in
      e ∙ ap (λ z. if p z then f z else z) one ∙ sym g

  update-IsKeyed : Keeps IsKeyed (statement error (update_jobs p f))
  unfolding update_jobs
  update-IsKeyed =
      Keeps-statement error (update_jobs p f)
        (λ q keyed n q' done. updated-IsKeyed q q' keyed (ground arith))

mark-IsKeyed : (now : ℕ) (id : String) → Keeps IsKeyed (mark_running now id)
unfolding mark_running
mark-IsKeyed now id = Keeps-bind _ _ (update-IsKeyed _ _ (λ r. refl)) (λ n. Keeps-pure tt)

beat-IsKeyed : (now : ℕ) (id : String) → Keeps IsKeyed (heartbeat_job now id)
unfolding heartbeat_job
beat-IsKeyed now id = Keeps-bind _ _ (update-IsKeyed _ _ (λ r. refl)) (λ n. Keeps-pure tt)

dropped-IsKeyed : {A : Type 0} (r : Result Failure A) → Keeps IsKeyed (dropped r)
dropped-IsKeyed (ok a) = record { at = λ w h. h }
dropped-IsKeyed (err (error e)) = record { at = λ w h. h }
dropped-IsKeyed (err panic) = record { at = λ w h. h }

heartbeats-IsKeyed : (ts : List ℕ) (id : String) → Keeps IsKeyed (heartbeats ts id)
unfolding heartbeats ignore
heartbeats-IsKeyed [] id = Keeps-pure tt
heartbeats-IsKeyed (now ∷ later) id =
    Keeps-bind _ _
      (Keeps-bind (attempt (heartbeat_job now id)) dropped
        (Keeps-attempt (heartbeat_job now id) (beat-IsKeyed now id)) dropped-IsKeyed)
      (λ u. heartbeats-IsKeyed later id)

-- What a run over a connection that works leaves keyed.
IsKeyed-after :
    (m : Action Queue Failure (Unit {0})) (q q' : Queue)
    → Keeps IsKeyed m
    → m (healthy q) ≡ (ok tt, healthy q')
    → IsKeyed q
    → IsKeyed q'
IsKeyed-after m q q' keeps run keyed =
    subst (λ (r : Result Failure (Unit {0}) × World Queue). IsKeyed r.1.tables) run
      (keeps.at (healthy q) keyed)

-- The event of a failed job, and the queue with it.
abbrev pub failure_of : Job → String → JobEvent
failure_of job detail = record {
  job_id = job.id;
  kind = as_str job.kind;
  event = "failed";
  detail = some detail;
}

abbrev reported : Job → String → Queue → Queue
reported job detail q = record q { events = q.events ++ failure_of job detail ∷ [] }

report_healthy :
    (job : Job) (detail : String) (q : Queue)
    → record_job_event job.id job.kind "failed" (some detail) (healthy q)
      ≡ (ok tt, healthy (reported job detail q))
unfolding record_job_event
report_healthy job detail q = refl

at_end : (es : List JobEvent) (e : JobEvent) → Memᴰ e (es ++ e ∷ [])
at_end [] e = Memᴰ.head refl
at_end (x ∷ es) e = Memᴰ.tail (at_end es e)

-- Where the identifiers and the unique index hold, over a connection that works, a claimed job
-- whose task leaves the queue alone and fails, with an error that is not cut inside a character,
-- uses up one retry, however often the heartbeat renewed its lease: its row loses the lease and
-- keeps what `truncate_error` leaves of the redacted error, it is dead if that was the last retry,
-- and else pending for at least ten seconds and less than 800; and the failure is among the events,
-- with its clipped detail.
pub run_job_fails :
    (tasks : Tasks) (t : Turn) (job : Job) (e text detail : String) (q : Queue) (r : JobRow)
    → active_unique q.jobs ≡ true
    → IsKeyed q
    → Memᴰ r q.jobs
    → r.id ≡ job.id
    → r.status ≡ claimed
    → ((s : Queue) → tasks.run job.kind job.ref_id (healthy s) ≡ (err (error e), healthy s))
    → truncate_error (tasks.redact_sensitive e) ≡ some text
    → clip (tasks.redact_sensitive e) ≡ some detail
    → (q' : Queue) × (s : JobRow) × (run_job tasks t job (healthy q) ≡ (ok tt, healthy q'))
      × Memᴰ s q'.jobs
      × (s.id ≡ r.id)
      × (s.attempts ≡ r.attempts + 1)
      × (s.lease_until ≡ none)
      × (s.last_error ≡ some text)
      × Outcome t.ended r.max_attempts s
      × Memᴰ (failure_of job detail) q'.events
unfolding run_job attempt finish_job noted
run_job_fails tasks t job e text detail q r unique keyed at same held fails short clipped =
    let (q1, marked, holds1) = mark_running-Holds t.started job.id q r same held (unique, at) in
    let keyed1 =
      IsKeyed-after (mark_running t.started job.id) q q1 (mark-IsKeyed t.started job.id) marked
        keyed in
    let q2 = noted job "started" q1 in
    let (q3, s, beat, (holds3, s_id, busy, tries, limit)) =
      heartbeats_run t.beats job.id r.attempts r.max_attempts q2 (running t.started r)
        (holds1, same, refl, refl, refl) in
    let keyed3 =
      IsKeyed-after (heartbeats t.beats job.id) q2 q3 (heartbeats-IsKeyed t.beats job.id) beat
        keyed1 in
    let (q4, d, failed, there, d_id, d_tries, d_lease, d_error, outcome) =
      failure_uses_one_retry t.ended t.nanos (tasks.redact_sensitive e) text q3 s short holds3.0
        keyed3 holds3.1 (rw busy refl) in
    let failed' : fail_job t.ended t.nanos job.id (tasks.redact_sensitive e) (healthy q3)
        ≡ (ok tt, healthy q4) =
      subst
        (λ i.
          fail_job t.ended t.nanos i (tasks.redact_sensitive e) (healthy q3) ≡ (ok tt, healthy q4))
        s_id failed in
    (
      reported job detail q4,
      d,
      rw
          (
            marked,
            note_healthy job "started" q1,
            beat,
            fails q3,
            failed',
            clipped,
            report_healthy job detail q4,
          )
          refl,
      there,
      d_id ∙ s_id ∙ sym same,
      d_tries ∙ ap (λ n. n + 1) tries,
      d_lease,
      d_error,
      subst (λ n. Outcome t.ended n d) limit outcome,
      at_end q4.events (failure_of job detail),
    )
