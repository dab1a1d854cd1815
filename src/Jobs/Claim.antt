-- ===== src/Jobs/Claim.antt =====
-- Claims, `claim_next_job` of server/src/jobs.rs.
use mathlib.Core.List.{Memᴰ}
use legal_genie_agent.Prelude.{
  ℕ, ◌+◌, ◌≤◌, String, ◌=s◌, ◌≡◌, ◌≢◌, refl, sym, ap, ◌∙◌, ◌⊎◌, inl, inr, true, ◌&&◌, Option, none,
  some, List, [], All, ◌∷◌, arith, eq_iff, eq_refl, Option-cases, if◌then◌else◌, subst,
}
use legal_genie_agent.Sql.{World, healthy, Result-cases, ok, err, transaction}
use legal_genie_agent.Sql.Rows.{
  select_where, select_where_sound, select_where_complete, All-of-mem, update_where,
  count_where-pos, mem-update_where, update_where-mem,
}
use legal_genie_agent.Jobs.{
  JobRow, Job, Queue, claimed, is_pending, active_unique, update_jobs, claim_row, claim_body,
  claim_tx, claim_next_job, oldest, first_of_two, is_due, with_id, lease_secs, job_of_row,
  parse_kind,
}
use legal_genie_agent.Jobs.Unique.{IsTame, All-intro, update_jobs-eq-ok}

-- The jobs that a claim may take.
abbrev pub due_jobs : ℕ → List String → Queue → List JobRow
due_jobs now locked q = select_where (is_due now locked) q.jobs

-- What a claim makes of its row.
abbrev pub claimed_row : ℕ → JobRow → JobRow
claimed_row now r = record r {
  status = claimed;
  lease_until = some (now + lease_secs);
  updated_at = now;
}

claim_row_jobs :
    (now : ℕ) (job_id : String) (q q' : Queue) (n : ℕ)
    → claim_row now job_id q ≡ ok (n, q')
    → q'.jobs ≡ update_where (λ s. with_id job_id s && is_pending s.status) (claimed_row now) q.jobs
unfolding claim_row update_jobs
claim_row_jobs now job_id q q' n e = ground arith

module _ (now : ℕ) (locked : List String) (w : World Queue) where
  claim_tx_row :
      (r : JobRow)
      → (claim_tx now locked w).0 ≡ ok (some r)
      → oldest (due_jobs now locked w.tables) ≡ some r
  unfolding claim_tx claim_body transaction
  claim_tx_row r e = ground arith

  claim_tx_refused :
      (r : JobRow) (e : String)
      → (claim_tx now locked w).0 ≡ ok (some r)
      → claim_row now r.id w.tables ≡ err e
      → ⊥
  unfolding claim_tx claim_body transaction
  claim_tx_refused r e got refused = ground (arith, claim_tx_row r)

  claim_tx_tables :
      (r : JobRow) (n : ℕ) (q : Queue)
      → (claim_tx now locked w).0 ≡ ok (some r)
      → claim_row now r.id w.tables ≡ ok (n, q)
      → (claim_tx now locked w).1.tables ≡ q
  unfolding claim_tx claim_body transaction
  claim_tx_tables r n q got wrote = ground (arith, claim_tx_row r)

  -- The table after a claim that got a row.
  claim_tx_jobs :
      (r : JobRow)
      → (claim_tx now locked w).0 ≡ ok (some r)
      → (claim_tx now locked w).1.tables.jobs
        ≡ update_where (λ s. with_id r.id s && is_pending s.status) (claimed_row now) w.tables.jobs
  claim_tx_jobs r got = elim (Result-cases (claim_row now r.id w.tables)) [
    | inl (e, refused) ↦ absurd (claim_tx_refused r e got refused)
    | inr ((n, q), wrote) ↦
        rw (claim_tx_tables r n q got wrote) (claim_row_jobs now r.id w.tables q n wrote)
  ]

  -- The claim's row, from the job that it returned.
  claimed_by :
      (j : Job)
      → (claim_next_job now locked w).0 ≡ ok (some j)
      → (r : JobRow) × ((claim_tx now locked w).0 ≡ ok (some r))
        × (r.id ≡ j.id)
        × ((claim_next_job now locked w).1 ≡ (claim_tx now locked w).1)
  unfolding claim_next_job job_of_row
  claimed_by j got = elim (Result-cases (claim_tx now locked w).0) [
    | inl (e, failed) ↦ absurd (ground arith)
    | inr (o, done) ↦ elim (Option-cases o) [
      | inl nothing ↦ absurd (ground arith)
      | inr (r, row) ↦ (r, ground arith, ground (arith, parse_kind r.kind), ground arith)
    ]
  ]

first_of_two-mem :
    (r : JobRow) (o : Option JobRow) → (first_of_two r o ≡ r) ⊎ (o ≡ some (first_of_two r o))
unfolding first_of_two
first_of_two-mem r none = inl refl
first_of_two-mem r (some s) = ground arith

oldest-mem : (rs : List JobRow) {r : JobRow} → oldest rs ≡ some r → Memᴰ r rs
unfolding oldest
oldest-mem [] e = cc
oldest-mem (x ∷ xs) {r} e =
    let same : first_of_two x (oldest xs) ≡ r = ground arith in
    elim (first_of_two-mem x (oldest xs)) [
      | inl this ↦ Memᴰ.head (sym same ∙ this)
      | inr later ↦ Memᴰ.tail (oldest-mem xs (later ∙ ap some same))
    ]

first_of_two-le_head :
    (r : JobRow) (o : Option JobRow) → (first_of_two r o).created_at ≤ r.created_at
unfolding first_of_two
first_of_two-le_head r none = omega arith
first_of_two-le_head r (some s) = ground arith

first_of_two-le_tail : (r s : JobRow) → (first_of_two r (some s)).created_at ≤ s.created_at
unfolding first_of_two
first_of_two-le_tail r s = ground arith

oldest-ne-none : (rs : List JobRow) {r : JobRow} → Memᴰ r rs → oldest rs ≢ none
unfolding oldest
oldest-ne-none [] m e = elim m [ ]
oldest-ne-none (x ∷ xs) m e = cc

oldest-le :
    (rs : List JobRow) {r s : JobRow} → oldest rs ≡ some r → Memᴰ s rs → r.created_at ≤ s.created_at
unfolding oldest
oldest-le [] e m = elim m [ ]
oldest-le (x ∷ xs) {r} {s} e (Memᴰ.head h) = ground (arith, first_of_two-le_head x (oldest xs))
oldest-le (x ∷ xs) {r} {s} e (Memᴰ.tail m) = elim (Option-cases (oldest xs)) [
  | inl nothing ↦ absurd (oldest-ne-none xs m nothing)
  | inr (y, found) ↦ ground (arith, first_of_two-le_tail x y, oldest-le xs {s = s} found m)
]

-- A claim takes a pending job whose time has come and which no other transaction holds, and no
-- such job was created before it; this holds whichever statements fail.
pub claim_takes_oldest :
    (now : ℕ) (locked : List String) (w : World Queue) (j : Job)
    → (claim_next_job now locked w).0 ≡ ok (some j)
    → (r : JobRow) × (r.id ≡ j.id)
      × Memᴰ r w.tables.jobs
      × (is_due now locked r ≡ true)
      × All (λ s. r.created_at ≤ s.created_at) (due_jobs now locked w.tables)
claim_takes_oldest now locked w j got =
    let (r, row, same, _) = claimed_by now locked w j got in
    let picked = claim_tx_row now locked w r row in
    let (at, due) = select_where_sound (is_due now locked) w.tables.jobs (oldest-mem _ picked) in
    (r, same, at, due, All-of-mem _ (λ s m. oldest-le _ picked m))

not_pending_twice :
    (now : ℕ) (job_id : String) (r s : JobRow)
    → s ≡ (if with_id job_id r && is_pending r.status then claimed_row now r else r)
    → is_pending s.status ≡ true
    → s.id ≡ job_id
    → ⊥
unfolding with_id
not_pending_twice now job_id r s e waiting same = ground (arith, eq_iff r.id job_id)

is_due-pending :
    (now : ℕ) (locked : List String) (r : JobRow)
    → is_due now locked r ≡ true
    → is_pending r.status ≡ true
unfolding is_due
is_due-pending now locked r h = ground arith

-- No job is handed out twice in a row: what a claim returned, the next claim, by any worker and at
-- any time, does not return, whichever statements fail.
pub claim_exclusive :
    (now later : ℕ) (locked locked' : List String) (w : World Queue) (j k : Job)
    → (claim_next_job now locked w).0 ≡ ok (some j)
    → (claim_next_job later locked' (claim_next_job now locked w).1).0 ≡ ok (some k)
    → k.id ≢ j.id
claim_exclusive now later locked locked' w j k got again same =
    let (r, row, r_id, state) = claimed_by now locked w j got in
    let (s, s_id, at, due, _) =
      claim_takes_oldest later locked' (claim_next_job now locked w).1 k again in
    let at' =
      subst (λ rows. Memᴰ s rows)
        (ap (λ (v : World Queue). v.tables.jobs) state ∙ claim_tx_jobs now locked w r row) at in
    let (x, _, e) = mem-update_where _ (claimed_row now) w.tables.jobs at' in
    not_pending_twice now r.id x s e (is_due-pending later locked' s due) (s_id ∙ same ∙ sym r_id)

fits_itself :
    (now : ℕ) (locked : List String) (r : JobRow)
    → is_due now locked r ≡ true
    → (with_id r.id r && is_pending r.status) ≡ true
unfolding with_id
fits_itself now locked r due = ground (arith, eq_refl r.id, is_due-pending now locked r due)

-- Whichever statements fail, a claim that returns a job has marked its row, which stood in the
-- table, as claimed, with a lease of five minutes.
pub claim_leases :
    (now : ℕ) (locked : List String) (w : World Queue) (j : Job)
    → (claim_next_job now locked w).0 ≡ ok (some j)
    → (r : JobRow) × (r.id ≡ j.id)
      × Memᴰ r w.tables.jobs
      × Memᴰ (claimed_row now r) (claim_next_job now locked w).1.tables.jobs
claim_leases now locked w j got =
    let (r, row, r_id, state) = claimed_by now locked w j got in
    let picked = claim_tx_row now locked w r row in
    let (at, due) = select_where_sound (is_due now locked) w.tables.jobs (oldest-mem _ picked) in
    let changed =
      update_where-mem (λ (s : JobRow). with_id r.id s && is_pending s.status) (claimed_row now)
        w.tables.jobs at in
    (
      r,
      r_id,
      at,
      rw (state, claim_tx_jobs now locked w r row) (rw (fits_itself now locked r due) at changed),
    )

claim_row-IsTame :
    (now : ℕ) (job_id : String) (rs : List JobRow)
    → IsTame (λ r. with_id job_id r && is_pending r.status) (claimed_row now) rs
claim_row-IsTame now job_id rs = record {
  same_kind = λ r. refl;
  same_ref = λ r. refl;
  no_new = All-intro _ rs (λ r. ground arith);
}

claim_tx-healthy :
    (now : ℕ) (locked : List String) (q q' : Queue) (r : JobRow) (n : ℕ)
    → oldest (due_jobs now locked q) ≡ some r
    → claim_row now r.id q ≡ ok (n, q')
    → 1 ≤ n
    → claim_tx now locked (healthy q) ≡ (ok (some r), healthy q')
unfolding claim_tx claim_body transaction
claim_tx-healthy now locked q q' r n picked wrote some_rows = ground arith

-- Where a job is due and not held by another transaction, and the unique index holds, the
-- transaction of a claim over a connection that works takes a job: one that is due, none of the due
-- jobs being older, whose pending row becomes claimed, with a lease of five minutes, while the
-- other rows stay.
pub claim_finds :
    (now : ℕ) (locked : List String) (q : Queue) (due : JobRow)
    → active_unique q.jobs ≡ true
    → Memᴰ due q.jobs
    → is_due now locked due ≡ true
    → (r : JobRow) × (q' : Queue) × (claim_tx now locked (healthy q) ≡ (ok (some r), healthy q'))
      × Memᴰ r q.jobs
      × (is_due now locked r ≡ true)
      × All (λ s. r.created_at ≤ s.created_at) (due_jobs now locked q)
      × Memᴰ (claimed_row now r) q'.jobs
      × (q'.jobs ≡ update_where (λ s. s.id =s r.id && is_pending s.status) (claimed_row now) q.jobs)
unfolding claim_row with_id
claim_finds now locked q due unique at fits = elim (Option-cases (oldest (due_jobs now locked q))) [
  | inl nothing ↦
      absurd (oldest-ne-none _ (select_where_complete (is_due now locked) q.jobs at fits) nothing)
  | inr (r, picked) ↦
      let (there, r_due) = select_where_sound (is_due now locked) q.jobs (oldest-mem _ picked) in
      let changed =
        update_where-mem (λ (s : JobRow). s.id =s r.id && is_pending s.status) (claimed_row now)
          q.jobs there in
      (
        r,
        _,
        claim_tx-healthy now locked q _ r _ picked
            (update_jobs-eq-ok _ (claimed_row now) q (claim_row-IsTame now r.id q.jobs) unique)
            (count_where-pos _ q.jobs there (fits_itself now locked r r_due)),
        there,
        r_due,
        All-of-mem _ (λ s m. oldest-le _ picked m),
        rw (fits_itself now locked r r_due) at changed,
        refl,
      )
]
