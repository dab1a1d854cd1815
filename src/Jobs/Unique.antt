-- ===== src/Jobs/Unique.antt =====
-- The unique index of active jobs, server/migrations_pg/0017_jobs.sql, under the operations of
-- server/src/jobs.rs.
use legal_genie_agent.Prelude.{
  ◌≡◌, refl, Bool, true, false, List, [], ◌∷◌, any, arith, Bool-cases, ◌⊎◌, All, inl, inr,
  if◌then◌else◌,
}
use legal_genie_agent.Sql.{ok}
use legal_genie_agent.Sql.Rows.{update_where, count_where}
use legal_genie_agent.Jobs.{JobRow, Queue, is_active, conflicts, active_unique, update_jobs}

-- The row is left out, or not active after the change, or active before it.
abbrev pub MakesNoneActive : (JobRow → Bool) → (JobRow → JobRow) → JobRow → Type 0
MakesNoneActive p f r =
    (p r ≡ false) ⊎ ((is_active (f r).status ≡ false) ⊎ (is_active r.status ≡ true))

-- A change of rows that makes none of them active and moves none to another (kind, ref_id).
pub record IsTame (p : JobRow → Bool) (f : JobRow → JobRow) (rs : List JobRow) : Type 0 where
  pub same_kind : (r : JobRow) → (f r).kind ≡ r.kind
  pub same_ref : (r : JobRow) → (f r).ref_id ≡ r.ref_id
  pub no_new : All (MakesNoneActive p f) rs

pub All-intro : (P : JobRow → Type 0) (rs : List JobRow) → ((r : JobRow) → P r) → All P rs
All-intro P [] k = tt
All-intro P (r ∷ rs) k = (k r, All-intro P rs k)

module _ (p : JobRow → Bool) (f : JobRow → JobRow) (same_kind : (r : JobRow) → (f r).kind ≡ r.kind)
    (same_ref : (r : JobRow) → (f r).ref_id ≡ r.ref_id) where
  abbrev changed : JobRow → JobRow
  changed r = if p r then f r else r

  active_changed :
      (r : JobRow)
      → MakesNoneActive p f r
      → is_active (changed r).status ≡ true
      → is_active r.status ≡ true
  active_changed r k h = elim (Bool-cases (p r)) [
    | inl e ↦
        let h' : is_active (f r).status ≡ true = rw e at h in
        elim k [
          | inl out ↦ absurd (ground arith)
          | inr (inl idle) ↦ absurd (ground arith)
          | inr (inr active) ↦ active
        ]
    | inr e ↦ rw e at h
  ]

  conflicts-changed :
      (r s : JobRow)
      → MakesNoneActive p f r
      → MakesNoneActive p f s
      → conflicts r s ≡ false
      → conflicts (changed r) (changed s) ≡ false
  unfolding conflicts
  conflicts-changed r s k l h = ground (
    arith,
    active_changed r k,
    active_changed s l,
    same_kind r,
    same_kind s,
    same_ref r,
    same_ref s,
  )

  any-conflicts-changed :
      (r : JobRow) (rs : List JobRow)
      → MakesNoneActive p f r
      → All (MakesNoneActive p f) rs
      → any (conflicts r) rs ≡ false
      → any (conflicts (changed r)) (update_where p f rs) ≡ false
  unfolding update_where
  any-conflicts-changed r [] k ks h = refl
  any-conflicts-changed r (s ∷ rs) k (l, ks) h =
      let here : conflicts (changed r) (changed s) ≡ false =
        conflicts-changed r s k l (ground arith) in
      ground (arith, here, any-conflicts-changed r rs k ks)

  pub active_unique_changed :
      (rs : List JobRow)
      → All (MakesNoneActive p f) rs
      → active_unique rs ≡ true
      → active_unique (update_where p f rs) ≡ true
  unfolding active_unique update_where
  active_unique_changed [] ks h = refl
  active_unique_changed (r ∷ rs) (k, ks) h =
      let here = any-conflicts-changed r rs k ks (ground arith) in
      ground (arith, here, active_unique_changed rs ks)

-- The index lets a tame update through, and then every row that fits is changed.
pub update_jobs-eq-ok :
    (p : JobRow → Bool) (f : JobRow → JobRow) (q : Queue)
    → IsTame p f q.jobs
    → active_unique q.jobs ≡ true
    → update_jobs p f q ≡ ok (count_where p q.jobs, record q { jobs = update_where p f q.jobs })
unfolding update_jobs
update_jobs-eq-ok p f q tame h =
    rw (active_unique_changed p f tame.same_kind tame.same_ref q.jobs tame.no_new h)
