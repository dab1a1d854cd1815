-- ===== src/Cases/Listed.antt =====
-- Whose cases `list_cases` shows.
use mathlib.Core.List.{Memᴰ}
use legal_genie_agent.Prelude.{
  ℕ, ◌≤◌, ◌≡◌, ◌≢◌, String, ◌=s◌, refl, ap, sym, subst, Bool, true, false, ◌&&◌, List, [], ◌∷◌, any,
  length, max, arith, eq_iff, All, Bool-cases, inl, inr,
}
use legal_genie_agent.Errors.{AppError}
use legal_genie_agent.Errors.Make
use legal_genie_agent.Sql.{World, ok}
use legal_genie_agent.Sql.Rules.{query->>=-eq-ok, statement_cases, ok_inj}
use legal_genie_agent.Sql.Rows.{count_where, select_where, select_where_sound, All-of-mem}
use legal_genie_agent.Schema.{Tables, Case, Member}
use legal_genie_agent.Access.Roles.{CanRead}
use legal_genie_agent.Pages.{clamp, offset_of, ordered}
use legal_genie_agent.Pages.Laws.{mem-map, mem-ordered, page_of_sound, answered-ok, clamp_bounds}
use legal_genie_agent.Cases.Listing.{
  CaseSummary, CaseListData, older, lists, summary, select_page, list_cases,
}

any-mem :
    (p : Member → Bool) (ms : List Member)
    → any p ms ≡ true
    → (m : Member) × Memᴰ m ms × (p m ≡ true)
any-mem p [] h = absurd (cc h)
any-mem p (m ∷ ms) h = elim (Bool-cases (p m)) [
  | inl fits ↦ (m, Memᴰ.head refl, fits)
  | inr fails ↦ let (n, at, fits) = any-mem p ms (rw fails at h) in (n, Memᴰ.tail at, fits)
]

lists_CanRead :
    (t : Tables) (u : String) (c : Case)
    → Memᴰ c t.cases
    → lists u t.members c ≡ true
    → CanRead t u c.id
unfolding lists
lists_CanRead t u c at h =
    let live : (c.status =s "deleted") ≡ false = ground arith in
    let live' : c.status ≢ "deleted" = λ e. absurd (cc (live, (eq_iff c.status "deleted").1 e)) in
    elim (Bool-cases (c.owner_id =s u)) [
      | inl own ↦ (c, (at, refl, live'), inl ((eq_iff c.owner_id u).0 own))
      | inr other ↦
          let joined : any (λ m. m.case_id =s c.id && m.user_id =s u) t.members ≡ true =
            ground arith in
          let (m, there, fits) =
            any-mem (λ m. m.case_id =s c.id && m.user_id =s u) t.members joined in
          (
            c,
            (at, refl, live'),
            inr (
              m,
              (there, ground (arith, eq_iff m.case_id c.id), ground (arith, eq_iff m.user_id u)),
            ),
          )
    ]

module _ (counts : String → ℕ × ℕ) where
  page_CanRead :
      (u : String) (limit offset : ℕ) (t t' : Tables) (rows : List CaseSummary)
      → select_page counts u limit offset t ≡ ok (rows, t')
      → All (λ s. CanRead t u s.id) rows × (length rows ≤ limit)
  unfolding select_page
  page_CanRead u limit offset t t' rows h =
      let fitting = select_where (lists u t.members) t.cases in
      let (inside, few) = page_of_sound limit offset _ rows (answered-ok t t' _ h) in
      (
        All-of-mem rows (λ s m.
            let (c, shown, same) =
              mem-map (summary counts t) (ordered older fitting) (inside s m) in
            let (at, fits) =
              select_where_sound (lists u t.members) t.cases (mem-ordered older fitting shown) in
            subst (λ r. CanRead t u r.id) (sym same) (lists_CanRead t u c at fits)),
        few,
      )

-- A page of the cases shows at most 200, and only cases that the user may read: the live ones that
-- he owns or is a member of.
pub list_cases_CanRead :
    (counts : String → ℕ × ℕ) (u : String) (raw_page raw_size : ℕ) (w : World Tables)
    (data' : CaseListData)
    → (list_cases counts u raw_page raw_size w).0 ≡ ok data'
    → All (λ s. CanRead w.tables u s.id) data'.cases × (length data'.cases ≤ 200)
unfolding list_cases
list_cases_CanRead counts u raw_page raw_size w data' h =
    let (w1, t1, h1, _) =
      query->>=-eq-ok Make.db_error (λ t. count_where (lists u t.members) t.cases) _ w h in
    let run = select_page counts u (clamp raw_size) (offset_of (max raw_page 1) (clamp raw_size)) in
    elim (statement_cases {E = AppError} Make.db_error run w1) [
      | inl (x, failed, kept) ↦ absurd (cc (rw failed at h1))
      | inr (rows, t, ran, done, after) ↦
          let same : rows ≡ data'.cases =
            ap (λ (d : CaseListData). d.cases) (ok_inj _ _ (rw done at h1)) in
          let (readable, few) = page_CanRead counts u _ _ w1.tables t rows ran in
          (
            subst (λ (s : Tables). All (λ c. CanRead s u c.id) data'.cases) t1
                (subst (λ rs. All (λ c. CanRead w1.tables u c.id) rs) same readable),
            subst (λ rs. length rs ≤ 200) same (omega (arith, few, (clamp_bounds raw_size).1)),
          )
    ]
