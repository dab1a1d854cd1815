-- ===== src/Members/Listed.antt =====
-- Whom `list_members` shows, and to whom.
use mathlib.Core.List.{Memᴰ}
use legal_genie_agent.Prelude.{
  ℕ, ◌≤◌, ◌≡◌, String, ◌=s◌, eq_iff, refl, ap, sym, ◌∙◌, subst, Option, none, some, List, [], ◌∷◌,
  max, All, ◌⊎◌, inl, inr, arith, length,
}
use legal_genie_agent.Errors.{AppError}
use legal_genie_agent.Errors.Make
use legal_genie_agent.Sql.{World, ok, pure, query, statement, ◌>>=◌}
use legal_genie_agent.Sql.Rules.{>>=-eq-ok, query->>=-eq-ok, statement_cases, ok_inj}
use legal_genie_agent.Sql.Rows.{
  first_where_sound, select_where, select_where_sound, count_where, All-of-mem,
}
use legal_genie_agent.Schema.{Tables, User, Member}
use legal_genie_agent.Access.{ensure_case_access}
use legal_genie_agent.Access.Roles.{CanRead}
use legal_genie_agent.Access.Laws.{ensure_case_access_sound}
use legal_genie_agent.Access.Complete.{checks_change_nothing}
use legal_genie_agent.Pages.{clamp, offset_of, ordered}
use legal_genie_agent.Pages.Laws.{page_of_sound, mem-ordered, answered-ok, clamp_bounds}
use legal_genie_agent.Members.{CaseMember, find_user, normalize_uuid}
use legal_genie_agent.Members.Laws.{normalized}
use legal_genie_agent.Members.Listing.{
  CaseMemberListData, comes_later, with_user, join_users, select_members, list_members,
}

-- A line of the list, with the row of the case's members that stands behind it.
pub IsShown : Tables → String → CaseMember → Type 0
IsShown t k c =
    (m : Member) × Memᴰ m t.members
    × (m.case_id ≡ k)
    × (m.user_id ≡ c.user_id)
    × (m.role_in_case ≡ c.role_in_case)

mem-with_user :
    (o : Option User) (m : Member) (rest : List CaseMember) {c : CaseMember}
    → ((u : User) → o ≡ some u → u.id ≡ m.user_id)
    → Memᴰ c (with_user o m rest)
    → ((m.user_id ≡ c.user_id) × (m.role_in_case ≡ c.role_in_case)) ⊎ Memᴰ c rest
mem-with_user none m rest own at = inr at
mem-with_user (some u) m rest own (Memᴰ.head e) = inl (
  sym (own u refl) ∙ ap (λ (x : CaseMember). x.user_id) (sym e),
  ap (λ (x : CaseMember). x.role_in_case) (sym e),
)
mem-with_user (some u) m rest own (Memᴰ.tail at) = inr at

find_user_id : (k : String) (t : Tables) (u : User) → find_user k t ≡ some u → u.id ≡ k
unfolding find_user
find_user_id k t u e = (eq_iff u.id k).0 (first_where_sound (λ x. x.id =s k) t.users e).1

mem-join_users :
    (t : Tables) (ms : List Member) {c : CaseMember}
    → Memᴰ c (join_users t ms)
    → (m : Member) × Memᴰ m ms × (m.user_id ≡ c.user_id) × (m.role_in_case ≡ c.role_in_case)
unfolding join_users
mem-join_users t [] at = elim at [ ]
mem-join_users t (m ∷ ms) at =
    elim (mem-with_user _ m (join_users t ms) (find_user_id m.user_id t) at) [
      | inl (who, role) ↦ (m, Memᴰ.head refl, who, role)
      | inr below ↦
          let (n, there, who, role) = mem-join_users t ms below in (n, Memᴰ.tail there, who, role)
    ]

select_members_sound :
    (k : String) (limit offset : ℕ) (t t' : Tables) (rows : List CaseMember)
    → select_members k limit offset t ≡ ok (rows, t')
    → All (IsShown t k) rows × (length rows ≤ limit)
unfolding select_members IsShown
select_members_sound k limit offset t t' rows h =
    let own = select_where (λ m. m.case_id =s k) t.members in
    let (inside, few) = page_of_sound limit offset _ rows (answered-ok t t' _ h) in
    (
      All-of-mem rows (λ c at.
          let (m, there, who, role) = mem-join_users t (ordered comes_later own) (inside c at) in
          let (row, fits) =
            select_where_sound (λ m. m.case_id =s k) t.members
              (mem-ordered comes_later own there) in
          (m, row, (eq_iff m.case_id k).0 fits, who, role)),
      few,
    )

module _ (parse_uuid : String → Option String) where
  -- The queries of `list_members`, behind its check.
  listed :
      (k : String) (page limit : ℕ) (w : World Tables) (data' : CaseMemberListData)
      → ((query Make.db_error (λ t. count_where (λ m. m.case_id =s k) t.members) >>= λ total.
            statement Make.db_error (select_members k limit (offset_of page limit)) >>= λ rows.
            pure {S = Tables} {E = AppError}
              (record { members = rows; total = total; page = page; page_size = limit }))
          w).0
        ≡ ok data'
      → All (IsShown w.tables k) data'.members × (length data'.members ≤ limit)
  listed k page limit w data' h =
      let run = select_members k limit (offset_of page limit) in
      let (w1, t1, h1, _) =
        query->>=-eq-ok Make.db_error (λ t. count_where (λ m. m.case_id =s k) t.members) _ w h in
      elim (statement_cases {E = AppError} Make.db_error run w1) [
        | inl (x, failed, kept) ↦ absurd (cc (rw failed at h1))
        | inr (rows, t, ran, done, after) ↦
            let same : rows ≡ data'.members =
              ap (λ (d : CaseMemberListData). d.members) (ok_inj _ _ (rw done at h1)) in
            let (shown, few) = select_members_sound k limit _ w1.tables t rows ran in
            (
              subst (λ (s : Tables). All (IsShown s k) data'.members) t1
                  (subst (λ rs. All (IsShown w1.tables k) rs) same shown),
              subst (λ rs. length rs ≤ limit) same few,
            )
      ]

  -- `list_members` answers only a user who may read the case, with at most 200 lines, each of which
  -- shows the user and the role of a row of the case's members.
  pub list_members_sound :
      (u raw : String) (raw_page raw_size : ℕ) (w : World Tables) (data' : CaseMemberListData)
      → (list_members parse_uuid u raw raw_page raw_size w).0 ≡ ok data'
      → (k : String) × (parse_uuid raw ≡ some k)
        × CanRead w.tables u k
        × All (IsShown w.tables k) data'.members
        × (length data'.members ≤ 200)
  unfolding list_members
  list_members_sound u raw raw_page raw_size w data' h =
      let (k, w1, h1, t1, h2, _) =
        >>=-eq-ok (normalize_uuid parse_uuid raw "invalid case_id") _ w h in
      let (good, back) = normalized parse_uuid raw "invalid case_id" w h1 in
      let here : w1.tables ≡ w.tables = ap (λ (x : World Tables). x.tables) (sym t1 ∙ back) in
      let (done, w2, h3, t2, h4, _) = >>=-eq-ok (ensure_case_access u k) _ w1 h2 in
      let there : w2.tables ≡ w.tables =
        ap (λ (x : World Tables). x.tables) (sym t2) ∙ (checks_change_nothing w1 u k "").0 ∙ here in
      let (shown, few) = listed k (max raw_page 1) (clamp raw_size) w2 data' h4 in
      (
        k,
        good,
        subst (λ (s : Tables). CanRead s u k) here
            (ensure_case_access_sound w1 u k (h3 ∙ ap ok (only_unit done))),
        subst (λ (s : Tables). All (IsShown s k) data'.members) there shown,
        omega (arith, few, (clamp_bounds raw_size).1),
      )
    where
      only_unit : (x : Unit {0}) → x ≡ tt
      only_unit x = refl
