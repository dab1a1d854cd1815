-- ===== src/Members/Listing.antt =====
-- `list_members` of server/src/routes/case_members.rs.
use legal_genie_agent.Prelude.{
  ℕ, ◌==◌, ◌&&◌, ◌||◌, String, ◌=s◌, Bool, Option, none, some, List, [], ◌∷◌, ltb, max,
  if◌then◌else◌,
}
use legal_genie_agent.Errors.Make
use legal_genie_agent.Sql.{Result, pure, query, statement, ◌>>=◌, ◌>>◌}
use legal_genie_agent.Sql.Rows.{select_where, count_where}
use legal_genie_agent.Schema.{Tables, User, Member}
use legal_genie_agent.Access.{ensure_case_access}
use legal_genie_agent.Pages.{clamp, offset_of, ordered, page_of, answered}
use legal_genie_agent.Members.{CaseMember, Handler, answer_of, find_user, normalize_uuid}

-- `CaseMemberListData`
pub record CaseMemberListData : Type 0 where
  pub members : List CaseMember
  pub total : ℕ
  pub page : ℕ
  pub page_size : ℕ

-- CASE role_in_case WHEN 'owner' THEN 0 WHEN 'member' THEN 1 ELSE 2 END
unfoldable pub rank : String → ℕ
rank role = if role =s "owner" then 0 else if role =s "member" then 1 else 2

-- ORDER BY the rank, then joined_at
unfoldable pub comes_later : Member → Member → Bool
comes_later m n =
    ltb (rank n.role_in_case) (rank m.role_in_case)
    || (rank n.role_in_case == rank m.role_in_case && ltb n.joined_at m.joined_at)

-- JOIN users u ON u.id = m.user_id
abbrev pub with_user : Option User → Member → List CaseMember → List CaseMember
with_user none m rest = rest
with_user (some u) m rest = answer_of u m.role_in_case m ∷ rest

unfoldable pub join_users : Tables → List Member → List CaseMember
join_users t [] = []
join_users t (m ∷ ms) = with_user (find_user m.user_id t) m (join_users t ms)

-- SELECT … LIMIT $2 OFFSET $3
unfoldable pub select_members : String → ℕ → ℕ → Tables → Result String (List CaseMember × Tables)
select_members case_id limit offset t = answered t (
    page_of limit offset
      (join_users t (ordered comes_later (select_where (λ m. m.case_id =s case_id) t.members))))

module _ (parse_uuid : String → Option String) where
  -- `list_members`
  unfoldable pub list_members : String → String → ℕ → ℕ → Handler CaseMemberListData
  list_members user_id raw raw_page raw_size = do
    case_id ← normalize_uuid parse_uuid raw "invalid case_id"
    ensure_case_access user_id case_id
    let page = max raw_page 1
    let page_size = clamp raw_size
    total ← query Make.db_error (λ t. count_where (λ m. m.case_id =s case_id) t.members)
    rows ← statement Make.db_error (select_members case_id page_size (offset_of page page_size))
    pure (record { members = rows; total = total; page = page; page_size = page_size })
