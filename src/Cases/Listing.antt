-- ===== src/Cases/Listing.antt =====
-- `list_cases` of server/src/routes/cases.rs. The numbers of a case's evidence and nodes, which two
-- sub-queries count, are an argument.
use legal_genie_agent.Prelude.{
  ℕ, max, String, ◌=s◌, Bool, not, ◌&&◌, ◌||◌, Option, List, any, map, ltb,
}
use legal_genie_agent.Errors.Make
use legal_genie_agent.Sql.{Result, pure, query, statement, ◌>>=◌}
use legal_genie_agent.Sql.Rows.{select_where, count_where}
use legal_genie_agent.Schema.{Tables, Case, Member}
use legal_genie_agent.Pages.{clamp, offset_of, ordered, page_of, answered}
use legal_genie_agent.Cases.{Handler}

-- `CaseSummary`
pub record CaseSummary : Type 0 where
  pub id : String
  pub name : String
  pub description : Option String
  pub status : String
  pub created_at : ℕ
  pub member_count : ℕ
  pub evidence_count : ℕ
  pub node_count : ℕ

-- `CaseListData`
pub record CaseListData : Type 0 where
  pub cases : List CaseSummary
  pub total : ℕ
  pub page : ℕ
  pub page_size : ℕ

-- The condition of both queries.
unfoldable pub lists : String → List Member → Case → Bool
lists user_id ms c =
    not (c.status =s "deleted")
    && (c.owner_id =s user_id || any (λ m. m.case_id =s c.id && m.user_id =s user_id) ms)

-- ORDER BY created_at DESC
abbrev pub older : Case → Case → Bool
older c d = ltb c.created_at d.created_at

module _ (counts : String → ℕ × ℕ) where
  abbrev pub summary : Tables → Case → CaseSummary
  summary t c = record {
    id = c.id;
    name = c.name;
    description = c.description;
    status = c.status;
    created_at = c.created_at;
    member_count = count_where (λ m. m.case_id =s c.id) t.members;
    evidence_count = (counts c.id).0;
    node_count = (counts c.id).1;
  }

  -- SELECT … LIMIT $2 OFFSET $3
  unfoldable pub select_page : String → ℕ → ℕ → Tables → Result String (List CaseSummary × Tables)
  select_page user_id limit offset t = answered t (
      page_of limit offset
        (map (summary t) (ordered older (select_where (lists user_id t.members) t.cases))))

  -- `list_cases`
  unfoldable pub list_cases : String → ℕ → ℕ → Handler CaseListData
  list_cases user_id raw_page raw_size = do
    let page = max raw_page 1
    let page_size = clamp raw_size
    total ← query Make.db_error (λ t. count_where (lists user_id t.members) t.cases)
    cases ← statement Make.db_error (select_page user_id page_size (offset_of page page_size))
    pure (record { cases = cases; total = total; page = page; page_size = page_size })
