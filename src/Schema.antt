-- ===== src/Schema.antt =====
-- The tables that the access checks, the case members and the agent share, from
-- server/migrations_pg (0001_init.sql, 0018_agent.sql, 0019_rate_limit.sql). A row has the columns
-- that these components read or write. Identifiers are canonical texts; time is in seconds.
use legal_genie_agent.Prelude.{ℕ, String, Bool, Option, List}

pub record User : Type 0 where
  pub id : String
  pub username : String
  pub email : String
  pub real_name : Option String
  pub status : String

-- `tags` is the text of a JSON array.
pub record Case : Type 0 where
  pub id : String
  pub name : String
  pub description : Option String
  pub owner_id : String
  pub status : String
  pub tags : Option String
  pub created_at : ℕ
  pub updated_at : ℕ

-- case_members, UNIQUE(case_id, user_id)
pub record Member : Type 0 where
  pub id : String
  pub case_id : String
  pub user_id : String
  pub role_in_case : String
  pub joined_at : ℕ
  pub joined_by : String

pub record Permission : Type 0 where
  pub role : String
  pub operation : String

pub record Session : Type 0 where
  pub id : String
  pub case_id : Option String
  pub user_id : String
  pub title : String
  pub status : String
  pub created_at : ℕ
  pub updated_at : ℕ

pub record Message : Type 0 where
  pub id : String
  pub session_id : String
  pub role : String
  pub content : String

-- agent_tool_calls; `input` and `output` are the JSON texts.
pub record ToolCall : Type 0 where
  pub id : String
  pub session_id : String
  pub tool_name : String
  pub input : String
  pub output : Option String
  pub status : String
  pub requires_approval : Bool
  pub danger_level : String
  pub error : Option String
  pub requested_by : String
  pub decided_by : Option String
  pub decided_at : Option ℕ

pub record Tables : Type 0 where
  pub users : List User
  pub cases : List Case
  pub members : List Member
  pub permissions : List Permission
  pub sessions : List Session
  pub messages : List Message
  pub tool_calls : List ToolCall
