-- ===== src/Oplog.antt =====
-- server/src/oplog.rs: the operation log, the table operation_logs (server/migrations_pg). What a
-- handler passes to `spawn_operation_log` is part of its answer in the other modules.
pub mod Truncate
pub mod Laws
pub mod Bounds
mod Tests
use Prim.Native.String.{compare}
use text.Mathlib.Text.{is_le}
use legal_genie_agent.Prelude.{
  ℕ, String, ◌<>◌, ◌=s◌, Bool, true, false, not, Option, none, some, List, [], ◌∷◌, ◌++◌,
  if◌then◌else◌,
}
use legal_genie_agent.Sql.{Result, ok, err, Action, pure, raise, execute, attempt, ◌>>=◌, ◌>>◌}
use legal_genie_agent.Sql.Rows.{select_where}
use legal_genie_agent.Json.{Json, Fields, null, object, same, get, keys}
use legal_genie_agent.Oplog.Truncate.{truncate}

-- `OperationLogNew`
pub record OperationLogNew : Type 0 where
  pub user_id : String
  pub user_name : String
  pub case_id : Option String
  pub action : String
  pub module' : String
  pub target_type : String
  pub target_id : Option String
  pub target_title : Option String
  pub old_value : Option Json
  pub new_value : Option Json
  pub changed_fields : Option String
  pub ip_address : Option String
  pub user_agent : Option String
  pub request_id : Option String

-- A row of the table `operation_logs`.
pub record LogRow : Type 0 where
  pub id : String
  pub user_id : String
  pub user_name : String
  pub case_id : Option String
  pub action : String
  pub module' : String
  pub target_type : String
  pub target_id : Option String
  pub target_title : Option String
  pub old_value : Option String
  pub new_value : Option String
  pub changed_fields : Option String
  pub ip_address : Option String
  pub user_agent : Option String
  pub request_id : Option String

-- `keys.sort()`
unfoldable pub insert : String → List String → List String
insert k [] = k ∷ []
insert k (x ∷ xs) = let rest = insert k xs in if is_le (compare k x) then k ∷ x ∷ xs else x ∷ rest

unfoldable pub sort : List String → List String
sort [] = []
sort (k ∷ ks) = insert k (sort ks)

-- `keys.dedup()`
unfoldable pub dedup : List String → List String
dedup [] = []
dedup (x ∷ []) = x ∷ []
dedup (x ∷ y ∷ rest) = let later = dedup (y ∷ rest) in if x =s y then later else x ∷ later

-- `changed.join(",")`
unfoldable pub join : List String → String
join [] = ""
join (x ∷ []) = x
join (x ∷ y ∷ rest) = x <> ("," <> join (y ∷ rest))

-- `==` of two values that may be missing
abbrev pub same_value : Option Json → Option Json → Bool
same_value none none = true
same_value (some v) (some w) = same v w
same_value _ _ = false

-- The loop of `extract_changed_fields`.
unfoldable pub changed_keys : Fields → Fields → List String
changed_keys old new =
    select_where (λ k. not (same_value (get k old) (get k new)))
      (dedup (sort (keys old ++ keys new)))

abbrev pub joined : List String → Option String
joined [] = none
joined (k ∷ ks) = some (join (k ∷ ks))

-- `extract_changed_fields`
unfoldable pub extract_changed_fields : Option Json → Option Json → Option String
extract_changed_fields (some (object old)) (some (object new)) = joined (changed_keys old new)
extract_changed_fields _ _ = none

abbrev pub or_extracted : Option String → Option String → Option String
or_extracted (some fields) extracted = some fields
or_extracted none extracted = extracted

-- The beginning of `spawn_operation_log`.
unfoldable pub filled : OperationLogNew → OperationLogNew
filled log = record log {
  changed_fields =
      or_extracted log.changed_fields (extract_changed_fields log.old_value log.new_value);
}

abbrev pub truncated : Option String → ℕ → Option String
truncated none n = none
truncated (some s) n = some (truncate s n)

-- `insert_operation_log` bounds what it writes.
unfoldable pub log_row : String → Option String → Option String → OperationLogNew → LogRow
log_row id old_value new_value log = record {
  id = id;
  user_id = log.user_id;
  user_name = truncate log.user_name 200;
  case_id = log.case_id;
  action = truncate log.action 32;
  module' = truncate log.module' 32;
  target_type = truncate log.target_type 64;
  target_id = truncated log.target_id 128;
  target_title = truncated log.target_title 500;
  old_value = old_value;
  new_value = new_value;
  changed_fields = truncated log.changed_fields 1000;
  ip_address = truncated log.ip_address 100;
  user_agent = truncated log.user_agent 1000;
  request_id = truncated log.request_id 128;
}

abbrev pub Writer : Type 0 → Type 0
Writer A = Action (List LogRow) String A

-- `serde_json::to_string`
module _ (to_string : Json → Result String String) where
  abbrev pub returned : Result String String → Writer (Option String)
  returned (ok s) = pure (some s)
  returned (err e) = raise e

  -- `.map(serde_json::to_string).transpose()?`
  unfoldable pub written : Option Json → Writer (Option String)
  written none = pure none
  written (some v) = returned (to_string v)

  -- `insert_operation_log`
  unfoldable pub insert_operation_log : String → OperationLogNew → Writer (Unit {0})
  insert_operation_log id log = do
    old_value ← written log.old_value
    new_value ← written log.new_value
    execute (λ e. e) (λ rows. (tt, rows ++ log_row id old_value new_value log ∷ []))

  -- `spawn_operation_log`, with the task that it spawns run to its end: an error is only traced.
  unfoldable pub spawn_operation_log : String → OperationLogNew → Writer (Unit {0})
  spawn_operation_log id log = do
    done ← attempt {F = String} (insert_operation_log id (filled log))
    pure tt
