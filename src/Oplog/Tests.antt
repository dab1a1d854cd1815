-- ===== src/Oplog/Tests.antt =====
-- The log entry of a change of a name.
use legal_genie_agent.Prelude.{◌≡◌, ◌↔◌, refl, String, none, some}
use legal_genie_agent.Sql.{World, healthy, Result, ok, err}
use legal_genie_agent.Json.{Json, Fields, string, object, empty, field, get}
use legal_genie_agent.Oplog.{
  OperationLogNew, LogRow, extract_changed_fields, filled, log_row, spawn_operation_log,
}
use legal_genie_agent.Oplog.Laws.{no_change_iff}

abbrev old_fields : Fields
old_fields = field "id" (string "k1") (field "name" (string "Lease") empty)

abbrev new_fields : Fields
new_fields =
    field "id" (string "k1") (field "name" (string "Rent") (field "status" (string "active") empty))

name_changed :
    extract_changed_fields (some (object old_fields)) (some (object new_fields))
    ≡ some "name,status"
unfolding extract_changed_fields legal_genie_agent.Oplog.changed_keys
    legal_genie_agent.Sql.Rows.select_where legal_genie_agent.Oplog.dedup
    legal_genie_agent.Oplog.sort legal_genie_agent.Json.keys legal_genie_agent.Oplog.insert get
    legal_genie_agent.Json.same legal_genie_agent.Oplog.join
name_changed = refl

no_change_iff_example :
    (extract_changed_fields (some (object old_fields)) (some (object new_fields)) ≡ none)
    ↔ ((key : String) → get key old_fields ≡ get key new_fields)
no_change_iff_example = no_change_iff old_fields new_fields

abbrev entry : OperationLogNew
entry = record {
  user_id = "ann";
  user_name = "Ann";
  case_id = some "k1";
  action = "UPDATE";
  module' = "case";
  target_type = "case";
  target_id = some "k1";
  target_title = some "Rent";
  old_value = some (object old_fields);
  new_value = some (object new_fields);
  changed_fields = none;
  ip_address = none;
  user_agent = none;
  request_id = some "r1";
}

abbrev print : Json → Result String String
print v = ok "{}"
