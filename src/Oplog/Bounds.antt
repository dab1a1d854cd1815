-- ===== src/Oplog/Bounds.antt =====
-- How large the rows of the operation log are, and what a failed write leaves.
use legal_genie_agent.Prelude.{
  ℕ, ◌≤◌, String, ◌≡◌, refl, ◌⊎◌, inl, inr, Option, none, some, List, [], ◌∷◌, ◌++◌, All,
}
use legal_genie_agent.Sql.{World, Result, ok, err, attempt}
use legal_genie_agent.Sql.Rules.{
  Keeps, Keeps-execute, Keeps-bind, Keeps-attempt, Keeps-pure, Keeps-raise, execute_cases,
}
use legal_genie_agent.Json.{Json}
use legal_genie_agent.Oplog.Truncate.{chars, chars-truncate}
use legal_genie_agent.Oplog.{
  OperationLogNew, LogRow, truncated, log_row, filled, returned, written, insert_operation_log,
  spawn_operation_log,
}

abbrev pub Fits : ℕ → Option String → Type 0
Fits n none = Unit
Fits n (some s) = chars s ≤ n

-- The sizes of a row's texts, in characters.
pub record IsBounded (r : LogRow) : Type 0 where
  pub user_name : chars r.user_name ≤ 200
  pub action : chars r.action ≤ 32
  pub module' : chars r.module' ≤ 32
  pub target_type : chars r.target_type ≤ 64
  pub target_id : Fits 128 r.target_id
  pub target_title : Fits 500 r.target_title
  pub changed_fields : Fits 1000 r.changed_fields
  pub ip_address : Fits 100 r.ip_address
  pub user_agent : Fits 1000 r.user_agent
  pub request_id : Fits 128 r.request_id

truncated-Fits : (o : Option String) (n : ℕ) → Fits n (truncated o n)
truncated-Fits none n = tt
truncated-Fits (some s) n = chars-truncate s n

log_row-IsBounded :
    (id : String) (old_value new_value : Option String) (log : OperationLogNew)
    → IsBounded (log_row id old_value new_value log)
unfolding log_row
log_row-IsBounded id old_value new_value log = record {
  user_name = chars-truncate log.user_name 200;
  action = chars-truncate log.action 32;
  module' = chars-truncate log.module' 32;
  target_type = chars-truncate log.target_type 64;
  target_id = truncated-Fits log.target_id 128;
  target_title = truncated-Fits log.target_title 500;
  changed_fields = truncated-Fits log.changed_fields 1000;
  ip_address = truncated-Fits log.ip_address 100;
  user_agent = truncated-Fits log.user_agent 1000;
  request_id = truncated-Fits log.request_id 128;
}

pub record AreBounded (rows : List LogRow) : Type 0 where
  pub all : All IsBounded rows

All-append :
    (rows : List LogRow) (r : LogRow)
    → All IsBounded rows
    → IsBounded r
    → All IsBounded (rows ++ r ∷ [])
All-append [] r h k = (k, tt)
All-append (x ∷ xs) r (h, hs) k = (h, All-append xs r hs k)

module _ (to_string : Json → Result String String) where
  returned-Keeps :
      {P : List LogRow → Type 0} (r : Result String String) → Keeps P (returned to_string r)
  returned-Keeps (ok s) = Keeps-pure (some s)
  returned-Keeps (err e) = Keeps-raise e

  written-Keeps : {P : List LogRow → Type 0} (v : Option Json) → Keeps P (written to_string v)
  unfolding written
  written-Keeps none = Keeps-pure none
  written-Keeps (some v) = returned-Keeps (to_string v)

  spawned-Keeps :
      (id : String) (log : OperationLogNew)
      → Keeps AreBounded (spawn_operation_log to_string id log)
  unfolding spawn_operation_log insert_operation_log
  spawned-Keeps id log =
      Keeps-bind _ _
        (Keeps-attempt _ (
          Keeps-bind _ _ (written-Keeps (filled log).old_value) (λ old.
            Keeps-bind _ _ (written-Keeps (filled log).new_value) (λ new.
              Keeps-execute _ _ (λ rows h. record {
                all = All-append rows _ h.all (log_row-IsBounded id old new (filled log));
              })))))
        (λ done. Keeps-pure tt)

-- Whichever statements fail, a handler's log entry leaves the rows of the operation log within the
-- sizes that the source names.
pub spawn_operation_log-AreBounded :
    (to_string : Json → Result String String) (id : String) (log : OperationLogNew)
    (w : World (List LogRow))
    → AreBounded w.tables
    → AreBounded (spawn_operation_log to_string id log w).1.tables
spawn_operation_log-AreBounded to_string id log w h = (spawned-Keeps to_string id log).at w h

module _ (to_string : Json → Result String String) where
  returned_cases :
      (r : Result String String) (w : World (List LogRow))
      → ((v : Option String) × (returned to_string r w ≡ (ok v, w)))
        ⊎ ((e : String) × (returned to_string r w ≡ (err e, w)))
  returned_cases (ok s) w = inl (some s, refl)
  returned_cases (err e) w = inr (e, refl)

  written_cases :
      (o : Option Json) (w : World (List LogRow))
      → ((v : Option String) × (written to_string o w ≡ (ok v, w)))
        ⊎ ((e : String) × (written to_string o w ≡ (err e, w)))
  unfolding written
  written_cases none w = inl (none, refl)
  written_cases (some v) w = returned_cases (to_string v) w

  abbrev AppendsOne : String → OperationLogNew → World (List LogRow) → Type 0
  AppendsOne id log w =
      ((insert_operation_log to_string id log w).1.tables ≡ w.tables)
      ⊎ ((old_value : Option String) × (new_value : Option String) × ((insert_operation_log
              to_string id log w).1.tables
            ≡ w.tables ++ log_row id old_value new_value log ∷ []))

  insert_operation_log_cases :
      (id : String) (log : OperationLogNew) (w : World (List LogRow)) → AppendsOne id log w
  unfolding insert_operation_log
  insert_operation_log_cases id log w = elim (written_cases log.old_value w) [
    | inr (e, failed) ↦ rw failed (inl refl)
    | inl (old, first) ↦ elim (written_cases log.new_value w) [
      | inr (e, failed) ↦ rw (first, failed) (inl refl)
      | inl (new, second) ↦
          rw (first, second)
            (elim (execute_cases {E = String} {A = Unit {0}} (λ e. e)
              (λ rows. (tt, rows ++ log_row id old new log ∷ [])) w) [
                | inl (e, failed, kept) ↦ inl kept
                | inr (done, appended) ↦ inr (old, new, appended)
              ])
    ]
  ]

-- Whatever fails, the task that writes a log entry returns, and has appended the entry's row or
-- left the table as it was.
pub spawn_operation_log_cases :
    (to_string : Json → Result String String) (id : String) (log : OperationLogNew)
    (w : World (List LogRow))
    → ((spawn_operation_log to_string id log w).0 ≡ ok tt)
      × (((spawn_operation_log to_string id log w).1.tables ≡ w.tables)
          ⊎ ((old_value : Option String) × (new_value : Option String) × ((spawn_operation_log
                  to_string id log w).1.tables
                ≡ w.tables ++ log_row id old_value new_value (filled log) ∷ [])))
unfolding spawn_operation_log attempt
spawn_operation_log_cases to_string id log w =
    (refl, insert_operation_log_cases to_string id (filled log) w)
