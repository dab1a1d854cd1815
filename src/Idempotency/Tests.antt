-- ===== src/Idempotency/Tests.antt =====
-- A client creates a case and sends the request again.
use legal_genie_agent.Prelude.{
  ℕ, ◌+◌, String, ◌≡◌, refl, true, false, some, none, [], is_empty, trim, arith,
}
use legal_genie_agent.Sql.{World, healthy}
use legal_genie_agent.Sql.Rows.{first_where}
use legal_genie_agent.Idempotency.{
  Store, Request, Response, is_write, is_success, is_recorded, request_key, idempotency_middleware,
}
use legal_genie_agent.Idempotency.Laws.{answer_of, retry_replays}

abbrev create : Request
create = record {
  method = "POST";
  path = "/api/v1/cases";
  idempotency_key = some "k-1";
  authorization = "Bearer t";
}

-- The rest of the server counts the cases.
abbrev start : Store ℕ
start = record { records = []; app = 0 }

abbrev works : Request → World (Store ℕ) → Response × World (Store ℕ)
works req w =
    (answer_of 200 "created", record w { tables = record w.tables { app = w.tables.app + 1 } })

abbrev fails : Request → World (Store ℕ) → Response × World (Store ℕ)
fails req w = (answer_of 409 "conflict", w)

abbrev same : String → String
same s = s

a_write : is_write create.method ≡ true
unfolding is_write
a_write = refl

not_blank : is_empty (trim "k-1") ≡ false
unfolding trim
not_blank = refl

absent :
    (raw : String) → first_where (is_recorded (request_key same create raw)) start.records ≡ none
unfolding first_where
absent raw = refl

success : is_success 200 ≡ true
unfolding is_success
success = refl

failure : is_success 409 ≡ false
unfolding is_success
failure = refl

retry_replays_example :
    idempotency_middleware same fails create
      (idempotency_middleware same works create (healthy start)).1
    ≡ (
      record (answer_of 200 "created") { replayed = true },
      (idempotency_middleware same works create (healthy start)).1,
    )
retry_replays_example =
    retry_replays same create "k-1" works fails start 1 200 "created" a_write refl not_blank
      (omega arith) (absent "k-1") refl success
