-- ===== src/Idempotency.antt =====
-- server/src/idempotency.rs: the middleware that records the response of a write under a key of the
-- client, and replays it. The SHA-256 in hexadecimal is the parameter `hash`, the rest of the
-- server (`next.run`) the parameter `next`, which works on the same connection.
pub mod Laws
mod Tests
use Prim.Native.String.{len}
use legal_genie_agent.Prelude.{
  ℕ, ◌%◌, ◌^◌, String, ◌<>◌, ◌=s◌, Bool, true, false, not, ◌&&◌, ◌||◌, Option, none, some, List, [],
  ◌∷◌, ltb, leb, any, if◌then◌else◌, is_empty, trim,
}
use legal_genie_agent.Sql.{World, Result, ok, err, query, statement}
use legal_genie_agent.Sql.Rows.{first_where}

-- A row of the table `idempotency_records`.
pub record Recorded : Type 0 where
  pub request_key : String
  pub status_code : ℕ
  pub response_body : String

-- The table, and all that the rest of the server keeps.
pub record Store (App : Type 0) : Type 0 where
  pub records : List Recorded
  pub app : App

-- The parts of a request that the middleware reads; `authorization` is empty if there is none.
pub record Request : Type 0 where
  pub method : String
  pub path : String
  pub idempotency_key : Option String
  pub authorization : String

-- A response; `body` is what collecting it gives.
pub record Response : Type 0 where
  pub status : ℕ
  pub body : Result String String
  pub replayed : Bool
  pub key : Option String

unfoldable pub is_write : String → Bool
is_write method = method =s "POST" || (method =s "PUT" || (method =s "PATCH" || method =s "DELETE"))

unfoldable pub is_success : ℕ → Bool
is_success status = leb 200 status && ltb status 300

-- `StatusCode::from_u16(status_code as u16).unwrap_or(StatusCode::OK)`
unfoldable pub status_of : ℕ → ℕ
status_of code = let c = code % 2 ^ 16 in if leb 100 c && ltb c 1000 then c else 200

unfoldable pub is_recorded : String → Recorded → Bool
is_recorded key r = r.request_key =s key

abbrev pub replay_of : Recorded → Response
replay_of r = record {
  status = status_of r.status_code;
  body = ok r.response_body;
  replayed = true;
  key = none;
}

module _ {App : Type 0} where
  -- INSERT INTO idempotency_records; `request_key` is UNIQUE.
  unfoldable pub insert_record : Recorded → Store App → Result String (Unit {0} × Store App)
  insert_record r s =
      if any (is_recorded r.request_key) s.records
      then err "duplicate key value violates unique constraint"
      else ok (tt, record s { records = r ∷ s.records })

  -- After a success: the response is recorded, whatever comes of it, and returned. A body that is
  -- not UTF-8 would be recorded with replacement characters; bodies are texts here.
  unfoldable pub record_response :
      String → String → Response → World (Store App) → Response × World (Store App)
  record_response key raw r w = elim r.body [
    | ok text ↦
        let row : Recorded = record {
          request_key = key;
          status_code = r.status;
          response_body = text;
        } in
        let (_, w') = statement (λ e. e) (insert_record row) w in (record r { key = some raw }, w')
    | err e ↦ (record r { body = ok "" }, w)
  ]

unfoldable pub request_key : (String → String) → Request → String → String
request_key hash req key =
    hash (req.method <> "|" <> req.path <> "|" <> key <> "|" <> req.authorization)

module _ {App : Type 0} (hash : String → String) where
  module _ (next : Request → World (Store App) → Response × World (Store App)) where
    -- A request whose response is not on record.
    unfoldable pub run_recorded :
        Request → String → World (Store App) → Response × World (Store App)
    run_recorded req raw w =
        let (r, w') = next req w in
        if is_success r.status then record_response (request_key hash req raw) raw r w' else (r, w')

    -- The `match replay`; a failed lookup leaves the request unprotected.
    unfoldable pub replay_or_run :
        Request
        → String
        → Result String (Option Recorded)
        → World (Store App)
        → Response × World (Store App)
    replay_or_run req raw (ok (some r)) w = (replay_of r, w)
    replay_or_run req raw (ok none) w = run_recorded req raw w
    replay_or_run req raw (err e) w = run_recorded req raw w

    unfoldable pub protect : Request → String → World (Store App) → Response × World (Store App)
    protect req raw w =
        if is_empty (trim raw) || ltb 128 (len raw)
        then next req w
        else let (found, w') =
            query (λ e. e) (λ s. first_where (is_recorded (request_key hash req raw)) s.records)
              w in
          replay_or_run req raw found w'

    -- `idempotency_middleware`
    unfoldable pub idempotency_middleware :
        Request → World (Store App) → Response × World (Store App)
    idempotency_middleware req w =
        if not (is_write req.method)
        then next req w
        else elim req.idempotency_key [ none ↦ next req w | some raw ↦ protect req raw w ]
