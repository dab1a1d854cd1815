-- ===== src/Idempotency/Laws.antt =====
-- Retries of a write.
use Prim.Native.String.{len}
use legal_genie_agent.Prelude.{
  ℕ, ◌≤◌, String, ◌≡◌, refl, true, false, ◌||◌, none, some, List, [], ◌∷◌, ltb, any, is_empty, trim,
  arith, eq_refl, Bool-cases, Option-cases, inl, inr,
}
use legal_genie_agent.Sql.{World, healthy, ok}
use legal_genie_agent.Sql.Rows.{first_where}
use legal_genie_agent.Idempotency.{
  Recorded, Store, Request, Response, is_write, is_success, status_of, is_recorded, replay_of,
  insert_record, request_key, record_response, run_recorded, replay_or_run, protect,
  idempotency_middleware,
}

none_recorded :
    (key : String) (rs : List Recorded)
    → first_where (is_recorded key) rs ≡ none
    → any (is_recorded key) rs ≡ false
unfolding first_where
none_recorded key [] h = refl
none_recorded key (r ∷ rs) h = elim (Bool-cases (is_recorded key r)) [
  | inl fits ↦ absurd (ground arith)
  | inr fails ↦
      let later : first_where (is_recorded key) rs ≡ none = ground arith in
      ground (arith, none_recorded key rs later)
]

own_key :
    (key text : String) (status : ℕ)
    → is_recorded key (record { request_key = key; status_code = status; response_body = text })
      ≡ true
unfolding is_recorded
own_key key text status = eq_refl key

success_status : (status : ℕ) → is_success status ≡ true → status_of status ≡ status
unfolding is_success status_of
success_status status h = ground arith

abbrev pub answer_of : ℕ → String → Response
answer_of status text = record { status = status; body = ok text; replayed = false; key = none }

abbrev row_of : (String → String) → Request → String → ℕ → String → Recorded
row_of hash req raw status text = record {
  request_key = request_key hash req raw;
  status_code = status;
  response_body = text;
}

module _ {App : Type 0} (hash : String → String) (req : Request) (raw : String)
    (write : is_write req.method ≡ true) (given : req.idempotency_key ≡ some raw)
    (present : is_empty (trim raw) ≡ false) (short : ltb 128 (len raw) ≡ false) where
  first_run :
      (next : Request → World (Store App) → Response × World (Store App)) (s : Store App) (a : App)
      (status : ℕ) (text : String)
      → first_where (is_recorded (request_key hash req raw)) s.records ≡ none
      → next req (healthy s) ≡ (answer_of status text, healthy (record s { app = a }))
      → is_success status ≡ true
      → idempotency_middleware hash next req (healthy s) ≡ (
        record (answer_of status text) { key = some raw },
        healthy (record s { app = a; records = row_of hash req raw status text ∷ s.records }),
      )
  unfolding idempotency_middleware protect replay_or_run run_recorded record_response insert_record
      request_key
  first_run next s a status text absent ran good =
      let fresh = none_recorded (request_key hash req raw) s.records absent in
      rw (write, given, present, short, absent, ran, good, fresh) refl

  found_first :
      (s : Store App) (a : App) (status : ℕ) (text : String)
      → first_where
          (is_recorded (request_key hash req raw))
          (row_of hash req raw status text ∷ s.records)
        ≡ some (row_of hash req raw status text)
  unfolding first_where
  found_first s a status text = rw (own_key (request_key hash req raw) text status) refl

  second_run :
      (next : Request → World (Store App) → Response × World (Store App)) (s : Store App)
      (r : Recorded)
      → first_where (is_recorded (request_key hash req raw)) s.records ≡ some r
      → idempotency_middleware hash next req (healthy s) ≡ (replay_of r, healthy s)
  unfolding idempotency_middleware protect replay_or_run
  second_run next s r found = rw (write, given, present, short, found) refl

-- A write with a key of at most 128 bytes that is not blank, not on record yet, and answered with a
-- success over a connection that works, is done once: the same request sent again gets the same
-- status and body, and the rest of the server is not asked and nothing changes.
pub retry_replays :
    {App : Type 0} (hash : String → String) (req : Request) (raw : String)
    (next again : Request → World (Store App) → Response × World (Store App)) (s : Store App)
    (a : App) (status : ℕ) (text : String)
    → is_write req.method ≡ true
    → req.idempotency_key ≡ some raw
    → is_empty (trim raw) ≡ false
    → len raw ≤ 128
    → first_where (is_recorded (request_key hash req raw)) s.records ≡ none
    → next req (healthy s) ≡ (answer_of status text, healthy (record s { app = a }))
    → is_success status ≡ true
    → idempotency_middleware hash again req (idempotency_middleware hash next req (healthy s)).1 ≡ (
      record (answer_of status text) { replayed = true },
      (idempotency_middleware hash next req (healthy s)).1,
    )
retry_replays hash req raw next again s a status text write given present few absent ran good =
    let short : ltb 128 (len raw) ≡ false = ground arith in
    let first =
      first_run hash req raw write given present short next s a status text absent ran good in
    let after : Store _ = record s {
      app = a;
      records = row_of hash req raw status text ∷ s.records;
    } in
    let second =
      second_run hash req raw write given present short again after
        (row_of hash req raw status text)
        (found_first hash req raw write given present short s a status text) in
    rw (first, second, success_status status good) refl

-- Where nothing is on record for the request, over a connection that works, a response that is not
-- a success is passed on as it is and not recorded: the tables are those that the rest of the
-- server left.
pub failure_not_recorded :
    {App : Type 0} (hash : String → String) (req : Request)
    (next : Request → World (Store App) → Response × World (Store App)) (s : Store App)
    → ((raw : String) → first_where (is_recorded (request_key hash req raw)) s.records ≡ none)
    → is_success (next req (healthy s)).0.status ≡ false
    → idempotency_middleware hash next req (healthy s) ≡ next req (healthy s)
unfolding idempotency_middleware protect
failure_not_recorded hash req next s absent failed = elim (Bool-cases (is_write req.method)) [
  | inr reads ↦ rw reads refl
  | inl writes ↦ elim (Option-cases req.idempotency_key) [
    | inl none_given ↦ simp (writes, none_given)
    | inr (raw, given) ↦ elim (Bool-cases (is_empty (trim raw) || ltb 128 (len raw))) [
      | inl unfit ↦ simp (writes, given, unfit)
      | inr fit ↦ simp (writes, given, fit, absent raw, unrecorded raw)
    ]
  ]
]
  where
    unrecorded :
        (raw : String)
        → replay_or_run hash next req raw (ok none) (healthy s) ≡ next req (healthy s)
    unrecorded raw = unfold replay_or_run in unfold run_recorded in rw failed refl
