-- ===== src/RateLimit.antt =====
-- server/src/rate_limit.rs with server/migrations_pg/0019_rate_limit.sql: the shared counters of
-- attempts. A call reads the clock up to three times, in nanoseconds; the table keeps seconds.
pub mod Laws
mod Tests
use legal_genie_agent.Prelude.{
  ℕ, ◌+◌, ◌-◌, ◌*◌, ◌/◌, String, ◌=s◌, Bool, true, false, Option, none, some, List, [], ◌∷◌, ltb,
  if◌then◌else◌,
}
use legal_genie_agent.Sql.{Result, ok, err, Action, pure, execute, attempt, ◌>>=◌}
use legal_genie_agent.Sql.Rows.{first_where, update_where, delete_where}

-- A row of the table `rate_limit_counters`.
pub record Counter : Type 0 where
  pub key : String
  pub count : ℕ
  pub window_start : ℕ

-- The readings of `Utc::now()`, in the order of the calls.
pub record Clock : Type 0 where
  pub first : ℕ
  pub second : ℕ
  pub third : ℕ

abbrev pub billion : ℕ
billion = 1_000_000_000

-- A time or a duration to the second, as `format` and `as_secs` cut it.
unfoldable pub secs : ℕ → ℕ
secs nanos = nanos / billion

unfoldable pub has_key : String → Counter → Bool
has_key key c = c.key =s key

-- DO UPDATE SET
unfoldable pub bump : ℕ → ℕ → Counter → Counter
bump now_ts window_start_ts c =
    if ltb c.window_start window_start_ts
    then record c { count = 1; window_start = now_ts }
    else record c { count = c.count + 1 }

-- The row that the statement leaves behind (RETURNING).
unfoldable pub counted : String → ℕ → ℕ → List Counter → Counter
counted key now_ts window_start_ts cs = elim (first_where (has_key key) cs) [
  | none ↦ record { key = key; count = 1; window_start = now_ts }
  | some c ↦ bump now_ts window_start_ts c
]

-- INSERT … ON CONFLICT (key) DO UPDATE … RETURNING
unfoldable pub record_attempt : String → ℕ → ℕ → List Counter → Counter × List Counter
record_attempt key now_ts window_start_ts cs = (
  counted key now_ts window_start_ts cs,
  elim (first_where (has_key key) cs) [
    | none ↦ counted key now_ts window_start_ts cs ∷ cs
    | some c ↦ update_where (has_key key) (bump now_ts window_start_ts) cs
  ],
)

-- How long a refused caller has to wait; a window that starts in the future gives the whole window.
unfoldable pub retry_after : ℕ → ℕ → ℕ → ℕ
retry_after now window window_start =
    if ltb now (window_start * billion)
    then secs window + 1
    else secs (window - (now - window_start * billion)) + 1

-- The `match row` of `check_and_record`.
unfoldable pub verdict : ℕ → ℕ → ℕ → Result String Counter → Bool × ℕ
verdict now max_attempts window (ok c) =
    if ltb max_attempts c.count then (false, retry_after now window c.window_start) else (true, 0)
verdict now max_attempts window (err e) = (true, 0)

-- `check_and_record`
unfoldable pub check_and_record : Clock → String → ℕ → ℕ → Action (List Counter) String (Bool × ℕ)
check_and_record clock key max_attempts window =
    let window_start_ts = secs (clock.first - window) in
    do
      row ← attempt (execute (λ e. e) (record_attempt key (secs clock.second) window_start_ts))
      pure (verdict clock.third max_attempts window row)

-- `reset`
unfoldable pub reset : String → Action (List Counter) String (Unit {0})
reset key = do
  done ← attempt (execute {E = String} (λ e. e) (λ cs. (tt, delete_where (has_key key) cs)))
  pure tt
