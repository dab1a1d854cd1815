-- ===== src/Accounts/Histories.antt =====
-- Histories of the accounts: every handler of server/src/routes/auth.rs, in any order, over any
-- connections.
use legal_genie_agent.Prelude.{ℕ, String, refl, Bool, true, false, Option, List}
use legal_genie_agent.Errors.{AppError}
use legal_genie_agent.Sql.{World, Result, ok, err}
use legal_genie_agent.Sql.Rules.{Keeps, Keeps-if, Keeps-bind, Keeps-pure, Keeps-raise, keeps_rules}
use legal_genie_agent.Context.{RequestMeta}
use legal_genie_agent.Accounts.{
  Account, Accounts, Claims, Env, AuthUser, parsed, bump_refresh_token_version,
  fetch_refresh_token_version,
}
use legal_genie_agent.Accounts.Login.{
  Draws, RegisterRequest, LoginRequest, first_tokens, create_account, register, answer_login,
  open_session, enter, admit, login,
}
use legal_genie_agent.Accounts.Sessions.{
  ChangePasswordRequest, returned, renew, refresh_claims, refresh, logout, me, set_password,
  change_password,
}
use legal_genie_agent.Accounts.Rows.{
  IsOutdated, update_account-Keeps, insert_account-Keeps, insert_role-Keeps, log-Keeps,
  on_counters-Keeps, encode_jwt-Keeps, hash_password-Keeps, verify_password-Keeps,
}

-- A call of a handler of accounts.
pub data Call : Type 0 where
  registers : Draws → RequestMeta → RegisterRequest → Call
  logs_in : Draws → RequestMeta → LoginRequest → Call
  refreshes : ℕ → String → Call
  logs_out : RequestMeta → AuthUser → Call
  changes_password : String → RequestMeta → AuthUser → ChangePasswordRequest → Call
  asks : AuthUser → Call

module _ (e : Env) where
  -- The tables after a call, whatever it returns.
  unfoldable pub after : Call → World Accounts → Accounts
  after (registers draws meta req) w = (register e draws meta req w).1.tables
  after (logs_in draws meta req) w = (login e draws meta req w).1.tables
  after (refreshes now token) w = (refresh e now token w).1.tables
  after (logs_out meta user) w = (logout e meta user w).1.tables
  after (changes_password salt meta user req) w = (change_password e salt meta user req w).1.tables
  after (asks user) w = (me e user w).1.tables

  -- Histories: calls one after another, over connections that may fail at any statement.
  pub data Reaches : Accounts → Accounts → Type 0 where
    start : {s : Accounts} → Reaches s s
    call :
        {s t : Accounts}
        → Reaches s t
        → (c : Call) (faults : List (Option String))
        → Reaches s (after c (record { tables = t; faults = faults }))

  module _ (user_id : String) (v : ℕ) where
    abbrev P : Accounts → Type 0
    P = IsOutdated user_id v

    ruleset outdated_rules = (
      keeps_rules, log-Keeps, on_counters-Keeps, insert_account-Keeps, insert_role-Keeps,
      encode_jwt-Keeps, hash_password-Keeps, verify_password-Keeps,
    )

    register-Keeps :
        (draws : Draws) (meta : RequestMeta) (req : RegisterRequest)
        → Keeps (IsOutdated user_id v) (register e draws meta req)
    unfolding register create_account first_tokens
    register-Keeps draws meta req = search outdated_rules depth 20

    parsed-Keeps : (fail : AppError) (s : String) → Keeps (IsOutdated user_id v) (parsed e fail s)
    parsed-Keeps fail s = search keeps_rules depth 6

    open_session-Keeps :
        (draws : Draws) (meta : RequestMeta) (key : String) (u : Account)
        → Keeps (IsOutdated user_id v) (open_session e draws meta key u)
    unfolding open_session answer_login fetch_refresh_token_version
    open_session-Keeps draws meta key u = search (outdated_rules, parsed-Keeps) depth 30

    admit-Keeps :
        (draws : Draws) (meta : RequestMeta) (req : LoginRequest) (key : String) (b : Bool) (n : ℕ)
        → Keeps (IsOutdated user_id v) (admit e draws meta req key (b, n))
    unfolding admit enter
    admit-Keeps draws meta req key false n = Keeps-raise _
    admit-Keeps draws meta req key true n = search (outdated_rules, open_session-Keeps) depth 30

    login-Keeps :
        (draws : Draws) (meta : RequestMeta) (req : LoginRequest)
        → Keeps (IsOutdated user_id v) (login e draws meta req)
    unfolding login
    login-Keeps draws meta req = Keeps-if _ _ _ (Keeps-raise _) (
        Keeps-bind _ _ (on_counters-Keeps user_id v _)
          (λ verdict. admit-Keeps draws meta req _ verdict.0 verdict.1))

    returned-Keeps : (r : Result AppError Claims) → Keeps (IsOutdated user_id v) (returned r)
    returned-Keeps (ok c) = Keeps-pure c
    returned-Keeps (err x) = Keeps-raise x

    refresh-Keeps : (now : ℕ) (token : String) → Keeps (IsOutdated user_id v) (refresh e now token)
    unfolding refresh refresh_claims renew
    refresh-Keeps now token = search (outdated_rules, parsed-Keeps, returned-Keeps) depth 30

    logout-Keeps :
        (meta : RequestMeta) (user : AuthUser) → Keeps (IsOutdated user_id v) (logout e meta user)
    unfolding logout bump_refresh_token_version
    logout-Keeps meta user =
        Keeps-bind _ _ (update_account-Keeps user_id v user.user_id (λ u. u) (λ x. refl))
          (λ _. log-Keeps user_id v _)

    set_password-Keeps :
        (salt : String) (meta : RequestMeta) (user : AuthUser) (req : ChangePasswordRequest)
        → Keeps (IsOutdated user_id v) (set_password e salt meta user req)
    unfolding set_password
    set_password-Keeps salt meta user req =
        Keeps-bind _ _ (hash_password-Keeps user_id e salt _) (λ hash.
          Keeps-bind _ _
            (update_account-Keeps user_id v user.user_id (λ u. record u { password_hash = hash })
              (λ x. refl))
            (λ _. log-Keeps user_id v _))

    change_password-Keeps :
        (salt : String) (meta : RequestMeta) (user : AuthUser) (req : ChangePasswordRequest)
        → Keeps (IsOutdated user_id v) (change_password e salt meta user req)
    unfolding change_password
    change_password-Keeps salt meta user req = search (outdated_rules, set_password-Keeps) depth 30

    me-Keeps : (user : AuthUser) → Keeps (IsOutdated user_id v) (me e user)
    unfolding me
    me-Keeps user = search outdated_rules depth 20

    call-Keeps : (c : Call) (w : World Accounts) → P w.tables → P (after c w)
    unfolding after
    call-Keeps (registers draws meta req) w h = (register-Keeps draws meta req).at w h
    call-Keeps (logs_in draws meta req) w h = (login-Keeps draws meta req).at w h
    call-Keeps (refreshes now token) w h = (refresh-Keeps now token).at w h
    call-Keeps (logs_out meta user) w h = (logout-Keeps meta user).at w h
    call-Keeps (changes_password salt meta user req) w h =
        (change_password-Keeps salt meta user req).at w h
    call-Keeps (asks user) w h = (me-Keeps user).at w h

    pub history-IsOutdated : {s t : Accounts} → Reaches s t → P s → P t
    history-IsOutdated start h = h
    history-IsOutdated (call past c faults) h = call-Keeps c _ (history-IsOutdated past h)
