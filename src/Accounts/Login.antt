-- ===== src/Accounts/Login.antt =====
-- `register` and `login` of server/src/routes/auth.rs.
use legal_genie_agent.Prelude.{
  ℕ, ◌*◌, String, ◌<>◌, ◌=s◌, Bool, true, false, not, ◌&&◌, ◌||◌, Option, none, some, List, [], ◌∷◌,
  ◌++◌, any, if◌then◌else◌, ltb, is_empty, trim, to_ascii_lowercase,
}
use legal_genie_agent.Errors.Make
use legal_genie_agent.Sql.{
  Result, ok, err, Action, pure, raise, query, statement, on_row, retype, ◌>>=◌, ◌>>◌,
}
use legal_genie_agent.Sql.Rows.{first_where, count_where}
use legal_genie_agent.Json.{Json, null, string, array, object, empty, field, texts}
use legal_genie_agent.Context.{RequestMeta}
use legal_genie_agent.Oplog.{OperationLogNew}
use legal_genie_agent.RateLimit.{Counter, Clock, billion, check_and_record, reset}
use legal_genie_agent.Accounts.{
  Account, UserRole, Accounts, Env, Handler, UserInfo, log, invalid_credentials, user_inactive,
  roles_of, build_access_claims, build_refresh_claims, encode_jwt, hash_password, verify_password,
  fetch_refresh_token_version, parsed,
}

-- `RegisterRequest`
pub record RegisterRequest : Type 0 where
  pub username : String
  pub email : String
  pub password : String
  pub real_name : Option String

-- `LoginRequest`; `remember_me` has no effect.
pub record LoginRequest : Type 0 where
  pub username : String
  pub password : String
  pub remember_me : Bool

-- `LoginResponseData`
pub record LoginResponseData : Type 0 where
  pub user : UserInfo
  pub access_token : String
  pub refresh_token : String
  pub expires_in : ℕ

-- What a call draws: identifiers, a salt, and readings of the clock.
pub record Draws : Type 0 where
  pub user_id : String
  pub role_id : String
  pub salt : String
  pub limiter : Clock
  pub access_at : ℕ
  pub refresh_at : ℕ

-- A `json!` of an optional text
abbrev pub text_or_null : Option String → Json
text_or_null none = null
text_or_null (some s) = string s

-- The log entry of a change of an account.
abbrev pub user_log :
    RequestMeta
    → String
    → String
    → String
    → Option String
    → Option Json
    → Option String
    → OperationLogNew
user_log meta user_id user_name action title new_value changed_fields = record {
  user_id = user_id;
  user_name = user_name;
  case_id = none;
  action = action;
  module' = "user";
  target_type = "user";
  target_id = some user_id;
  target_title = title;
  old_value = none;
  new_value = new_value;
  changed_fields = changed_fields;
  ip_address = meta.ip_address;
  user_agent = meta.user_agent;
  request_id = some meta.request_id;
}

-- An action on the counters, in the connection to all tables.
unfoldable pub on_counters : {A : Type 0} → Action (List Counter) String A → Handler A
on_counters m w =
    let (r, w') = m (record { tables = w.tables.counters; faults = w.faults }) in
    (
      retype Make.db_error r,
      record { tables = record w.tables { counters = w'.tables }; faults = w'.faults },
    )

-- UNIQUE(username), UNIQUE(email) and the primary key
unfoldable pub clashes : Account → Account → Bool
clashes new u = u.id =s new.id || (u.username =s new.username || u.email =s new.email)

-- INSERT INTO users
unfoldable pub insert_account : Account → Accounts → Result String (Unit {0} × Accounts)
insert_account new t =
    if any (clashes new) t.users
    then err "duplicate key value violates unique constraint"
    else ok (tt, record t { users = t.users ++ new ∷ [] })

-- UNIQUE(user_id, role_code) and the primary key
unfoldable pub role_clashes : UserRole → UserRole → Bool
role_clashes new r = r.id =s new.id || (r.user_id =s new.user_id && r.role_code =s new.role_code)

-- INSERT INTO user_roles
unfoldable pub insert_role : UserRole → Accounts → Result String (Unit {0} × Accounts)
insert_role new t =
    if any (role_clashes new) t.user_roles
    then err "duplicate key value violates unique constraint"
    else ok (tt, record t { user_roles = t.user_roles ++ new ∷ [] })

-- SELECT COUNT(1) FROM users WHERE username = $1 OR email = $2
unfoldable pub count_named : String → String → Accounts → ℕ
count_named username email t = count_where (λ u. u.username =s username || u.email =s email) t.users

-- … FROM users WHERE username = $1 OR email = $1 LIMIT 1
unfoldable pub find_named : String → Accounts → Option Account
find_named ident t = first_where (λ u. u.username =s ident || u.email =s ident) t.users

-- The new account of `register`.
abbrev pub new_account : Draws → RegisterRequest → String → Account
new_account draws req password_hash = record {
  id = draws.user_id;
  username = trim req.username;
  email = trim req.email;
  password_hash = password_hash;
  real_name = req.real_name;
  status = "active";
  refresh_token_version = 0;
}

abbrev pub host_role : Draws → UserRole
host_role draws = record { id = draws.role_id; user_id = draws.user_id; role_code = "host_lawyer" }

abbrev pub or_unknown : Option String → String
or_unknown none = "unknown"
or_unknown (some ip) = ip

-- The key of a login's counter.
unfoldable pub login_key : RequestMeta → String → String
login_key meta ident = "login:" <> (or_unknown meta.ip_address <> (":" <> to_ascii_lowercase ident))

-- 15 minutes, in nanoseconds
abbrev pub login_window : ℕ
login_window = 900 * billion

module _ (e : Env) (draws : Draws) (meta : RequestMeta) where
  -- The end of `register`: the log entry, the tokens and the answer.
  unfoldable pub first_tokens : RegisterRequest → Handler LoginResponseData
  first_tokens req = do
    let username = trim req.username
    let roles = "host_lawyer" ∷ []
    log (
        user_log meta draws.user_id username "CREATE" (some username)
          (some (
            object (
              field "email" (string (trim req.email)) (
                field "id" (string draws.user_id) (
                  field "real_name" (text_or_null req.real_name) (
                    field "roles" (array (texts roles))
                      (field "username" (string username) empty)))))))
          none)
    access_token ← encode_jwt e (build_access_claims e draws.access_at draws.user_id username roles)
    refresh_token ← encode_jwt e (build_refresh_claims e draws.refresh_at draws.user_id 0)
    pure (record {
      user = record {
        id = draws.user_id;
        username = username;
        email = trim req.email;
        real_name = req.real_name;
        roles = roles;
      };
      access_token = access_token;
      refresh_token = refresh_token;
      expires_in = e.access_token_expire_minutes * 60;
    })

  -- `register`, behind its checks
  unfoldable pub create_account : RegisterRequest → Handler LoginResponseData
  create_account req = do
    password_hash ← hash_password e draws.salt req.password
    statement Make.db_error (insert_account (new_account draws req password_hash))
    statement Make.db_error (insert_role (host_role draws))
    first_tokens req

  -- `register`
  unfoldable pub register : RegisterRequest → Handler LoginResponseData
  register req =
      if is_empty (trim req.username) || is_empty (trim req.email)
      then raise (Make.bad_request "username/email required")
      else (do
        exists ← query Make.db_error (count_named (trim req.username) (trim req.email))
        if ltb 0 exists
            then raise (Make.conflict "username or email already exists")
            else create_account req)

  -- The end of `login`: the counter is reset, and the login is logged and answered.
  unfoldable pub answer_login :
      String → Account → List String → String → String → Handler LoginResponseData
  answer_login key user roles access_token refresh_token = do
    on_counters (reset key)
    log (
        user_log meta user.id user.username "LOGIN" (some user.username)
          (some (
            object (
              field "email" (string user.email)
                (field "id" (string user.id) (field "username" (string user.username) empty)))))
          none)
    pure (record {
      user = record {
        id = user.id;
        username = user.username;
        email = user.email;
        real_name = user.real_name;
        roles = roles;
      };
      access_token = access_token;
      refresh_token = refresh_token;
      expires_in = e.access_token_expire_minutes * 60;
    })

  -- `login`, once the password is verified.
  unfoldable pub open_session : String → Account → Handler LoginResponseData
  open_session key user = do
    roles ← query Make.db_error (roles_of user.id)
    user_id ← parsed e (Make.internal "corrupt user id") user.id
    version ← fetch_refresh_token_version e user_id
    access_token ← encode_jwt e (build_access_claims e draws.access_at user_id user.username roles)
    refresh_token ← encode_jwt e (build_refresh_claims e draws.refresh_at user_id version)
    answer_login key user roles access_token refresh_token

  -- `login`, once the account is found.
  unfoldable pub enter : LoginRequest → String → Account → Handler LoginResponseData
  enter req key user = if not (user.status =s "active") then raise user_inactive else (do
    fits ← verify_password e req.password user.password_hash
    if fits then open_session key user else raise invalid_credentials)

  -- `login`, past the limit on attempts.
  unfoldable pub admit : LoginRequest → String → Bool × ℕ → Handler LoginResponseData
  admit req key (false, retry_after) = raise (
      Make.too_many_requests_with_retry (some retry_after)
        "too many login attempts, please try again later")
  admit req key (true, retry_after) = do
    row ← query Make.db_error (find_named (trim req.username))
    on_row row (raise invalid_credentials) (enter req key)

  -- `login`
  unfoldable pub login : LoginRequest → Handler LoginResponseData
  login req =
      if is_empty (trim req.username) || is_empty req.password
      then raise (Make.bad_request "username/password required")
      else (do
        let key = login_key meta (trim req.username)
        verdict ← on_counters (check_and_record draws.limiter key 5 login_window)
        admit req key verdict)
