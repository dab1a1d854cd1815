-- ===== src/Accounts.antt =====
-- server/src/routes/auth.rs: accounts, their tokens and passwords, with the tables users and
-- user_roles (server/migrations_pg/0001_init.sql and 0013_refresh_token_version.sql) and the
-- counters of server/src/rate_limit.rs. The crates jsonwebtoken and argon2 are parameters. The identifier of an
-- account is the canonical text of a UUID; times are seconds.
pub mod Passwords
pub mod Strength
pub mod Login
pub mod Sessions
pub mod Rows
pub mod Minted
pub mod Entered
pub mod Histories
pub mod Changes
pub mod Revoked
pub mod Limits
pub mod Registration
mod Sample
mod Tests
use legal_genie_agent.Prelude.{
  ℕ, ◌+◌, ◌*◌, String, ◌<>◌, ◌=s◌, Bool, true, false, not, ◌&&◌, ◌||◌, Option, none, some, List, [],
  ◌∷◌, ◌++◌, any, map, ltb, if◌then◌else◌,
}
use legal_genie_agent.Errors.{AppError}
use legal_genie_agent.Errors.Make
use legal_genie_agent.Sql.{
  World, Result, ok, err, Action, pure, raise, query, statement, on_row, ◌>>=◌, ◌>>◌,
}
use legal_genie_agent.Sql.Rows.{first_where, select_where, update_where}
use legal_genie_agent.RateLimit.{Counter}
use legal_genie_agent.Oplog.{OperationLogNew, sort}
use legal_genie_agent.Accounts.Passwords.{validate_password_strength}

-- A row of the table `users`.
pub record Account : Type 0 where
  pub id : String
  pub username : String
  pub email : String
  pub password_hash : String
  pub real_name : Option String
  pub status : String
  pub refresh_token_version : ℕ

pub record UserRole : Type 0 where
  pub id : String
  pub user_id : String
  pub role_code : String

pub record Accounts : Type 0 where
  pub users : List Account
  pub user_roles : List UserRole
  pub counters : List Counter
  -- what was handed to `spawn_operation_log`, in order
  pub logged : List OperationLogNew

-- `TokenType`
pub data TokenType : Type 0 where
  access refresh : TokenType

-- `Claims`
pub record Claims : Type 0 where
  pub sub : String
  pub username : String
  pub roles : List String
  pub token_type : TokenType
  pub refresh_token_version : Option ℕ
  pub exp : ℕ
  pub iat : ℕ

-- `jsonwebtoken`: a token of the claims under a secret, and the claims of a token which that secret
-- signed and which is not past its end, with a leeway of 60 seconds, at a time.
pub record Jwt : Type 0 where
  pub encode : (secret : String) → Claims → Result String String
  pub decode : (now : ℕ) (secret token : String) → Option Claims

-- `argon2`: the hash of a password with a salt, and whether a password fits a hash, if the hash can
-- be read.
pub record Argon : Type 0 where
  pub hash : (salt password : String) → Result String String
  pub verify : (password hash : String) → Option Bool

-- The configuration (`AppState.config`) and the crates.
pub record Env : Type 0 where
  pub jwt_secret : String
  pub jwt_secret_old : Option String
  pub access_token_expire_minutes : ℕ
  pub refresh_token_expire_days : ℕ
  pub trust_proxy_headers : Bool
  pub jwt : Jwt
  pub argon : Argon
  pub parse_uuid : String → Option String

abbrev pub Handler : Type 0 → Type 0
Handler A = Action Accounts AppError A

-- `spawn_operation_log`, which does not wait for the task that it spawns
unfoldable pub log : OperationLogNew → Handler (Unit {0})
log entry w =
    (ok tt, record w { tables = record w.tables { logged = w.tables.logged ++ entry ∷ [] } })

-- `AuthUser`
pub record AuthUser : Type 0 where
  pub user_id : String
  pub username : String
  pub roles : List String

-- `UserInfo`
pub record UserInfo : Type 0 where
  pub id : String
  pub username : String
  pub email : String
  pub real_name : Option String
  pub roles : List String

abbrev pub invalid_token : AppError
invalid_token = Make.unauthorized_code 401001 "invalid token"

abbrev pub invalid_credentials : AppError
invalid_credentials = Make.unauthorized_code 400101 "invalid credentials"

abbrev pub user_inactive : AppError
user_inactive = Make.forbidden_code 400103 "user inactive"

abbrev pub has_id : String → Account → Bool
has_id user_id u = u.id =s user_id

-- SELECT … FROM users WHERE id = $1 LIMIT 1
unfoldable pub find_account : String → Accounts → Option Account
find_account user_id t = first_where (has_id user_id) t.users

-- SELECT role_code FROM user_roles WHERE user_id = $1 ORDER BY role_code
unfoldable pub roles_of : String → Accounts → List String
roles_of user_id t =
    sort (map (λ r. r.role_code) (select_where (λ r. r.user_id =s user_id) t.user_roles))

-- The largest BIGINT, after which `refresh_token_version + 1` is an error.
abbrev pub max_bigint : ℕ
max_bigint = 9_223_372_036_854_775_807

-- SET refresh_token_version = refresh_token_version + 1, and more, WHERE id = $n
unfoldable pub update_account :
    String → (Account → Account) → Accounts → Result String (Unit {0} × Accounts)
update_account user_id f t =
    if any (λ u. has_id user_id u && not (ltb u.refresh_token_version max_bigint)) t.users
    then err "bigint out of range"
    else ok (
      tt,
      record t {
        users =
            update_where (has_id user_id)
              (λ u. record (f u) { refresh_token_version = u.refresh_token_version + 1 }) t.users;
      },
    )

abbrev pub or_zero : Option ℕ → ℕ
or_zero none = 0
or_zero (some n) = n

module _ (e : Env) where
  -- `decode_jwt`
  unfoldable pub decode_jwt : ℕ → String → Result AppError Claims
  decode_jwt now token = elim (e.jwt.decode now e.jwt_secret token) [
    | some claims ↦ ok claims
    | none ↦ elim e.jwt_secret_old [
      | none ↦ err invalid_token
      | some old ↦ elim (e.jwt.decode now old token) [
        | none ↦ err invalid_token
        | some claims ↦ ok claims
      ]
    ]
  ]

  -- `build_access_claims`, at `now`
  unfoldable pub build_access_claims : ℕ → String → String → List String → Claims
  build_access_claims now user_id username roles = record {
    sub = user_id;
    username = username;
    roles = roles;
    token_type = TokenType.access;
    refresh_token_version = none;
    exp = now + e.access_token_expire_minutes * 60;
    iat = now;
  }

  -- `build_refresh_claims`, at `now`
  unfoldable pub build_refresh_claims : ℕ → String → ℕ → Claims
  build_refresh_claims now user_id version = record {
    sub = user_id;
    username = "";
    roles = [];
    token_type = TokenType.refresh;
    refresh_token_version = some version;
    exp = now + e.refresh_token_expire_days * 86_400;
    iat = now;
  }

  abbrev pub encoded : Result String String → Handler String
  encoded (ok token) = pure token
  encoded (err x) = raise (Make.internal ("jwt encode failed: " <> x))

  -- `encode_jwt`, which is called with the active secret
  unfoldable pub encode_jwt : Claims → Handler String
  encode_jwt claims = encoded (e.jwt.encode e.jwt_secret claims)

  abbrev pub hashed : Result String String → Handler String
  hashed (ok hash) = pure hash
  hashed (err x) = raise (Make.internal ("password hash failed: " <> x))

  abbrev pub then_hash : String → String → Result AppError (Unit {0}) → Handler String
  then_hash salt password (err x) = raise x
  then_hash salt password (ok u) = hashed (e.argon.hash salt password)

  -- `hash_password`; the parameters that the source gives argon2 are valid.
  unfoldable pub hash_password : String → String → Handler String
  hash_password salt password = then_hash salt password (validate_password_strength password)

  abbrev pub verified : Option Bool → Handler Bool
  verified none = raise invalid_credentials
  verified (some b) = pure b

  -- `verify_password`
  unfoldable pub verify_password : String → String → Handler Bool
  verify_password password password_hash = verified (e.argon.verify password password_hash)

  -- `fetch_refresh_token_version`
  unfoldable pub fetch_refresh_token_version : String → Handler ℕ
  fetch_refresh_token_version user_id = do
    row ← query Make.db_error (find_account user_id)
    on_row row (raise invalid_token) λ u. pure u.refresh_token_version

  -- `bump_refresh_token_version`
  unfoldable pub bump_refresh_token_version : String → Handler (Unit {0})
  bump_refresh_token_version user_id = statement Make.db_error (update_account user_id (λ u. u))

  -- `Uuid::parse_str`, with the error of the caller
  abbrev pub parsed : AppError → String → Handler String
  parsed fail s = on_row (e.parse_uuid s) (raise fail) λ id. pure id
