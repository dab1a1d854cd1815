-- ===== src/Accounts/Sessions.antt =====
-- `refresh`, `logout`, `me`, `change_password` and the extractor `AuthUser` of
-- server/src/routes/auth.rs.
use text.Mathlib.Text.{starts_with}
use Prim.Native.String.{len, slice}
use legal_genie_agent.Prelude.{
  ℕ, ◌*◌, String, ◌=s◌, Bool, true, false, not, Option, none, some, if◌then◌else◌, ◌==◌, is_empty,
  trim,
}
use legal_genie_agent.Errors.{AppError}
use legal_genie_agent.Errors.Make
use legal_genie_agent.Sql.{Result, ok, err, pure, raise, query, statement, on_row, ◌>>=◌, ◌>>◌}
use legal_genie_agent.Context.{RequestMeta}
use legal_genie_agent.Accounts.{
  Account, TokenType, Claims, Env, Handler, AuthUser, UserInfo, log, invalid_token,
  invalid_credentials, user_inactive, find_account, roles_of, update_account, or_zero, decode_jwt,
  build_access_claims, encode_jwt, hash_password, verify_password, bump_refresh_token_version,
  parsed,
}
use legal_genie_agent.Accounts.Login.{user_log}

-- `RefreshResponseData`
pub record RefreshResponseData : Type 0 where
  pub access_token : String
  pub expires_in : ℕ

-- `ChangePasswordRequest`
pub record ChangePasswordRequest : Type 0 where
  pub old_password : String
  pub new_password : String

abbrev pub is_refresh : TokenType → Bool
is_refresh TokenType.refresh = true
is_refresh TokenType.access = false

abbrev pub returned : Result AppError Claims → Handler Claims
returned (ok claims) = pure claims
returned (err x) = raise x

-- `strip_prefix("Bearer ")`, trimmed, if something is left
unfoldable pub bearer : Option String → Option String
bearer none = none
bearer (some header) =
    let token = trim (slice header 7 (len header)) in
    if starts_with header "Bearer " then (if is_empty token then none else some token) else none

module _ (e : Env) (now : ℕ) where
  -- `refresh`, for the account that the token names.
  unfoldable pub renew : Claims → String → Account → Handler RefreshResponseData
  renew claims user_id u =
      if not (u.status =s "active")
      then raise user_inactive
      else if not (or_zero claims.refresh_token_version == u.refresh_token_version)
      then raise invalid_token
      else (do
        roles ← query Make.db_error (roles_of user_id)
        access_token ← encode_jwt e (build_access_claims e now user_id u.username roles)
        pure (record {
          access_token = access_token;
          expires_in = e.access_token_expire_minutes * 60;
        }))

  -- `refresh`; the clock is read when the token is decoded and when one is made.
  unfoldable pub refresh_claims : Claims → Handler RefreshResponseData
  refresh_claims claims = if not (is_refresh claims.token_type) then raise invalid_token else (do
    user_id ← parsed e invalid_token claims.sub
    row ← query Make.db_error (find_account user_id)
    on_row row (raise invalid_token) (renew claims user_id))

  -- `refresh`
  unfoldable pub refresh : String → Handler RefreshResponseData
  refresh token = do claims ← returned (decode_jwt e now token); refresh_claims claims

  -- `AuthUser::from_request_parts`, of the header Authorization
  unfoldable pub from_request_parts : Option String → Handler AuthUser
  from_request_parts header =
      on_row (bearer header) (raise (Make.unauthorized "missing bearer token")) λ token. do
        claims ← returned (decode_jwt e now token)
        if is_refresh claims.token_type then raise invalid_token else (do
          user_id ← parsed e invalid_token claims.sub
          pure (record { user_id = user_id; username = claims.username; roles = claims.roles }))

module _ (e : Env) where
  -- `logout`
  unfoldable pub logout : RequestMeta → AuthUser → Handler (Unit {0})
  logout meta user = do
    bump_refresh_token_version e user.user_id
    log (user_log meta user.user_id user.username "LOGOUT" (some user.username) none none)

  -- `me`
  unfoldable pub me : AuthUser → Handler UserInfo
  me user = do
    row ← query Make.db_error (find_account user.user_id)
    on_row row (raise invalid_token) λ u. pure (record {
      id = user.user_id;
      username = user.username;
      email = u.email;
      real_name = u.real_name;
      roles = user.roles;
    })

  -- `change_password`, once the old password is verified.
  unfoldable pub set_password :
      String → RequestMeta → AuthUser → ChangePasswordRequest → Handler (Unit {0})
  set_password salt meta user req = do
    new_hash ← hash_password e salt req.new_password
    statement Make.db_error
        (update_account user.user_id (λ u. record u { password_hash = new_hash }))
    log (user_log meta user.user_id user.username "UPDATE" none none (some "password"))

  -- `change_password`
  unfoldable pub change_password :
      String → RequestMeta → AuthUser → ChangePasswordRequest → Handler (Unit {0})
  change_password salt meta user req = do
    row ← query Make.db_error (find_account user.user_id)
    on_row row (raise invalid_token) λ u. do
      fits ← verify_password e req.old_password u.password_hash
      if fits then set_password salt meta user req else raise invalid_credentials
