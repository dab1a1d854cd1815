-- ===== src/Accounts/Tests.antt =====
-- Ann logs in, refreshes, changes her password and logs out.
use legal_genie_agent.Prelude.{
  ℕ, ◌+◌, ◌*◌, ◌≤◌, min, String, ◌=s◌, ◌≡◌, ◌↔◌, ◌∙◌, refl, sym, true, false, Option, none, some,
  List, [], ◌∷◌, length, arith,
}
use legal_genie_agent.Errors.{AppError}
use legal_genie_agent.Errors.Make
use legal_genie_agent.Sql.{healthy, ok, err}
use legal_genie_agent.Sql.Rows.{only_row}
use legal_genie_agent.RateLimit.{Clock, billion}
use legal_genie_agent.Context.{RequestMeta}
use legal_genie_agent.Accounts.{
  Account, Accounts, Claims, Argon, Env, AuthUser, find_account, build_access_claims,
  build_refresh_claims, or_zero, decode_jwt,
}
use legal_genie_agent.Accounts.Passwords.{validate_password_strength}
use legal_genie_agent.Accounts.Strength.{IsStrong, validate_password_strength_iff}
use legal_genie_agent.Accounts.Login.{
  Draws, RegisterRequest, register, LoginRequest, LoginResponseData, login, login_key, login_window,
}
use legal_genie_agent.Accounts.Sessions.{
  RefreshResponseData, ChangePasswordRequest, refresh, logout, change_password,
}
use legal_genie_agent.Accounts.Histories.{start}
use legal_genie_agent.Accounts.Revoked.{logout_revokes, change_password_revokes}
use legal_genie_agent.Accounts.Minted.{SameUsers}
use legal_genie_agent.Accounts.Entered.{AreKeyed, IsLogin, login_sound, refresh-login}
use legal_genie_agent.Accounts.Limits.{Attempt, IsGuess, tried, guesses_limited}
use legal_genie_agent.Accounts.Registration.{IsFresh, broken, half_registered}
use legal_genie_agent.Accounts.Sample.{sample, sample-IsJwt, write_text, write_claims}

validate_password_strength_iff_example :
    (validate_password_strength "Passw0rd" ≡ ok tt) ↔ IsStrong "Passw0rd"
validate_password_strength_iff_example = validate_password_strength_iff "Passw0rd"

-- A hash that can be run: the password itself.
abbrev plain : Argon
plain = record { hash = λ salt p. ok p; verify = λ p hash. some (p =s hash) }

abbrev env : Env
env = record {
  jwt_secret = "key";
  jwt_secret_old = none;
  access_token_expire_minutes = 1;
  refresh_token_expire_days = 0;
  trust_proxy_headers = false;
  jwt = sample;
  argon = plain;
  parse_uuid = λ s. some s;
}

abbrev ann : Account
ann = record {
  id = "ann";
  username = "Ann";
  email = "ann@example.org";
  password_hash = "Secret12";
  real_name = none;
  status = "active";
  refresh_token_version = 3;
}

abbrev before : Accounts
before = record { users = ann ∷ []; user_roles = []; counters = []; logged = [] }

abbrev meta : RequestMeta
meta = record { request_id = "r1"; ip_address = some "10.0.0.1"; user_agent = none }

abbrev clock : Clock
clock = record { first = 2000 * billion; second = 2000 * billion; third = 2000 * billion }

abbrev draws : Draws
draws = record {
  user_id = "u2";
  role_id = "x2";
  salt = "s";
  limiter = clock;
  access_at = 5;
  refresh_at = 5;
}

abbrev ann_user : AuthUser
ann_user = record { user_id = "ann"; username = "Ann"; roles = [] }

abbrev signed : Claims → String
signed c = write_text "key" (write_claims c)

abbrev right : LoginRequest
right = record { username = " Ann "; password = "Secret12"; remember_me = false }

abbrev answer : LoginResponseData
answer = record {
  user = record {
    id = "ann";
    username = "Ann";
    email = "ann@example.org";
    real_name = none;
    roles = [];
  };
  access_token = signed (build_access_claims env 5 "ann" "Ann" []);
  refresh_token = signed (build_refresh_claims env 5 "ann" 3);
  expires_in = 60;
}

logs_in_well : (login env draws meta right (healthy before)).0 ≡ ok answer
unfolding login legal_genie_agent.Prelude.trim legal_genie_agent.Accounts.Login.on_counters
    legal_genie_agent.RateLimit.check_and_record legal_genie_agent.Sql.attempt
    legal_genie_agent.Accounts.Login.admit legal_genie_agent.RateLimit.verdict
    legal_genie_agent.RateLimit.record_attempt legal_genie_agent.RateLimit.counted
    legal_genie_agent.Sql.Rows.first_where legal_genie_agent.Accounts.Login.find_named
    legal_genie_agent.Accounts.Login.enter legal_genie_agent.Accounts.verify_password
    legal_genie_agent.Accounts.Login.open_session
    legal_genie_agent.Accounts.fetch_refresh_token_version find_account
    legal_genie_agent.Accounts.encode_jwt legal_genie_agent.Accounts.Login.answer_login login_key
    build_access_claims build_refresh_claims legal_genie_agent.Accounts.log
    legal_genie_agent.Accounts.roles_of legal_genie_agent.Oplog.insert legal_genie_agent.Oplog.sort
    legal_genie_agent.RateLimit.bump legal_genie_agent.RateLimit.has_key
    legal_genie_agent.RateLimit.reset legal_genie_agent.RateLimit.retry_after
    legal_genie_agent.RateLimit.secs legal_genie_agent.Sql.Rows.delete_where
    legal_genie_agent.Sql.Rows.select_where legal_genie_agent.Sql.Rows.update_where sample
    legal_genie_agent.Prelude.is_whitespace legal_genie_agent.Prelude.lower
    legal_genie_agent.Prelude.to_ascii_lowercase legal_genie_agent.Prelude.trim_end
    legal_genie_agent.Prelude.trim_start legal_genie_agent.Prelude.char_at_or
logs_in_well = refl

login_sound_example :
    IsLogin env draws meta right before answer
    × SameUsers (login env draws meta right (healthy before)).1.tables before
login_sound_example = login_sound env draws meta right (healthy before) answer logs_in_well

before-AreKeyed : AreKeyed env before
before-AreKeyed = record {
  canonical = λ u at. refl;
  unique = λ u v at at' same. only_row at ∙ sym (only_row at');
}

refresh-login_example :
    (d : RefreshResponseData) × ((refresh env 60 answer.refresh_token
        (healthy (login env draws meta right (healthy before)).1.tables)).0
      ≡ ok d)
refresh-login_example =
    refresh-login env draws meta right (healthy before) answer 60 sample-IsJwt before-AreKeyed
      logs_in_well (omega arith)

abbrev old_claims : Claims
old_claims = build_refresh_claims env 5 "ann" 3

old_token_opens : decode_jwt env 10 (signed old_claims) ≡ ok old_claims
unfolding decode_jwt sample write_text write_claims build_refresh_claims
    legal_genie_agent.Accounts.Sample.write_number legal_genie_agent.Accounts.Sample.write_texts
    legal_genie_agent.Accounts.Sample.read_text legal_genie_agent.Accounts.Sample.read_number
    legal_genie_agent.Accounts.Sample.read_texts legal_genie_agent.Accounts.Sample.read_claims
    legal_genie_agent.Accounts.Sample.open_token
old_token_opens = refl

logged_out : (logout env meta ann_user (healthy before)).0 ≡ ok tt
unfolding change_password legal_genie_agent.Accounts.Sessions.set_password
    legal_genie_agent.Accounts.hash_password legal_genie_agent.Accounts.verify_password
    legal_genie_agent.Accounts.update_account find_account legal_genie_agent.Sql.Rows.first_where
    legal_genie_agent.Sql.Rows.update_where legal_genie_agent.Accounts.log
    validate_password_strength legal_genie_agent.Accounts.Passwords.any_char
    legal_genie_agent.Accounts.Passwords.is_ascii_uppercase
    legal_genie_agent.Accounts.Passwords.is_ascii_lowercase
    legal_genie_agent.Accounts.Passwords.is_ascii_digit legal_genie_agent.Accounts.Passwords.is_weak
    legal_genie_agent.Prelude.to_ascii_lowercase legal_genie_agent.Prelude.lower logout
    legal_genie_agent.Accounts.bump_refresh_token_version
logged_out = refl

found_ann : find_account "ann" before ≡ some ann
unfolding change_password legal_genie_agent.Accounts.Sessions.set_password
    legal_genie_agent.Accounts.hash_password legal_genie_agent.Accounts.verify_password
    legal_genie_agent.Accounts.update_account find_account legal_genie_agent.Sql.Rows.first_where
    legal_genie_agent.Sql.Rows.update_where legal_genie_agent.Accounts.log
    validate_password_strength legal_genie_agent.Accounts.Passwords.any_char
    legal_genie_agent.Accounts.Passwords.is_ascii_uppercase
    legal_genie_agent.Accounts.Passwords.is_ascii_lowercase
    legal_genie_agent.Accounts.Passwords.is_ascii_digit legal_genie_agent.Accounts.Passwords.is_weak
    legal_genie_agent.Prelude.to_ascii_lowercase legal_genie_agent.Prelude.lower logout
    legal_genie_agent.Accounts.bump_refresh_token_version
found_ann = refl

logout_revokes_example :
    (x : AppError) × ((refresh env 10
        (signed old_claims)
        (healthy (logout env meta ann_user (healthy before)).1.tables)).0
      ≡ err x)
unfolding build_refresh_claims
logout_revokes_example =
    logout_revokes env meta ann_user (healthy before)
      (healthy (logout env meta ann_user (healthy before)).1.tables) ann 10 (signed old_claims)
      old_claims found_ann logged_out start old_token_opens refl (omega arith)

abbrev better : ChangePasswordRequest
better = record { old_password = "Secret12"; new_password = "Better34" }

changed : (change_password env "s" meta ann_user better (healthy before)).0 ≡ ok tt
unfolding change_password legal_genie_agent.Accounts.Sessions.set_password
    legal_genie_agent.Accounts.hash_password legal_genie_agent.Accounts.verify_password
    legal_genie_agent.Accounts.update_account find_account legal_genie_agent.Sql.Rows.first_where
    legal_genie_agent.Sql.Rows.update_where legal_genie_agent.Accounts.log
    validate_password_strength legal_genie_agent.Accounts.Passwords.any_char
    legal_genie_agent.Accounts.Passwords.is_ascii_uppercase
    legal_genie_agent.Accounts.Passwords.is_ascii_lowercase
    legal_genie_agent.Accounts.Passwords.is_ascii_digit legal_genie_agent.Accounts.Passwords.is_weak
    legal_genie_agent.Prelude.to_ascii_lowercase legal_genie_agent.Prelude.lower logout
    legal_genie_agent.Accounts.bump_refresh_token_version
changed = refl

change_password_revokes_example :
    (x : AppError) × ((refresh env 10
        (signed old_claims)
        (healthy (change_password env "s" meta ann_user better (healthy before)).1.tables)).0
      ≡ err x)
unfolding build_refresh_claims
change_password_revokes_example =
    change_password_revokes env "s" meta ann_user better (healthy before)
      (healthy (change_password env "s" meta ann_user better (healthy before)).1.tables) ann 10
      (signed old_claims) old_claims found_ann changed start old_token_opens refl (omega arith)

abbrev wrong : Attempt
wrong = record {
  draws = draws;
  meta = meta;
  req = record { username = "ann"; password = "Secret1"; remember_me = false };
}

wrong-IsGuess : IsGuess env before "login:10.0.0.1:ann" wrong
unfolding login legal_genie_agent.Prelude.trim legal_genie_agent.Accounts.Login.on_counters
    legal_genie_agent.RateLimit.check_and_record legal_genie_agent.Sql.attempt
    legal_genie_agent.Accounts.Login.admit legal_genie_agent.RateLimit.verdict
    legal_genie_agent.RateLimit.record_attempt legal_genie_agent.RateLimit.counted
    legal_genie_agent.Sql.Rows.first_where legal_genie_agent.Accounts.Login.find_named
    legal_genie_agent.Accounts.Login.enter legal_genie_agent.Accounts.verify_password
    legal_genie_agent.Accounts.Login.open_session
    legal_genie_agent.Accounts.fetch_refresh_token_version find_account
    legal_genie_agent.Accounts.encode_jwt legal_genie_agent.Accounts.Login.answer_login login_key
    build_access_claims build_refresh_claims legal_genie_agent.Accounts.log
    legal_genie_agent.Accounts.roles_of legal_genie_agent.Oplog.insert legal_genie_agent.Oplog.sort
    legal_genie_agent.RateLimit.bump legal_genie_agent.RateLimit.has_key
    legal_genie_agent.RateLimit.reset legal_genie_agent.RateLimit.retry_after
    legal_genie_agent.RateLimit.secs legal_genie_agent.Sql.Rows.delete_where
    legal_genie_agent.Sql.Rows.select_where legal_genie_agent.Sql.Rows.update_where sample
    legal_genie_agent.Prelude.is_whitespace legal_genie_agent.Prelude.lower
    legal_genie_agent.Prelude.to_ascii_lowercase legal_genie_agent.Prelude.trim_end
    legal_genie_agent.Prelude.trim_start legal_genie_agent.Prelude.char_at_or
wrong-IsGuess = record { complete = refl; same_key = refl; wrong = refl }

guesses_limited_example :
    tried env (wrong ∷ wrong ∷ []) (healthy before) ≡ min (length (wrong ∷ wrong ∷ [])) 5
unfolding login legal_genie_agent.Prelude.trim legal_genie_agent.Accounts.Login.on_counters
    legal_genie_agent.RateLimit.check_and_record legal_genie_agent.Sql.attempt
    legal_genie_agent.Accounts.Login.admit legal_genie_agent.RateLimit.verdict
    legal_genie_agent.RateLimit.record_attempt legal_genie_agent.RateLimit.counted
    legal_genie_agent.Sql.Rows.first_where legal_genie_agent.Accounts.Login.find_named
    legal_genie_agent.Accounts.Login.enter legal_genie_agent.Accounts.verify_password
    legal_genie_agent.Accounts.Login.open_session
    legal_genie_agent.Accounts.fetch_refresh_token_version find_account
    legal_genie_agent.Accounts.encode_jwt legal_genie_agent.Accounts.Login.answer_login login_key
    build_access_claims build_refresh_claims legal_genie_agent.Accounts.log
    legal_genie_agent.Accounts.roles_of legal_genie_agent.Oplog.insert legal_genie_agent.Oplog.sort
    legal_genie_agent.RateLimit.bump legal_genie_agent.RateLimit.has_key
    legal_genie_agent.RateLimit.reset legal_genie_agent.RateLimit.retry_after
    legal_genie_agent.RateLimit.secs legal_genie_agent.Sql.Rows.delete_where
    legal_genie_agent.Sql.Rows.select_where legal_genie_agent.Sql.Rows.update_where sample
    legal_genie_agent.Prelude.is_whitespace legal_genie_agent.Prelude.lower
    legal_genie_agent.Prelude.to_ascii_lowercase legal_genie_agent.Prelude.trim_end
    legal_genie_agent.Prelude.trim_start legal_genie_agent.Prelude.char_at_or
guesses_limited_example =
    guesses_limited env before "login:10.0.0.1:ann" wrong (wrong ∷ [])
      (wrong-IsGuess, (wrong-IsGuess, tt)) refl (omega arith, tt)

abbrev bob_asks : RegisterRequest
bob_asks = record {
  username = "Bob";
  email = "bob@example.org";
  password = "Passw0rd";
  real_name = none;
}

bob-IsFresh : IsFresh env draws bob_asks "Passw0rd" before
unfolding legal_genie_agent.Prelude.trim legal_genie_agent.Prelude.trim_start
    legal_genie_agent.Prelude.trim_end legal_genie_agent.Prelude.is_whitespace
    legal_genie_agent.Accounts.Login.count_named legal_genie_agent.Sql.Rows.count_where
    legal_genie_agent.Accounts.Login.clashes validate_password_strength
    legal_genie_agent.Accounts.Passwords.any_char
    legal_genie_agent.Accounts.Passwords.is_ascii_uppercase
    legal_genie_agent.Accounts.Passwords.is_ascii_lowercase
    legal_genie_agent.Accounts.Passwords.is_ascii_digit legal_genie_agent.Accounts.Passwords.is_weak
    legal_genie_agent.Prelude.to_ascii_lowercase legal_genie_agent.Prelude.lower
bob-IsFresh = record {
  complete = refl;
  unused = refl;
  strong = refl;
  hashed = refl;
  no_clash = refl;
}

half_registered_example :
    ((register env draws meta bob_asks (broken "timeout" before)).0 ≡ err (Make.db_error "timeout"))
    × ((register env draws meta bob_asks
          (healthy (register env draws meta bob_asks (broken "timeout" before)).1.tables)).0
        ≡ err (Make.conflict "username or email already exists"))
    × ((register env draws meta bob_asks (broken "timeout" before)).1.tables.user_roles ≡ [])
half_registered_example =
    half_registered env draws draws meta bob_asks "Passw0rd" "timeout" before bob-IsFresh
