-- ===== src/Accounts/Minted.antt =====
-- What the tokens of a login are, and what it leaves alone.
use legal_genie_agent.Prelude.{
  ℕ, String, ◌≡◌, refl, sym, ap, ◌∙◌, subst, some, List, Option-cases, inl, inr,
}
use legal_genie_agent.Errors.{AppError}
use legal_genie_agent.Errors.Make
use legal_genie_agent.Sql.{World, Result, ok, Result-cases, Action, attempt, ◌>>=◌}
use legal_genie_agent.Sql.Rules.{ok_inj, >>=-eq-ok, query->>=-eq-ok, on_row-eq-ok}
use legal_genie_agent.RateLimit.{Counter, reset}
use legal_genie_agent.Context.{RequestMeta}
use legal_genie_agent.Accounts.{
  Account, Accounts, Claims, Env, Handler, find_account, roles_of, log, encode_jwt,
  build_access_claims, build_refresh_claims, fetch_refresh_token_version, parsed,
}
use legal_genie_agent.Accounts.Login.{
  Draws, LoginResponseData, on_counters, answer_login, open_session,
}

-- Actions that leave the users and their roles alone.
pub record SameUsers (s t : Accounts) : Type 0 where
  pub users : s.users ≡ t.users
  pub user_roles : s.user_roles ≡ t.user_roles

pub SameUsers-trans : {s t u : Accounts} → SameUsers s t → SameUsers t u → SameUsers s u
SameUsers-trans h k = record { users = h.users ∙ k.users; user_roles = h.user_roles ∙ k.user_roles }

pub SameUsers-of_eq : {s t : Accounts} → s ≡ t → SameUsers s t
SameUsers-of_eq h = record {
  users = ap (λ (s : Accounts). s.users) h;
  user_roles = ap (λ (s : Accounts). s.user_roles) h;
}

pub counters-SameUsers :
    {A : Type 0} (m : Action (List Counter) String A) (w : World Accounts)
    → SameUsers (on_counters m w).1.tables w.tables
unfolding on_counters
counters-SameUsers m w = record { users = refl; user_roles = refl }

module _ (e : Env) where
  encode_jwt-eq-ok :
      {B : Type 0} (c : Claims) (k : String → Handler B) (w : World Accounts) {b : B}
      → ((encode_jwt e c >>= k) w).0 ≡ ok b
      → (token : String) × (e.jwt.encode e.jwt_secret c ≡ ok token)
        × ((k token w).0 ≡ ok b)
        × ((encode_jwt e c >>= k) w ≡ k token w)
  unfolding encode_jwt
  encode_jwt-eq-ok c k w h = elim (Result-cases (e.jwt.encode e.jwt_secret c)) [
    | inl (x, failed) ↦ absurd (cc (rw failed at h))
    | inr (token, made) ↦ (token, made, rw made at h, rw made refl)
  ]

  parsed-eq-ok :
      {B : Type 0} (fail : AppError) (s : String) (k : String → Handler B) (w : World Accounts)
      {b : B}
      → ((parsed e fail s >>= k) w).0 ≡ ok b
      → (id : String) × (e.parse_uuid s ≡ some id)
        × ((k id w).0 ≡ ok b)
        × ((parsed e fail s >>= k) w ≡ k id w)
  parsed-eq-ok fail s k w h = elim (Option-cases (e.parse_uuid s)) [
    | inl bad ↦ absurd (cc (rw bad at h))
    | inr (id, good) ↦ (id, good, rw good at h, rw good refl)
  ]

  version-eq-ok :
      {B : Type 0} (user_id : String) (k : ℕ → Handler B) (w : World Accounts) {b : B}
      → ((fetch_refresh_token_version e user_id >>= k) w).0 ≡ ok b
      → (row : Account) × (w' : World Accounts) × (find_account user_id w.tables ≡ some row)
        × (w'.tables ≡ w.tables)
        × ((k row.refresh_token_version w').0 ≡ ok b)
        × ((fetch_refresh_token_version e user_id >>= k) w ≡ k row.refresh_token_version w')
  unfolding fetch_refresh_token_version
  version-eq-ok user_id k w {b = b} h =
      let (v, w1, h1, t1, h2, e1) = >>=-eq-ok (fetch_refresh_token_version e user_id) k w h in
      let (w2, t2, h3, e2) = query->>=-eq-ok Make.db_error (find_account user_id) _ w h1 in
      let (row, found, h4, e3) = on_row-eq-ok (find_account user_id w.tables) _ _ w2 h3 in
      let version : row.refresh_token_version ≡ v = cc h4 in
      let same : w2 ≡ w1 =
        ap (λ (r : Result AppError ℕ × World Accounts). r.1) (sym (e2 ∙ e3)) ∙ t1 in
      (
        row,
        w1,
        found,
        ap (λ (x : World Accounts). x.tables) (sym same) ∙ t2,
        subst (λ n. (k n w1).0 ≡ ok b) (sym version) h2,
        e1 ∙ ap (λ n. k n w1) (sym version),
      )

  module _ (draws : Draws) (meta : RequestMeta) where
    -- The tokens of an answer: of the account with this row.
    pub record AreMinted (t : Accounts) (u : Account) (data' : LoginResponseData) : Type 0 where
      pub user_id : String
      pub canonical : e.parse_uuid u.id ≡ some user_id
      pub row : Account
      pub found : find_account user_id t ≡ some row
      pub access_made :
          e.jwt.encode e.jwt_secret
            (build_access_claims e draws.access_at user_id u.username (roles_of u.id t))
          ≡ ok data'.access_token
      pub refresh_made :
          e.jwt.encode e.jwt_secret
            (build_refresh_claims e draws.refresh_at user_id row.refresh_token_version)
          ≡ ok data'.refresh_token

    answered :
        (key : String) (u : Account) (roles : List String) (access refresh' : String)
        (w : World Accounts) (data' : LoginResponseData)
        → (answer_login e draws meta key u roles access refresh' w).0 ≡ ok data'
        → (access ≡ data'.access_token)
          × (refresh' ≡ data'.refresh_token)
          × SameUsers (answer_login e draws meta key u roles access refresh' w).1.tables w.tables
    unfolding answer_login reset attempt on_counters log
    answered key u roles access refresh' w data' h =
        let same = ok_inj _ _ h in
        (
          ap (λ (d : LoginResponseData). d.access_token) same,
          ap (λ (d : LoginResponseData). d.refresh_token) same,
          record { users = refl; user_roles = refl },
        )

    pub session_minted :
        (key : String) (u : Account) (w : World Accounts) (data' : LoginResponseData)
        → (open_session e draws meta key u w).0 ≡ ok data'
        → AreMinted w.tables u data'
          × SameUsers (open_session e draws meta key u w).1.tables w.tables
    unfolding open_session
    session_minted key u w data' h =
        let (w1, t1, h1, e1) = query->>=-eq-ok Make.db_error (roles_of u.id) _ w h in
        let (user_id, good, h2, e2) = parsed-eq-ok (Make.internal "corrupt user id") u.id _ w1 h1 in
        let (row, w3, found, t3, h3, e3) = version-eq-ok user_id _ w1 h2 in
        let (token, made, h4, e4) = encode_jwt-eq-ok _ _ w3 h3 in
        let (token', made', h5, e5) = encode_jwt-eq-ok _ _ w3 h4 in
        let (access, refresh', kept) = answered key u _ token token' w3 data' h5 in
        let whole = e1 ∙ e2 ∙ e3 ∙ e4 ∙ e5 in
        (
          record {
            user_id = user_id;
            canonical = good;
            row = row;
            found = ap (find_account user_id) (sym t1) ∙ found;
            access_made = made ∙ ap ok access;
            refresh_made = made' ∙ ap ok refresh';
          },
          subst
              (λ (r : Result AppError LoginResponseData × World Accounts).
                SameUsers r.1.tables w.tables)
              (sym whole) (SameUsers-trans kept (SameUsers-of_eq (t3 ∙ t1))),
        )
