-- ===== src/Accounts/Entered.antt =====
-- What a login that returns has checked, and that its refresh token is good.
use mathlib.Core.List.{Memᴰ}
use legal_genie_agent.Prelude.{
  ℕ, ◌+◌, ◌*◌, ◌≤◌, String, ◌=s◌, ◌≡◌, refl, sym, ap, ◌∙◌, subst, Bool, true, false, ◌||◌, Option,
  some, arith, ◌==◌, Bool-cases, Option-cases, inl, inr, is_empty, trim, eq_iff,
}
use legal_genie_agent.Errors.{AppError}
use legal_genie_agent.Errors.Make
use legal_genie_agent.Sql.{World, healthy, Result, ok}
use legal_genie_agent.Sql.Rules.{>>=-eq-ok, query->>=-eq-ok, on_row-eq-ok, if-eq-ok}
use legal_genie_agent.Sql.Rows.{first_where_sound}
use legal_genie_agent.Accounts.Sessions.{RefreshResponseData, renew, refresh_claims, refresh}
use legal_genie_agent.RateLimit.{check_and_record}
use legal_genie_agent.Context.{RequestMeta}
use legal_genie_agent.Accounts.{
  Account, Accounts, Claims, Jwt, has_id, decode_jwt, Env, find_account, roles_of, encode_jwt,
  verify_password, build_access_claims, build_refresh_claims,
}
use legal_genie_agent.Accounts.Minted.{
  SameUsers, SameUsers-trans, SameUsers-of_eq, counters-SameUsers, AreMinted, session_minted,
}
use legal_genie_agent.Accounts.Login.{
  Draws, LoginRequest, LoginResponseData, on_counters, find_named, enter, admit, login, login_key,
  login_window,
}

module _ (e : Env) where
  module _ (draws : Draws) (meta : RequestMeta) where
    -- What a login has found out.
    pub record IsLogin (req : LoginRequest) (t : Accounts) (data' : LoginResponseData)
        : Type 0 where
      pub user : Account
      pub named : find_named (trim req.username) t ≡ some user
      pub active : user.status ≡ "active"
      pub fits : e.argon.verify req.password user.password_hash ≡ some true
      pub minted : AreMinted e draws meta t user data'

    entered :
        (req : LoginRequest) (key : String) (u : Account) (w : World Accounts)
        (data' : LoginResponseData)
        → (enter e draws meta req key u w).0 ≡ ok data'
        → (u.status ≡ "active")
          × (e.argon.verify req.password u.password_hash ≡ some true)
          × AreMinted e draws meta w.tables u data'
          × SameUsers (enter e draws meta req key u w).1.tables w.tables
    unfolding enter verify_password
    entered req key u w data' h = elim (Bool-cases (u.status =s "active")) [
      | inr inactive ↦ absurd (cc (rw inactive at h))
      | inl active ↦ elim (Option-cases (e.argon.verify req.password u.password_hash)) [
        | inl unreadable ↦ absurd (cc (rw (active, unreadable) at h))
        | inr (b, read) ↦ elim (Bool-cases b) [
          | inr wrong ↦ absurd (cc (rw (active, read, wrong) at h))
          | inl right ↦
              let (minted, kept) =
                session_minted e draws meta key u w data' (rw (active, read, right) at h) in
              (
                (eq_iff u.status "active").0 active,
                read ∙ ap some right,
                minted,
                rw (active, read, right) kept,
              )
        ]
      ]
    ]

    admitted :
        (req : LoginRequest) (key : String) (b : Bool) (n : ℕ) (w : World Accounts)
        (data' : LoginResponseData)
        → (admit e draws meta req key (b, n) w).0 ≡ ok data'
        → IsLogin req w.tables data'
          × SameUsers (admit e draws meta req key (b, n) w).1.tables w.tables
    unfolding admit
    admitted req key false n w data' h = absurd (cc h)
    admitted req key true n w data' h =
        let (w1, t1, h1, e1) =
          query->>=-eq-ok Make.db_error (find_named (trim req.username)) _ w h in
        let (u, named, h2, e2) = on_row-eq-ok (find_named (trim req.username) w.tables) _ _ w1 h1 in
        let (active, fits, minted, kept) = entered req key u w1 data' h2 in
        (
          record {
            user = u;
            named = named;
            active = active;
            fits = fits;
            minted = subst (λ (t : Accounts). AreMinted e draws meta t u data') t1 minted;
          },
          subst
              (λ (r : Result AppError LoginResponseData × World Accounts).
                SameUsers r.1.tables w.tables)
              (sym (e1 ∙ e2)) (SameUsers-trans kept (SameUsers-of_eq t1)),
        )

    IsLogin-SameUsers :
        (req : LoginRequest) (s t : Accounts) (data' : LoginResponseData)
        → SameUsers s t
        → IsLogin req s data'
        → IsLogin req t data'
    unfolding find_named find_account roles_of
    IsLogin-SameUsers req s t data' same h = record {
      user = h.user;
      named = rw (← same.users) h.named;
      active = h.active;
      fits = h.fits;
      minted = record {
        user_id = h.minted.user_id;
        canonical = h.minted.canonical;
        row = h.minted.row;
        found = rw (← same.users) h.minted.found;
        access_made = rw (← same.user_roles) h.minted.access_made;
        refresh_made = h.minted.refresh_made;
      };
    }

    login_done :
        (req : LoginRequest) (w : World Accounts) (data' : LoginResponseData)
        → (login e draws meta req w).0 ≡ ok data'
        → IsLogin req w.tables data' × SameUsers (login e draws meta req w).1.tables w.tables
    unfolding login
    login_done req w data' h =
        let (given, h1, e1) =
          if-eq-ok (is_empty (trim req.username) || is_empty req.password) _ _ w h in
        let key = login_key meta (trim req.username) in
        let check = on_counters (check_and_record draws.limiter key 5 login_window) in
        let (verdict, w1, h2, t2, h3, e2) = >>=-eq-ok check (admit e draws meta req key) w h1 in
        let untouched : SameUsers w1.tables w.tables =
          subst (λ (x : World Accounts). SameUsers x.tables w.tables) t2 (counters-SameUsers _ w) in
        let (entered', kept) = admitted req key verdict.0 verdict.1 w1 data' h3 in
        (
          IsLogin-SameUsers req w1.tables w.tables data' untouched entered',
          subst
              (λ (r : Result AppError LoginResponseData × World Accounts).
                SameUsers r.1.tables w.tables)
              (sym (e1 ∙ e2)) (SameUsers-trans kept untouched),
        )

-- A login that returns, whatever fails in it, was let in by the name and password of an active
-- account, has made its two tokens for that account with the active secret, and leaves all accounts
-- and roles as they were.
pub login_sound :
    (e : Env) (draws : Draws) (meta : RequestMeta) (req : LoginRequest) (w : World Accounts)
    (data' : LoginResponseData)
    → (login e draws meta req w).0 ≡ ok data'
    → IsLogin e draws meta req w.tables data'
      × SameUsers (login e draws meta req w).1.tables w.tables
login_sound e draws meta req w data' h = login_done e draws meta req w data' h

some_inj : {A : Type 0} (a b : A) → Path (Option A) (some a) (some b) → a ≡ b
some_inj a b h = cc h

eq_self : (n : ℕ) → (n == n) ≡ true
eq_self n = ground arith

-- The documented behaviour of jsonwebtoken with HS256: claims can always be signed, and a token
-- that is not past its end, with the leeway, has the claims that its secret signed.
pub record IsJwt (jwt : Jwt) : Type 0 where
  pub encodes : (secret : String) (c : Claims) → (token : String) × (jwt.encode secret c ≡ ok token)
  pub decodes :
      (secret token : String) (c : Claims) (now : ℕ)
      → jwt.encode secret c ≡ ok token
      → now ≤ c.exp + 60
      → jwt.decode now secret token ≡ some c

-- Identifiers are canonical, and belong to one row each.
pub record AreKeyed (e : Env) (t : Accounts) : Type 0 where
  pub canonical : (u : Account) → Memᴰ u t.users → e.parse_uuid u.id ≡ some u.id
  pub unique : (u v : Account) → Memᴰ u t.users → Memᴰ v t.users → u.id ≡ v.id → u ≡ v

module _ (e : Env) (jwt : IsJwt e.jwt) where
  own_row :
      (t : Accounts) (ident user_id : String) (u row : Account)
      → AreKeyed e t
      → find_named ident t ≡ some u
      → e.parse_uuid u.id ≡ some user_id
      → find_account user_id t ≡ some row
      → row ≡ u
  unfolding find_named find_account
  own_row t ident user_id u row keyed named good found =
      let (at, _) = first_where_sound _ t.users named in
      let (at', same) = first_where_sound (has_id user_id) t.users found in
      let own : Path (Option String) (some u.id) (some user_id) =
        sym (keyed.canonical u at) ∙ good in
      keyed.unique row u at' at ((eq_iff row.id user_id).0 same ∙ sym (some_inj _ _ own))

  decoded :
      (now : ℕ) (token : String) (c : Claims)
      → e.jwt.decode now e.jwt_secret token ≡ some c
      → decode_jwt e now token ≡ ok c
  unfolding decode_jwt
  decoded now token c h = ground (arith, h)

  refreshed :
      (t : Accounts) (now made_at : ℕ) (user_id token : String) (row : Account)
      → find_account user_id t ≡ some row
      → row.status ≡ "active"
      → e.parse_uuid user_id ≡ some user_id
      → e.jwt.encode e.jwt_secret (build_refresh_claims e made_at user_id row.refresh_token_version)
        ≡ ok token
      → now ≤ made_at + e.refresh_token_expire_days * 86_400 + 60
      → (d : RefreshResponseData) × ((refresh e now token (healthy t)).0 ≡ ok d)
  unfolding refresh refresh_claims renew build_refresh_claims encode_jwt
  refreshed t now made_at user_id token row found active good made early =
      let c = build_refresh_claims e made_at user_id row.refresh_token_version in
      let read = decoded now token c (jwt.decodes e.jwt_secret token c now made early) in
      let (token', made') =
        jwt.encodes e.jwt_secret
          (build_access_claims e now user_id row.username (roles_of user_id t)) in
      (
        record { access_token = token'; expires_in = e.access_token_expire_minutes * 60 },
        rw
            (
              read,
              good,
              found,
              (eq_iff row.status "active").1 active,
              eq_self row.refresh_token_version,
              made',
            )
            refl,
      )

-- The refresh token of a login is good: over a connection that works, `refresh` accepts it right
-- after the login and until it ends, where jsonwebtoken does as documented and accounts have
-- canonical identifiers of their own.
pub refresh-login :
    (e : Env) (draws : Draws) (meta : RequestMeta) (req : LoginRequest) (w : World Accounts)
    (data' : LoginResponseData) (now : ℕ)
    → IsJwt e.jwt
    → AreKeyed e w.tables
    → (login e draws meta req w).0 ≡ ok data'
    → now ≤ draws.refresh_at + e.refresh_token_expire_days * 86_400 + 60
    → (d : RefreshResponseData) × ((refresh e now data'.refresh_token
          (healthy (login e draws meta req w).1.tables)).0
        ≡ ok d)
unfolding find_account find_named
refresh-login e draws meta req w data' now jwt keyed h early =
    let (entry, kept) = login_done e draws meta req w data' h in
    let minted = entry.minted in
    let row_is =
      own_row e jwt w.tables (trim req.username) minted.user_id entry.user minted.row keyed
        entry.named minted.canonical minted.found in
    let at = (first_where_sound _ w.tables.users entry.named).0 in
    let own : entry.user.id ≡ minted.user_id =
      some_inj _ _ (sym (keyed.canonical entry.user at) ∙ minted.canonical) in
    refreshed e jwt (login e draws meta req w).1.tables now draws.refresh_at minted.user_id
      data'.refresh_token minted.row (rw kept.users minted.found)
      (ap (λ (u : Account). u.status) row_is ∙ entry.active)
      (subst (λ i. e.parse_uuid i ≡ some i) own (keyed.canonical entry.user at)) minted.refresh_made
      early
