-- ===== src/Accounts/Revoked.antt =====
-- Tokens that a logout or a new password revokes, through every later history of the accounts.
use legal_genie_agent.Prelude.{
  ℕ, ◌+◌, ◌≤◌, ◌<◌, String, ◌=s◌, ◌≡◌, refl, sym, ap, ◌∙◌, subst, false, Option, none, some, ◌==◌,
  arith, Bool-cases, inl, inr,
}
use legal_genie_agent.Errors.{AppError}
use legal_genie_agent.Errors.Make
use legal_genie_agent.Sql.{
  World, Result, ok, err, Result-cases, raise, query, statement, on_row, ◌>>=◌,
}
use legal_genie_agent.Sql.Rules.{>>=-eq-ok, query-eq-ok, statement_cases}
use legal_genie_agent.Sql.Rows.{first_where}
use legal_genie_agent.Context.{RequestMeta}
use legal_genie_agent.Accounts.{
  Account, Accounts, Claims, Env, Handler, AuthUser, invalid_token, user_inactive, find_account,
  update_account, or_zero, decode_jwt, bump_refresh_token_version, log, has_id,
}
use legal_genie_agent.Accounts.Login.{user_log}
use legal_genie_agent.Accounts.Sessions.{
  RefreshResponseData, ChangePasswordRequest, is_refresh, renew, refresh_claims, refresh, logout,
  change_password,
}
use legal_genie_agent.Accounts.Changes.{with_hash, change_password_done}
use legal_genie_agent.Accounts.Histories.{Reaches, history-IsOutdated}
use legal_genie_agent.Accounts.Rows.{IsOutdated, found-has_id, updated, log-Keeps}

module _ (e : Env) (user_id : String) (v : ℕ) where
  renew_refused :
      (now : ℕ) (c : Claims) (u : Account) (w : World Accounts)
      → or_zero c.refresh_token_version ≤ v
      → v < u.refresh_token_version
      → (x : AppError) × ((renew e now c user_id u w).0 ≡ err x)
  unfolding renew
  renew_refused now c u w old newer =
      let differ : (or_zero c.refresh_token_version == u.refresh_token_version) ≡ false =
        ground arith in
      elim (Bool-cases (u.status =s "active")) [
        | inl active ↦ rw (active, differ) (invalid_token, refl)
        | inr inactive ↦ rw inactive (user_inactive, refl)
      ]

  found_refused :
      (now : ℕ) (c : Claims) (w : World Accounts)
      → IsOutdated user_id v w.tables
      → or_zero c.refresh_token_version ≤ v
      → (x : AppError) × (((query Make.db_error (find_account user_id) >>= λ row.
              on_row row (raise invalid_token) (renew e now c user_id))
            w).0
          ≡ err x)
  found_refused now c w h old = elim (Result-cases ((read >>= rest) w).0) [
    | inl (x, failed) ↦ (x, failed)
    | inr (data', worked) ↦
        let (row, w', h1, t, h2, same) = >>=-eq-ok read rest w worked in
        let (found, kept) = query-eq-ok Make.db_error (find_account user_id) w h1 in
        let (x, failed) = renew_refused now c h.account w' old h.newer in
        absurd (contradiction row w' (found ∙ h.found) failed h2)
  ]
    where
      read : Handler (Option Account)
      read = query Make.db_error (find_account user_id)

      rest : Option Account → Handler RefreshResponseData
      rest row = on_row row (raise invalid_token) (renew e now c user_id)

      contradiction :
          (row : Option Account) (w' : World Accounts) {x : AppError} {d : RefreshResponseData}
          → row ≡ some h.account
          → (renew e now c user_id h.account w').0 ≡ err x
          → (rest row w').0 ≡ ok d
          → ⊥
      contradiction row w' {d = d} e' failed worked =
          let there : (renew e now c user_id h.account w').0 ≡ ok d = rw e' at worked in
          absurd (cc (there, failed))

  -- A token of a version that is outdated is refused.
  outdated_refused :
      (now : ℕ) (token : String) (c : Claims) (w : World Accounts)
      → IsOutdated user_id v w.tables
      → decode_jwt e now token ≡ ok c
      → e.parse_uuid c.sub ≡ some user_id
      → or_zero c.refresh_token_version ≤ v
      → (x : AppError) × ((refresh e now token w).0 ≡ err x)
  unfolding refresh refresh_claims
  outdated_refused now token c w h decoded sub old = elim (Bool-cases (is_refresh c.token_type)) [
    | inr access ↦ rw (decoded, access) (invalid_token, refl)
    | inl fits ↦ rw (decoded, fits, sub) (found_refused now c w h old)
  ]

module _ (e : Env) (v : ℕ) where
  -- The statement that counts the version up has done so, where it returns.
  update_outdates :
      (user_id : String) (f : Account → Account) (w : World Accounts) (a : Account)
      → ((x : Account) → (f x).id ≡ x.id)
      → find_account user_id w.tables ≡ some a
      → v ≤ a.refresh_token_version
      → (statement {E = AppError} Make.db_error (update_account user_id f) w).0 ≡ ok tt
      → IsOutdated user_id v
          (statement {E = AppError} Make.db_error (update_account user_id f) w).1.tables
  update_outdates user_id f w a same_id found old h =
      elim (statement_cases {E = AppError} Make.db_error (update_account user_id f) w) [
        | inl (x, failed, kept) ↦ absurd (cc (h, failed))
        | inr (u, t, ran, done, after') ↦
            let now = updated user_id user_id f w.tables t a same_id found ran in
            subst (IsOutdated user_id v) (sym after') (record {
              account = record (f a) { refresh_token_version = a.refresh_token_version + 1 };
              found = rw (found-has_id user_id w.tables a found) at now;
              newer = omega (arith, old);
            })
      ]

  logout_outdates :
      (meta : RequestMeta) (user : AuthUser) (w : World Accounts) (a : Account)
      → find_account user.user_id w.tables ≡ some a
      → v ≤ a.refresh_token_version
      → (logout e meta user w).0 ≡ ok tt
      → IsOutdated user.user_id v (logout e meta user w).1.tables
  unfolding logout bump_refresh_token_version
  logout_outdates meta user w a found old h =
      let done : Unit {0} → Handler (Unit {0}) = λ _.
        log (user_log meta user.user_id user.username "LOGOUT" (some user.username) none none) in
      let (u, w', h1, t, h2, same) =
        >>=-eq-ok (bump_refresh_token_version e user.user_id) done w h in
      let bumped = update_outdates user.user_id (λ u. u) w a (λ x. refl) found old h1 in
      subst
        (λ (r : Result AppError (Unit {0}) × World Accounts). IsOutdated user.user_id v r.1.tables)
        (sym same)
        ((log-Keeps user.user_id v _).at w'
          (subst (λ (x : World Accounts). IsOutdated user.user_id v x.tables) t bumped))

  change_password_outdates :
      (salt : String) (meta : RequestMeta) (user : AuthUser) (req : ChangePasswordRequest)
      (w : World Accounts) (a : Account)
      → find_account user.user_id w.tables ≡ some a
      → v ≤ a.refresh_token_version
      → (change_password e salt meta user req w).0 ≡ ok tt
      → IsOutdated user.user_id v (change_password e salt meta user req w).1.tables
  unfolding find_account
  change_password_outdates salt meta user req w a found old h =
      let (u, found', fits, changed) = change_password_done e salt meta user req w h in
      let now =
        updated user.user_id user.user_id (with_hash changed.new_hash) w.tables changed.tables a
          (λ x. refl) found changed.ran in
      record {
        account = record a {
          password_hash = changed.new_hash;
          refresh_token_version = a.refresh_token_version + 1;
        };
        found =
            ap (λ us. first_where (has_id user.user_id) us) changed.users
            ∙ rw (found-has_id user.user_id w.tables a found) at now;
        newer = omega (arith, old);
      }

-- A logout revokes: after a logout that returns, and whatever calls come later and whatever fails
-- in them, `refresh` refuses each token of the account that was made at or before the version that
-- the account had. (docs/IMPLEMENTATION_STATUS.md calls the endpoint stateless, which the code, as
-- its test in tests/api_smoke.rs, is not.)
pub logout_revokes :
    (e : Env) (meta : RequestMeta) (user : AuthUser) (w later : World Accounts) (a : Account)
    (now : ℕ) (token : String) (c : Claims)
    → find_account user.user_id w.tables ≡ some a
    → (logout e meta user w).0 ≡ ok tt
    → Reaches e (logout e meta user w).1.tables later.tables
    → decode_jwt e now token ≡ ok c
    → e.parse_uuid c.sub ≡ some user.user_id
    → or_zero c.refresh_token_version ≤ a.refresh_token_version
    → (x : AppError) × ((refresh e now token later).0 ≡ err x)
logout_revokes e meta user w later a now token c found h past decoded sub old =
    outdated_refused e user.user_id (or_zero c.refresh_token_version) now token c later
      (history-IsOutdated e user.user_id (or_zero c.refresh_token_version) past
        (logout_outdates e (or_zero c.refresh_token_version) meta user w a found old h))
      decoded sub (omega arith)

-- So does a new password: after a change of password that returns, and whatever calls come later,
-- `refresh` refuses each token of the account that was made at or before the version it had.
pub change_password_revokes :
    (e : Env) (salt : String) (meta : RequestMeta) (user : AuthUser) (req : ChangePasswordRequest)
    (w later : World Accounts) (a : Account) (now : ℕ) (token : String) (c : Claims)
    → find_account user.user_id w.tables ≡ some a
    → (change_password e salt meta user req w).0 ≡ ok tt
    → Reaches e (change_password e salt meta user req w).1.tables later.tables
    → decode_jwt e now token ≡ ok c
    → e.parse_uuid c.sub ≡ some user.user_id
    → or_zero c.refresh_token_version ≤ a.refresh_token_version
    → (x : AppError) × ((refresh e now token later).0 ≡ err x)
change_password_revokes e salt meta user req w later a now token c found h past decoded sub old =
    outdated_refused e user.user_id (or_zero c.refresh_token_version) now token c later
      (history-IsOutdated e user.user_id (or_zero c.refresh_token_version) past (
        change_password_outdates e (or_zero c.refresh_token_version) salt meta user req w a found
          old h))
      decoded sub (omega arith)
