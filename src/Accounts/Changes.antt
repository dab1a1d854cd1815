-- ===== src/Accounts/Changes.antt =====
-- What a change of a password that returns has checked and done.
use legal_genie_agent.Prelude.{
  ◌+◌, String, ◌≡◌, refl, sym, ap, ◌∙◌, subst, true, Option, none, some, Bool-cases, Option-cases,
  inl, inr, if◌then◌else◌,
}
use legal_genie_agent.Errors.{AppError}
use legal_genie_agent.Errors.Make
use legal_genie_agent.Sql.{World, Result, ok, Result-cases, raise, query, on_row, ◌>>=◌}
use legal_genie_agent.Sql.Rules.{>>=-eq-ok, query-eq-ok, statement_cases}
use legal_genie_agent.Context.{RequestMeta}
use legal_genie_agent.Accounts.{
  Account, Accounts, Env, Handler, AuthUser, invalid_token, invalid_credentials, find_account,
  update_account, has_id, log, hash_password, verify_password,
}
use legal_genie_agent.Accounts.Passwords.{validate_password_strength}
use legal_genie_agent.Accounts.Sessions.{ChangePasswordRequest, set_password, change_password}
use legal_genie_agent.Accounts.Rows.{found-has_id, updated}
use legal_genie_agent.Sql.Rows.{first_where}

abbrev pub with_hash : String → Account → Account
with_hash hash u = record u { password_hash = hash }

module _ (e : Env) (salt : String) (meta : RequestMeta) (user : AuthUser)
    (req : ChangePasswordRequest) where
  -- The new password is strong, and its hash is in the row of the user.
  pub record IsChanged (before after : Accounts) : Type 0 where
    pub strong : validate_password_strength req.new_password ≡ ok tt
    pub new_hash : String
    pub hashed : e.argon.hash salt req.new_password ≡ ok new_hash
    pub tables : Accounts
    pub ran : update_account user.user_id (with_hash new_hash) before ≡ ok (tt, tables)
    pub users : after.users ≡ tables.users

  set_password_done :
      (w : World Accounts)
      → (set_password e salt meta user req w).0 ≡ ok tt
      → IsChanged w.tables (set_password e salt meta user req w).1.tables
  unfolding set_password hash_password log
  set_password_done w h = elim (Result-cases (validate_password_strength req.new_password)) [
    | inl (x, weak) ↦ absurd (cc (rw weak at h))
    | inr (u, strong) ↦ elim (Result-cases (e.argon.hash salt req.new_password)) [
      | inl (x, failed) ↦ absurd (cc (rw (strong, failed) at h))
      | inr (hash, hashed) ↦
          elim (statement_cases {E = AppError} Make.db_error
            (update_account user.user_id (with_hash hash)) w) [
              | inl (x, failed, kept) ↦ absurd (cc (rw (strong, hashed, failed) at h))
              | inr (u', t, ran, done, after) ↦ record {
                strong = strong;
                new_hash = hash;
                hashed = hashed;
                tables = t;
                ran = ran;
                users = rw (strong, hashed, done) (ap (λ s. s.users) after);
              }
            ]
    ]
  ]

  after_find :
      (w : World Accounts) (row : Option Account)
      → (on_row row
          (raise invalid_token)
          (λ u. verify_password e req.old_password u.password_hash >>= λ fits.
            if fits then set_password e salt meta user req else raise invalid_credentials)
          w).0
        ≡ ok tt
      → (u : Account) × (row ≡ some u)
        × (e.argon.verify req.old_password u.password_hash ≡ some true)
        × IsChanged w.tables
            (on_row row
              (raise invalid_token)
              (λ u. verify_password e req.old_password u.password_hash >>= λ fits.
                if fits then set_password e salt meta user req else raise invalid_credentials)
              w).1.tables
  unfolding verify_password
  after_find w none h = absurd (cc h)
  after_find w (some u) h = elim (Option-cases (e.argon.verify req.old_password u.password_hash)) [
    | inl unreadable ↦ absurd (cc (rw unreadable at h))
    | inr (b, read) ↦ elim (Bool-cases b) [
      | inr wrong ↦ absurd (cc (rw (read, wrong) at h))
      | inl right ↦
          let changed : IsChanged w.tables (set_password e salt meta user req w).1.tables =
            set_password_done w (rw (read, right) at h) in
          (u, refl, read ∙ ap some right, rw (read, right) changed)
    ]
  ]

  pub change_password_done :
      (w : World Accounts)
      → (change_password e salt meta user req w).0 ≡ ok tt
      → (u : Account) × (find_account user.user_id w.tables ≡ some u)
        × (e.argon.verify req.old_password u.password_hash ≡ some true)
        × IsChanged w.tables (change_password e salt meta user req w).1.tables
  unfolding change_password
  change_password_done w h =
      let rest : Option Account → Handler (Unit {0}) = λ row. on_row row (raise invalid_token) (λ u.
        verify_password e req.old_password u.password_hash >>= λ fits.
        if fits then set_password e salt meta user req else raise invalid_credentials) in
      let read : Handler (Option Account) = query Make.db_error (find_account user.user_id) in
      let (row, w', h1, t, h2, same) = >>=-eq-ok read rest w h in
      let (found, kept) = query-eq-ok Make.db_error (find_account user.user_id) w h1 in
      let (u, here, fits, changed) = after_find w' row h2 in
      let start : w'.tables ≡ w.tables = ap (λ (x : World Accounts). x.tables) (sym t) ∙ kept in
      (
        u,
        sym found ∙ here,
        fits,
        subst (λ (s : Accounts). IsChanged s (change_password e salt meta user req w).1.tables)
            start
            (subst
              (λ (r : Result AppError (Unit {0}) × World Accounts). IsChanged w'.tables r.1.tables)
              (sym same) changed),
      )

-- A change of password that returns was made with the old password, asks a strong new one, and
-- leaves the user's row with the hash of the new one, under the next version.
pub change_password_changes :
    (e : Env) (salt : String) (meta : RequestMeta) (user : AuthUser) (req : ChangePasswordRequest)
    (w : World Accounts)
    → (change_password e salt meta user req w).0 ≡ ok tt
    → (u : Account) × (hash : String) × (find_account user.user_id w.tables ≡ some u)
      × (e.argon.verify req.old_password u.password_hash ≡ some true)
      × (validate_password_strength req.new_password ≡ ok tt)
      × (e.argon.hash salt req.new_password ≡ ok hash)
      × (find_account user.user_id (change_password e salt meta user req w).1.tables
          ≡ some (record u {
            password_hash = hash;
            refresh_token_version = u.refresh_token_version + 1;
          }))
unfolding find_account
change_password_changes e salt meta user req w h =
    let (u, found, fits, changed) = change_password_done e salt meta user req w h in
    let now =
      updated user.user_id user.user_id (with_hash changed.new_hash) w.tables changed.tables u
        (λ x. refl) found changed.ran in
    (
      u,
      changed.new_hash,
      found,
      fits,
      changed.strong,
      changed.hashed,
      ap (λ us. first_where (has_id user.user_id) us) changed.users
          ∙ rw (found-has_id user.user_id w.tables u found) at now,
    )
