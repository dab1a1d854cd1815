-- ===== src/Accounts/Rows.antt =====
-- What the handlers of accounts do to the row of an account: its version only grows.
use legal_genie_agent.Prelude.{
  ℕ, ◌+◌, ◌<◌, String, ◌=s◌, ◌≡◌, sym, ap, ◌∙◌, subst, Bool, true, Option, none, some, List, [],
  ◌∷◌, arith, Bool-cases, inl, inr, if◌then◌else◌,
}
use legal_genie_agent.Errors.{AppError}
use legal_genie_agent.Errors.Make
use legal_genie_agent.Sql.{Result, ok, err, Action, statement}
use legal_genie_agent.Sql.Rules.{Keeps, Keeps-statement, Keeps-pure, Keeps-raise, unless-eq-ok}
use legal_genie_agent.Sql.Rows.{
  first_where, first_where_sound, first_where-update_where, first_where-append,
}
use legal_genie_agent.Oplog.{OperationLogNew}
use legal_genie_agent.RateLimit.{Counter}
use legal_genie_agent.Accounts.{
  Account, Accounts, UserRole, Claims, Env, has_id, find_account, update_account, log, encoded,
  encode_jwt, hash_password, hashed, then_hash, verify_password, verified,
}
use legal_genie_agent.Accounts.Login.{on_counters, insert_account, insert_role}

-- The account exists, with a version above `v`.
pub record IsOutdated (user_id : String) (v : ℕ) (t : Accounts) : Type 0 where
  pub account : Account
  pub found : find_account user_id t ≡ some account
  pub newer : v < account.refresh_token_version

module _ (user_id : String) where
  pub found-has_id :
      (t : Accounts) (a : Account) → find_account user_id t ≡ some a → has_id user_id a ≡ true
  unfolding find_account
  found-has_id t a found = (first_where_sound (has_id user_id) t.users found).1

  -- What an update of an account, of the same one or of another, does to the row.
  pub updated :
      (other : String) (f : Account → Account) (t t' : Accounts) (a : Account)
      → ((x : Account) → (f x).id ≡ x.id)
      → find_account user_id t ≡ some a
      → update_account other f t ≡ ok (tt, t')
      → find_account user_id t'
        ≡ some (
            if has_id other a
            then record (f a) { refresh_token_version = a.refresh_token_version + 1 }
            else a)
  unfolding find_account update_account
  updated other f t t' a same_id found done =
      let (fine, same) = unless-eq-ok _ _ _ done in
      ap (λ (s : Accounts). first_where (has_id user_id) s.users) (sym same)
      ∙ first_where-update_where (has_id user_id) (has_id other)
          (λ u. record (f u) { refresh_token_version = u.refresh_token_version + 1 }) t.users
          (λ x. ap (λ i. i =s user_id) (same_id x)) found

  pub inserted :
      (new a : Account) (t t' : Accounts)
      → find_account user_id t ≡ some a
      → insert_account new t ≡ ok (tt, t')
      → find_account user_id t' ≡ some a
  unfolding find_account insert_account
  inserted new a t t' found done =
      let (fresh, same) = unless-eq-ok _ _ _ done in
      ap (λ (s : Accounts). first_where (has_id user_id) s.users) (sym same)
      ∙ first_where-append (has_id user_id) t.users (new ∷ []) found

  module _ (v : ℕ) where
    abbrev Newer : Accounts → Type 0
    Newer t = IsOutdated user_id v t

    pub update_account-Keeps :
        (other : String) (f : Account → Account)
        → ((x : Account) → (f x).id ≡ x.id)
        → Keeps (IsOutdated user_id v) (statement Make.db_error (update_account other f))
    update_account-Keeps other f same_id = Keeps-statement _ _ (λ t h u t' done.
        let now = updated other f t t' h.account same_id h.found done in
        elim (Bool-cases (has_id other h.account)) [
          | inl own ↦ record {
            account = record (f h.account) {
              refresh_token_version = h.account.refresh_token_version + 1;
            };
            found = rw own at now;
            newer = omega (arith, h.newer);
          }
          | inr another ↦ record { account = h.account; found = rw another at now; newer = h.newer }
        ])

    pub insert_account-Keeps :
        (new : Account)
        → Keeps (IsOutdated user_id v) (statement Make.db_error (insert_account new))
    insert_account-Keeps new = Keeps-statement _ _ (λ t h u t' done. record {
      account = h.account;
      found = inserted new h.account t t' h.found done;
      newer = h.newer;
    })

    pub insert_role-Keeps :
        (new : UserRole) → Keeps (IsOutdated user_id v) (statement Make.db_error (insert_role new))
    unfolding insert_role find_account
    insert_role-Keeps new = Keeps-statement _ _ (λ t h u t' done.
        let (fresh, same) = unless-eq-ok _ _ _ done in
        subst Newer same (record { account = h.account; found = h.found; newer = h.newer }))

    pub log-Keeps : (entry : OperationLogNew) → Keeps (IsOutdated user_id v) (log entry)
    unfolding log find_account
    log-Keeps entry = record {
      at = λ w h. record { account = h.account; found = h.found; newer = h.newer };
    }

    pub on_counters-Keeps :
        {A : Type 0} (m : Action (List Counter) String A)
        → Keeps (IsOutdated user_id v) (on_counters m)
    unfolding on_counters find_account
    on_counters-Keeps m = record {
      at = λ w h. record { account = h.account; found = h.found; newer = h.newer };
    }

  encoded-Keeps :
      {P : Accounts → Type 0} (e : Env) (r : Result String String) → Keeps P (encoded e r)
  encoded-Keeps e (ok token) = Keeps-pure token
  encoded-Keeps e (err x) = Keeps-raise _

  pub encode_jwt-Keeps : {P : Accounts → Type 0} (e : Env) (c : Claims) → Keeps P (encode_jwt e c)
  unfolding encode_jwt
  encode_jwt-Keeps e c = encoded-Keeps e _

  hashed-Keeps : {P : Accounts → Type 0} (e : Env) (r : Result String String) → Keeps P (hashed e r)
  hashed-Keeps e (ok hash) = Keeps-pure hash
  hashed-Keeps e (err x) = Keeps-raise _

  then_hash-Keeps :
      {P : Accounts → Type 0} (e : Env) (salt p : String) (r : Result AppError (Unit {0}))
      → Keeps P (then_hash e salt p r)
  then_hash-Keeps e salt p (ok u) = hashed-Keeps e _
  then_hash-Keeps e salt p (err x) = Keeps-raise x

  pub hash_password-Keeps :
      {P : Accounts → Type 0} (e : Env) (salt p : String) → Keeps P (hash_password e salt p)
  unfolding hash_password
  hash_password-Keeps e salt p = then_hash-Keeps e salt p _

  verified-Keeps : {P : Accounts → Type 0} (e : Env) (o : Option Bool) → Keeps P (verified e o)
  verified-Keeps e none = Keeps-raise _
  verified-Keeps e (some b) = Keeps-pure b

  pub verify_password-Keeps :
      {P : Accounts → Type 0} (e : Env) (p hash : String) → Keeps P (verify_password e p hash)
  unfolding verify_password
  verify_password-Keeps e p hash = verified-Keeps e _
