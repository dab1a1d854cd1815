-- ===== src/Accounts/Registration.antt =====
-- A registration that fails between its two statements.
use mathlib.Core.List.{Memᴰ}
use legal_genie_agent.Prelude.{
  String, ◌≡◌, refl, ap, ◌∙◌, true, false, ◌||◌, none, some, List, [], ◌∷◌, ◌++◌, any, ltb, lt→ltb,
  eq_refl, is_empty, trim,
}
use legal_genie_agent.Errors.{AppError}
use legal_genie_agent.Errors.Make
use legal_genie_agent.Sql.{World, healthy, Result, ok, err}
use legal_genie_agent.Sql.Rows.{count_where-pos}
use legal_genie_agent.Context.{RequestMeta}
use legal_genie_agent.Accounts.{Account, Accounts, Env, hash_password}
use legal_genie_agent.Accounts.Passwords.{validate_password_strength}
use legal_genie_agent.Accounts.Login.{
  Draws, RegisterRequest, LoginResponseData, clashes, insert_account, count_named, new_account,
  create_account, register,
}

-- A request that the tables allow.
pub record IsFresh (e : Env) (draws : Draws) (req : RegisterRequest) (hash : String) (t : Accounts)
    : Type 0 where
  pub complete : (is_empty (trim req.username) || is_empty (trim req.email)) ≡ false
  pub unused : count_named (trim req.username) (trim req.email) t ≡ 0
  pub strong : validate_password_strength req.password ≡ ok tt
  pub hashed : e.argon.hash draws.salt req.password ≡ ok hash
  pub no_clash : any (clashes (new_account draws req hash)) t.users ≡ false

last_mem : {A : Type 0} (xs : List A) (x : A) → Memᴰ x (xs ++ x ∷ [])
last_mem [] x = Memᴰ.head refl
last_mem (y ∷ ys) x = Memᴰ.tail (last_mem ys x)

abbrev with_account : Account → Accounts → Accounts
with_account u t = record t { users = t.users ++ u ∷ [] }

-- The connection of a registration that breaks at the row of the role.
abbrev pub broken : String → Accounts → World Accounts
broken x t = record { tables = t; faults = none ∷ none ∷ some x ∷ [] }

module _ (e : Env) (draws : Draws) (meta : RequestMeta) (req : RegisterRequest) (hash x : String)
    (t : Accounts) (h : IsFresh e draws req hash t) where
  half_done :
      register e draws meta req (broken x t)
      ≡ (err (Make.db_error x), healthy (with_account (new_account draws req hash) t))
  unfolding register create_account hash_password insert_account
  half_done = rw (h.complete, h.unused, h.strong, h.hashed, h.no_clash) refl

  taken :
      ltb 0 (
        count_named
          (trim req.username)
          (trim req.email)
          (with_account (new_account draws req hash) t))
      ≡ true
  unfolding count_named
  taken = lt→ltb _ _ (
      count_where-pos _ (t.users ++ new_account draws req hash ∷ []) (last_mem t.users _)
        (rw (eq_refl (trim req.username)) refl))

  refused_again :
      (again : Draws)
      → (register e again meta req (healthy (with_account (new_account draws req hash) t))).0
        ≡ err (Make.conflict "username or email already exists")
  unfolding register
  refused_again again = rw (h.complete, taken) refl

-- A registration whose second statement fails answers with an error, but has made the account: the
-- same registration is from then on refused as a conflict, and the account has no role.
pub half_registered :
    (e : Env) (draws again : Draws) (meta : RequestMeta) (req : RegisterRequest) (hash x : String)
    (t : Accounts)
    → IsFresh e draws req hash t
    → ((register e draws meta req (broken x t)).0 ≡ err (Make.db_error x))
      × ((register e again meta req (healthy (register e draws meta req (broken x t)).1.tables)).0
          ≡ err (Make.conflict "username or email already exists"))
      × ((register e draws meta req (broken x t)).1.tables.user_roles ≡ t.user_roles)
half_registered e draws again meta req hash x t h =
    let half = half_done e draws meta req hash x t h in
    (
      ap (λ (r : Result AppError LoginResponseData × World Accounts). r.0) half,
      ap
            (λ (r : Result AppError LoginResponseData × World Accounts).
              (register e again meta req (healthy r.1.tables)).0)
            half
          ∙ refused_again e draws meta req hash x t h again,
      ap (λ (r : Result AppError LoginResponseData × World Accounts). r.1.tables.user_roles) half,
    )
