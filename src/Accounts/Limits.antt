-- ===== src/Accounts/Limits.antt =====
-- Wrong guesses of a password: the limiter of server/src/rate_limit.rs behind `login`.
use legal_genie_agent.Prelude.{
  ℕ, ◌+◌, ◌≤◌, min, String, ◌=s◌, ◌≡◌, refl, ap, ◌∙◌, Bool, true, false, ◌&&◌, ◌||◌, Option, none,
  some, List, [], ◌∷◌, arith, Bool-cases, Option-cases, inl, inr, if◌then◌else◌, is_empty, trim,
  length, All, map,
}
use legal_genie_agent.Errors.{AppError}
use legal_genie_agent.Sql.{World, healthy, Result, ok, err, attempt}
use legal_genie_agent.Sql.Rows.{first_where}
use legal_genie_agent.RateLimit.{Counter, Clock, has_key, secs, check_and_record}
use legal_genie_agent.RateLimit.Laws.{cutoff_of, allowed, limit_exact}
use legal_genie_agent.Context.{RequestMeta}
use legal_genie_agent.Accounts.{
  Account, Accounts, Env, invalid_credentials, user_inactive, verify_password,
}
use legal_genie_agent.Accounts.Login.{
  Draws, LoginRequest, LoginResponseData, on_counters, find_named, enter, admit, login, login_key,
  login_window,
}

pub record Attempt : Type 0 where
  pub draws : Draws
  pub meta : RequestMeta
  pub req : LoginRequest

abbrev pub clock_of : Attempt → Clock
clock_of a = a.draws.limiter

-- An answer other than 429: the attempt has got as far as the account.
abbrev pub passed : Result AppError LoginResponseData → ℕ
passed (ok data') = 1
passed (err (AppError.too_many_requests message code wait)) = 0
passed (err x) = 1

module _ (e : Env) where
  -- How many of the attempts, one after the other, get past the limit.
  unfoldable pub tried : List Attempt → World Accounts → ℕ
  tried [] w = 0
  tried (a ∷ as') w =
      let rest = tried as' (login e a.draws a.meta a.req w).1 in
      passed (login e a.draws a.meta a.req w).0 + rest

  abbrev pub is_true : Option Bool → Bool
  is_true (some true) = true
  is_true _ = false

  abbrev pub fits : String → Option Account → Bool
  fits password none = false
  fits password (some u) = u.status =s "active" && is_true (e.argon.verify password u.password_hash)

  -- An attempt under a key, with a name and a password that fit no active account.
  pub record IsGuess (t : Accounts) (key : String) (a : Attempt) : Type 0 where
    pub complete : (is_empty (trim a.req.username) || is_empty a.req.password) ≡ false
    pub same_key : login_key a.meta (trim a.req.username) ≡ key
    pub wrong : fits a.req.password (find_named (trim a.req.username) t) ≡ false

  abbrev is_limited : AppError → Bool
  is_limited (AppError.too_many_requests message code wait) = true
  is_limited x = false

  admit_wrong :
      (a : Attempt) (key : String) (b : Bool) (n : ℕ) (t : Accounts)
      → fits a.req.password (find_named (trim a.req.username) t) ≡ false
      → (x : AppError) × (admit e a.draws a.meta a.req key (b, n) (healthy t) ≡ (err x, healthy t))
        × (passed (err x) ≡ (if b then 1 else 0))
  unfolding admit enter verify_password
  admit_wrong a key false n t wrong = (_, refl, refl)
  admit_wrong a key true n t wrong = elim (Option-cases (find_named (trim a.req.username) t)) [
    | inl nobody ↦ (invalid_credentials, rw nobody refl, refl)
    | inr (u, found) ↦ elim (Bool-cases (u.status =s "active")) [
      | inr inactive ↦ (user_inactive, rw (found, inactive) refl, refl)
      | inl active ↦ elim (Option-cases (e.argon.verify a.req.password u.password_hash)) [
        | inl unreadable ↦ (invalid_credentials, rw (found, active, unreadable) refl, refl)
        | inr (b, read) ↦ elim (Bool-cases b) [
          | inr no' ↦ (invalid_credentials, rw (found, active, read, no') refl, refl)
          | inl yes' ↦ absurd (cc (rw (found, active, read, yes') at wrong))
        ]
      ]
    ]
  ]

  check_healthy :
      (clock : Clock) (key : String) (cs : List Counter)
      → (b : Bool) × (n : ℕ) × (cs' : List Counter) × (check_and_record clock key 5 login_window
            (healthy cs)
          ≡ (ok (b, n), healthy cs'))
  unfolding check_and_record attempt
  check_healthy clock key cs = (_, _, _, refl)

  login_wrong :
      (t : Accounts) (key : String) (a : Attempt) (cs' : List Counter) (b : Bool) (n : ℕ)
      → IsGuess t key a
      → check_and_record a.draws.limiter key 5 login_window (healthy t.counters)
        ≡ (ok (b, n), healthy cs')
      → ((login e a.draws a.meta a.req (healthy t)).1 ≡ healthy (record t { counters = cs' }))
        × (passed (login e a.draws a.meta a.req (healthy t)).0 ≡ (if b then 1 else 0))
  unfolding login on_counters find_named
  login_wrong t key a cs' b n g checked =
      let (x, answer, count) = admit_wrong a key b n (record t { counters = cs' }) g.wrong in
      (
        rw (g.complete, g.same_key, checked, answer) refl,
        rw (g.complete, g.same_key, checked, answer) count,
      )

  at_counters :
      (t : Accounts) (key : String) (a : Attempt) (cs : List Counter)
      → IsGuess t key a
      → IsGuess (record t { counters = cs }) key a
  unfolding find_named
  at_counters t key a cs g = record {
    complete = g.complete;
    same_key = g.same_key;
    wrong = g.wrong;
  }

  one_guess :
      (t : Accounts) (key : String) (a : Attempt) (as' : List Attempt) (cs cs' : List Counter)
      (b : Bool) (n : ℕ)
      → IsGuess t key a
      → check_and_record (clock_of a) key 5 login_window (healthy cs) ≡ (ok (b, n), healthy cs')
      → tried as' (healthy (record t { counters = cs' }))
        ≡ allowed key 5 login_window (map clock_of as') (healthy cs')
      → tried (a ∷ as') (healthy (record t { counters = cs }))
        ≡ allowed key 5 login_window (map clock_of (a ∷ as')) (healthy cs)
  unfolding tried allowed
  one_guess t key a as' cs cs' true n g checked rest =
      let (left, count) =
        login_wrong (record t { counters = cs }) key a cs' true n (at_counters t key a cs g)
          checked in
      rw (left, checked, count, rest) refl
  one_guess t key a as' cs cs' false n g checked rest =
      let (left, count) =
        login_wrong (record t { counters = cs }) key a cs' false n (at_counters t key a cs g)
          checked in
      rw (left, checked, count, rest) refl

  guesses :
      (t : Accounts) (key : String) (as' : List Attempt) (cs : List Counter)
      → All (IsGuess t key) as'
      → tried as' (healthy (record t { counters = cs }))
        ≡ allowed key 5 login_window (map clock_of as') (healthy cs)
  unfolding tried allowed
  guesses t key [] cs h = refl
  guesses t key (a ∷ as') cs (g, gs) =
      let (b, n, cs', checked) = check_healthy (clock_of a) key cs in
      one_guess t key a as' cs cs' b n g checked (guesses t key as' cs' gs)

length-clocks : (as' : List Attempt) → length (map clock_of as') ≡ length as'
length-clocks [] = refl
length-clocks (a ∷ as') = omega (arith, length-clocks as')

-- At most five wrong guesses: of the attempts under a key without a counter, all of them within the
-- window of 15 minutes that the first one opens, over a connection that works, and none with the
-- password of an active account, the first five get an answer about the account and all others a
-- refusal for the number of attempts.
pub guesses_limited :
    (e : Env) (t : Accounts) (key : String) (a : Attempt) (as' : List Attempt)
    → All (IsGuess e t key) (a ∷ as')
    → first_where (has_key key) t.counters ≡ none
    → All (λ x. cutoff_of login_window x ≤ secs a.draws.limiter.second) (map clock_of as')
    → tried e (a ∷ as') (healthy t) ≡ min (length (a ∷ as')) 5
guesses_limited e t key a as' h absent recent =
    guesses e t key (a ∷ as') t.counters h
    ∙ limit_exact key 5 login_window (clock_of a) (map clock_of as') t.counters absent recent
    ∙ ap (λ n. min n 5) (length-clocks (a ∷ as'))
