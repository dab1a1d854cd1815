-- ===== src/RateLimit/Laws.antt =====
-- The limit that the counters enforce.
use legal_genie_agent.Prelude.{
  ℕ, ◌+◌, ◌-◌, ◌≤◌, min, String, ◌≡◌, refl, ap, ◌∙◌, Bool, true, false, none, some, List, [], ◌∷◌,
  ltb, if◌then◌else◌, arith, eq_refl, length, All, Bool-cases, inl, inr, ◌⊎◌,
}
use legal_genie_agent.Sql.{World, healthy, Result, ok, err, execute, attempt}
use legal_genie_agent.Sql.Rows.{first_where, update_where}
use legal_genie_agent.RateLimit.{
  Counter, Clock, secs, has_key, bump, counted, record_attempt, retry_after, verdict,
  check_and_record,
}

retry_after_bounds :
    (now window start : ℕ)
    → (1 ≤ retry_after now window start) × (retry_after now window start ≤ secs window + 1)
unfolding retry_after secs
retry_after_bounds now window start = (ground arith, ground arith)

verdict_bounds :
    (now max_attempts window : ℕ) (r : Result String Counter)
    → (((verdict now max_attempts window r).0 ≡ true) × ((verdict now max_attempts window r).1 ≡ 0))
      ⊎ (((verdict now max_attempts window r).0 ≡ false)
          × (1 ≤ (verdict now max_attempts window r).1)
          × ((verdict now max_attempts window r).1 ≤ secs window + 1))
unfolding verdict
verdict_bounds now max_attempts window (err e) = inl (refl, refl)
verdict_bounds now max_attempts window (ok c) = elim (Bool-cases (ltb max_attempts c.count)) [
  | inl over ↦ rw over (
      inr (
        refl,
        (retry_after_bounds now window c.window_start).0,
        (retry_after_bounds now window c.window_start).1,
      ))
  | inr under ↦ rw under (inl (refl, refl))
]

-- The key's counter, while its window is open.
counted_open :
    (key : String) (now_ts cutoff : ℕ) (cs : List Counter) (c : Counter)
    → first_where (has_key key) cs ≡ some c
    → cutoff ≤ c.window_start
    → counted key now_ts cutoff cs ≡ record c { count = c.count + 1 }
unfolding counted bump
counted_open key now_ts cutoff cs c found recent = ground arith

first_where_updated :
    (p : Counter → Bool) (f : Counter → Counter) (cs : List Counter) {c : Counter}
    → ((x : Counter) → p x ≡ true → p (f x) ≡ true)
    → first_where p cs ≡ some c
    → first_where p (update_where p f cs) ≡ some (f c)
unfolding first_where update_where
first_where_updated p f [] k h = absurd (cc h)
first_where_updated p f (x ∷ xs) {c} k h = elim (Bool-cases (p x)) [
  | inl fits ↦ ground (arith, k x fits)
  | inr fails ↦
      let later : first_where p xs ≡ some c = ground arith in
      let found = first_where_updated p f xs k later in ground arith
]

bump_key :
    (key : String) (now_ts cutoff : ℕ) (c : Counter)
    → has_key key c ≡ true
    → has_key key (bump now_ts cutoff c) ≡ true
unfolding has_key bump
bump_key key now_ts cutoff c h = ground arith

fresh_key :
    (key : String) (now_ts : ℕ)
    → has_key key (record { key = key; count = 1; window_start = now_ts }) ≡ true
unfolding has_key
fresh_key key now_ts = eq_refl key

abbrev pub cutoff_of : ℕ → Clock → ℕ
cutoff_of window clock = secs (clock.first - window)

-- Whatever the database does, the check returns: a caller who is let through waits for nothing,
-- and one who is not waits for at least a second and at most a second more than the window.
pub check_and_record_bounds :
    (clock : Clock) (key : String) (max_attempts window : ℕ) (w : World (List Counter))
    → (allowed : Bool) × (wait : ℕ) × ((check_and_record clock key max_attempts window w).0
        ≡ ok (allowed, wait))
      × (((allowed ≡ true) × (wait ≡ 0))
          ⊎ ((allowed ≡ false) × (1 ≤ wait) × (wait ≤ secs window + 1)))
unfolding check_and_record attempt
check_and_record_bounds clock key max_attempts window w =
    let r =
      (execute (λ e. e) (record_attempt key (secs clock.second) (cutoff_of window clock)) w).0 in
    (_, _, refl, verdict_bounds clock.third max_attempts window r)

module _ (key : String) (max_attempts window : ℕ) where
  abbrev granted : Result String (Bool × ℕ) → ℕ
  granted (ok (true, wait)) = 1
  granted (ok (false, wait)) = 0
  granted (err e) = 0

  -- How many of the calls, one after the other, are let through.
  unfoldable pub allowed : List Clock → World (List Counter) → ℕ
  allowed [] w = 0
  allowed (t ∷ ts) w =
      let rest = allowed ts (check_and_record t key max_attempts window w).1 in
      granted (check_and_record t key max_attempts window w).0 + rest

  granted-verdict :
      (now : ℕ) (c : Counter)
      → granted (ok (verdict now max_attempts window (ok c)))
        ≡ (if ltb max_attempts c.count then 0 else 1)
  unfolding verdict
  granted-verdict now c = elim (Bool-cases (ltb max_attempts c.count)) [
    | inl over ↦ rw over refl
    | inr under ↦ rw under refl
  ]

  record_open :
      (now_ts cutoff : ℕ) (cs : List Counter) (c : Counter)
      → first_where (has_key key) cs ≡ some c
      → cutoff ≤ c.window_start
      → record_attempt key now_ts cutoff cs
        ≡ (record c { count = c.count + 1 }, update_where (has_key key) (bump now_ts cutoff) cs)
  unfolding record_attempt
  record_open now_ts cutoff cs c found recent =
      let counts = counted_open key now_ts cutoff cs c found recent in ground arith

  record_fresh :
      (now_ts cutoff : ℕ) (cs : List Counter)
      → first_where (has_key key) cs ≡ none
      → record_attempt key now_ts cutoff cs ≡ (
        record { key = key; count = 1; window_start = now_ts },
        record { key = key; count = 1; window_start = now_ts } ∷ cs,
      )
  unfolding record_attempt counted
  record_fresh now_ts cutoff cs absent = ground arith

  bumped :
      (now_ts cutoff : ℕ) (c : Counter)
      → cutoff ≤ c.window_start
      → bump now_ts cutoff c ≡ record c { count = c.count + 1 }
  unfolding bump
  bumped now_ts cutoff c recent = ground arith

  -- A call while the key's window is open counts one more attempt in that window.
  check_open :
      (t : Clock) (cs : List Counter) (c : Counter)
      → first_where (has_key key) cs ≡ some c
      → cutoff_of window t ≤ c.window_start
      → (cs' : List Counter) × (check_and_record t key max_attempts window (healthy cs) ≡ (
        ok (verdict t.third max_attempts window (ok (record c { count = c.count + 1 }))),
        healthy cs',
      ))
        × (first_where (has_key key) cs' ≡ some (record c { count = c.count + 1 }))
  unfolding check_and_record attempt
  check_open t cs c found recent =
      let now_ts = secs t.second in
      let cutoff = cutoff_of window t in
      (
        update_where (has_key key) (bump now_ts cutoff) cs,
        rw (record_open now_ts cutoff cs c found recent) refl,
        first_where_updated (has_key key) (bump now_ts cutoff) cs (bump_key key now_ts cutoff) found
            ∙ ap some (bumped now_ts cutoff c recent),
      )

  check_fresh :
      (t : Clock) (cs : List Counter)
      → first_where (has_key key) cs ≡ none
      → (cs' : List Counter) × (check_and_record t key max_attempts window (healthy cs) ≡ (
        ok (
            verdict t.third max_attempts window
              (ok (record { key = key; count = 1; window_start = secs t.second }))),
        healthy cs',
      ))
        × (first_where (has_key key) cs'
            ≡ some (record { key = key; count = 1; window_start = secs t.second }))
  unfolding check_and_record attempt first_where
  check_fresh t cs absent = (
    record { key = key; count = 1; window_start = secs t.second } ∷ cs,
    rw (record_fresh (secs t.second) (cutoff_of window t) cs absent) refl,
    rw (fresh_key key (secs t.second)) refl,
  )

  allowed_open :
      (ts : List Clock) (cs : List Counter) (c : Counter)
      → first_where (has_key key) cs ≡ some c
      → All (λ t. cutoff_of window t ≤ c.window_start) ts
      → allowed ts (healthy cs) ≡ min (length ts) (max_attempts - c.count)
  unfolding allowed
  allowed_open [] cs c found recent = omega arith
  allowed_open (t ∷ ts) cs c found (here, later) =
      let (cs', answer, found') = check_open t cs c found here in
      let rest = allowed_open ts cs' (record c { count = c.count + 1 }) found' later in
      let g = granted-verdict t.third (record c { count = c.count + 1 }) in
      rw answer (ground (arith, rest, g))

-- The limit is exact: of the calls for a key without a counter, all of them within the window that
-- the first one opens and over a connection that works, the first `max_attempts` are let through
-- and no other.
pub limit_exact :
    (key : String) (max_attempts window : ℕ) (t : Clock) (ts : List Clock) (cs : List Counter)
    → first_where (has_key key) cs ≡ none
    → All (λ u. cutoff_of window u ≤ secs t.second) ts
    → allowed key max_attempts window (t ∷ ts) (healthy cs) ≡ min (length (t ∷ ts)) max_attempts
unfolding allowed
limit_exact key max_attempts window t ts cs absent recent =
    let first : Counter = record { key = key; count = 1; window_start = secs t.second } in
    let (cs', answer, found) = check_fresh key max_attempts window t cs absent in
    let rest = allowed_open key max_attempts window ts cs' first found recent in
    let g = granted-verdict key max_attempts window t.third first in
    rw answer (ground (arith, rest, g))
