-- ===== src/Sql/Rows.antt =====
-- Tables as lists of rows, with the forms of `SELECT`, `UPDATE` and `DELETE` that the code uses.
use mathlib.Core.List.{Memᴰ}
use legal_genie_agent.Prelude.{
  ℕ, ◌+◌, ◌≡◌, ◌≢◌, refl, inl, inr, Bool, true, Option, none, some, List, [], ◌∷◌, ◌++◌, arith,
  if◌then◌else◌, Bool-cases, All, false, ◌≤◌,
}

module _ {ℓ} {A : Type ℓ} where
  -- SELECT … WHERE p LIMIT 1
  unfoldable pub first_where : (A → Bool) → List A → Option A
  first_where p [] = none
  first_where p (r ∷ rs) = if p r then some r else first_where p rs

  -- SELECT … WHERE p
  unfoldable pub select_where : (A → Bool) → List A → List A
  select_where p [] = []
  select_where p (r ∷ rs) = let rest = select_where p rs in if p r then r ∷ rest else rest

  -- UPDATE … SET f WHERE p
  unfoldable pub update_where : (A → Bool) → (A → A) → List A → List A
  update_where p f [] = []
  update_where p f (r ∷ rs) = (if p r then f r else r) ∷ update_where p f rs

  -- DELETE … WHERE p
  unfoldable pub delete_where : (A → Bool) → List A → List A
  delete_where p [] = []
  delete_where p (r ∷ rs) = let rest = delete_where p rs in if p r then rest else r ∷ rest

  -- rows_affected() of such a statement
  unfoldable pub count_where : (A → Bool) → List A → ℕ
  count_where p [] = 0
  count_where p (r ∷ rs) = (if p r then 1 else 0) + count_where p rs

  -- `LIMIT 1` returns a row of the table that fits the condition.
  pub first_where_sound :
      (p : A → Bool) (rs : List A) {r : A} → first_where p rs ≡ some r → Memᴰ r rs × (p r ≡ true)
  unfolding first_where
  first_where_sound p [] e = cc
  first_where_sound p (x ∷ xs) {r} e = elim (Bool-cases (p x)) [
    | inl fits ↦ let same : r ≡ x = ground arith in (Memᴰ.head same, ground arith)
    | inr fails ↦ let (m, h) = first_where_sound p xs {r = r} (ground arith) in (Memᴰ.tail m, h)
  ]

  -- Where one row at most fits, it is found.
  pub first_where_complete :
      (p : A → Bool) (rs : List A) (r : A)
      → Memᴰ r rs
      → p r ≡ true
      → ((s : A) → Memᴰ s rs → p s ≡ true → s ≡ r)
      → first_where p rs ≡ some r
  unfolding first_where
  first_where_complete p [] r m h only = elim m [ ]
  first_where_complete p (x ∷ xs) r (Memᴰ.head e) h only = ground arith
  first_where_complete p (x ∷ xs) r (Memᴰ.tail m) h only = elim (Bool-cases (p x)) [
    | inl fits ↦ let same : x ≡ r = only x (Memᴰ.head refl) fits in ground arith
    | inr fails ↦
        ground
          (arith, first_where_complete p xs r m h (λ (s : A) (n : Memᴰ s xs). only s (Memᴰ.tail n)))
  ]

  -- Where a row fits, `LIMIT 1` returns one.
  pub first_where-ne-none :
      (p : A → Bool) (rs : List A) (r : A) → Memᴰ r rs → p r ≡ true → first_where p rs ≢ none
  unfolding first_where
  first_where-ne-none p [] r m h = elim m [ ]
  first_where-ne-none p (x ∷ xs) r (Memᴰ.head e) h = ground arith
  first_where-ne-none p (x ∷ xs) r (Memᴰ.tail m) h = ground (arith, first_where-ne-none p xs r m h)

  pub select_where_sound :
      (p : A → Bool) (rs : List A) {r : A} → Memᴰ r (select_where p rs) → Memᴰ r rs × (p r ≡ true)
  unfolding select_where
  select_where_sound p [] m = elim m [ ]
  select_where_sound p (x ∷ xs) {r} m = elim (Bool-cases (p x)) [
    | inl fits ↦ at_head fits (rw fits at m) (λ n. select_where_sound p xs n)
    | inr fails ↦ let (n, h) = select_where_sound p xs (rw fails at m) in (Memᴰ.tail n, h)
  ]
    where
      at_head :
          p x ≡ true
          → Memᴰ r (x ∷ select_where p xs)
          → (Memᴰ r (select_where p xs) → Memᴰ r xs × (p r ≡ true))
          → Memᴰ r (x ∷ xs) × (p r ≡ true)
      at_head fits (Memᴰ.head e) ih = (Memᴰ.head e, rw e fits)
      at_head fits (Memᴰ.tail n) ih = let (k, h) = ih n in (Memᴰ.tail k, h)

  pub select_where_complete :
      (p : A → Bool) (rs : List A) {r : A} → Memᴰ r rs → p r ≡ true → Memᴰ r (select_where p rs)
  unfolding select_where
  select_where_complete p [] m h = elim m [ ]
  select_where_complete p (x ∷ xs) (Memᴰ.head e) h =
      let fits : p x ≡ true = rw (← e) h in rw fits (Memᴰ.head e)
  select_where_complete p (x ∷ xs) (Memᴰ.tail m) h = elim (Bool-cases (p x)) [
    | inl fits ↦ rw fits (Memᴰ.tail (select_where_complete p xs m h))
    | inr fails ↦ rw fails (select_where_complete p xs m h)
  ]

  pub count_where-pos :
      (p : A → Bool) (rs : List A) {r : A} → Memᴰ r rs → p r ≡ true → 1 ≤ count_where p rs
  unfolding count_where
  count_where-pos p [] m h = elim m [ ]
  count_where-pos p (x ∷ xs) (Memᴰ.head e) h = ground arith
  count_where-pos p (x ∷ xs) (Memᴰ.tail m) h = omega (arith, count_where-pos p xs m h)

  pub mem-update_where :
      (p : A → Bool) (f : A → A) (rs : List A) {s : A}
      → Memᴰ s (update_where p f rs)
      → (r : A) × Memᴰ r rs × (s ≡ (if p r then f r else r))
  unfolding update_where
  mem-update_where p f [] m = elim m [ ]
  mem-update_where p f (x ∷ xs) (Memᴰ.head e) = (x, Memᴰ.head refl, e)
  mem-update_where p f (x ∷ xs) (Memᴰ.tail m) =
      let (r, n, e) = mem-update_where p f xs m in (r, Memᴰ.tail n, e)

  pub update_where-mem :
      (p : A → Bool) (f : A → A) (rs : List A) {r : A}
      → Memᴰ r rs
      → Memᴰ (if p r then f r else r) (update_where p f rs)
  unfolding update_where
  update_where-mem p f [] m = elim m [ ]
  update_where-mem p f (x ∷ xs) (Memᴰ.head e) = Memᴰ.head (rw e refl)
  update_where-mem p f (x ∷ xs) (Memᴰ.tail m) = Memᴰ.tail (update_where-mem p f xs m)

module _ {ℓ} {A : Type ℓ} where
  -- A row that is found is still found, changed, after an update that does not touch what it is
  -- found by.
  pub first_where-update_where :
      (p q : A → Bool) (f : A → A) (rs : List A) {r : A}
      → ((x : A) → p (f x) ≡ p x)
      → first_where p rs ≡ some r
      → first_where p (update_where q f rs) ≡ some (if q r then f r else r)
  unfolding first_where update_where
  first_where-update_where p q f [] k h = absurd (cc h)
  first_where-update_where p q f (x ∷ xs) {r} k h = elim (Bool-cases (q x)) [
    | inl changed ↦ elim (Bool-cases (p x)) [
      | inl fits ↦
          rw (changed, k x, fits) (let same : x ≡ r = ground arith in rw (← same, changed) refl)
      | inr fails ↦ rw (changed, k x, fails) (first_where-update_where p q f xs k (rw fails at h))
    ]
    | inr kept ↦ elim (Bool-cases (p x)) [
      | inl fits ↦ rw (kept, fits) (let same : x ≡ r = ground arith in rw (← same, kept) refl)
      | inr fails ↦ rw (kept, fails) (first_where-update_where p q f xs k (rw fails at h))
    ]
  ]

  pub first_where-append :
      (p : A → Bool) (rs ss : List A) {r : A}
      → first_where p rs ≡ some r
      → first_where p (rs ++ ss) ≡ some r
  unfolding first_where
  first_where-append p [] ss h = absurd (cc h)
  first_where-append p (x ∷ xs) ss h = elim (Bool-cases (p x)) [
    | inl fits ↦ rw fits (rw fits at h)
    | inr fails ↦ rw fails (first_where-append p xs ss (rw fails at h))
  ]

module _ {ℓ κ} {A : Type ℓ} (P : A → Type κ) where
  pub All-update_where :
      (p : A → Bool) (f : A → A) (rs : List A)
      → ((r : A) → P r → p r ≡ true → P (f r))
      → All P rs
      → All P (update_where p f rs)
  unfolding update_where
  All-update_where p f [] k h = tt
  All-update_where p f (x ∷ xs) k (h, hs) = (All-if (p x) (k x h) h, All-update_where p f xs k hs)
    where
      All-if : (b : Bool) → (b ≡ true → P (f x)) → P x → P (if b then f x else x)
      All-if true yes' no' = yes' refl
      All-if false yes' no' = no'

  pub All-mem : (rs : List A) {r : A} → All P rs → Memᴰ r rs → P r
  All-mem [] h m = elim m [ ]
  All-mem (x ∷ xs) h (Memᴰ.head e) = rw e h.0
  All-mem (x ∷ xs) h (Memᴰ.tail m) = All-mem xs h.1 m

-- A table of one row.
pub only_row {ℓ} : {A : Type ℓ} {x y : A} → Memᴰ x (y ∷ []) → x ≡ y
only_row (Memᴰ.head e) = e
only_row (Memᴰ.tail m) = elim m [ ]

pub All-of-mem {ℓ κ} :
    {A : Type ℓ} {P : A → Type κ} (rs : List A) → ((r : A) → Memᴰ r rs → P r) → All P rs
All-of-mem [] k = tt
All-of-mem (r ∷ rs) k = (k r (Memᴰ.head refl), All-of-mem rs (λ s m. k s (Memᴰ.tail m)))
