-- ===== src/Pages/Laws.antt =====
-- The rows of a page are rows of the list, and few.
use mathlib.Core.List.{Memᴰ}
use legal_genie_agent.Prelude.{
  ℕ, zero, suc, ◌≤◌, ◌≡◌, ◌⊎◌, String, refl, ap, Bool, List, [], ◌∷◌, map, take, drop, length, ltb,
  arith, Bool-cases, inl, inr, ◌^◌,
}
use legal_genie_agent.Sql.{Result, ok, err}
use legal_genie_agent.Sql.Rules.{ok_inj}
use legal_genie_agent.Pages.{clamp, place, ordered, page_of, answered}

pub mem-take : {A : Type 0} (n : ℕ) (xs : List A) {x : A} → Memᴰ x (take n xs) → Memᴰ x xs
mem-take zero xs m = elim m [ ]
mem-take (suc n) [] m = m
mem-take (suc n) (y ∷ ys) (Memᴰ.head e) = Memᴰ.head e
mem-take (suc n) (y ∷ ys) (Memᴰ.tail m) = Memᴰ.tail (mem-take n ys m)

pub mem-drop : {A : Type 0} (n : ℕ) (xs : List A) {x : A} → Memᴰ x (drop n xs) → Memᴰ x xs
mem-drop zero xs m = m
mem-drop (suc n) [] m = m
mem-drop (suc n) (y ∷ ys) m = Memᴰ.tail (mem-drop n ys m)

module _ {A : Type 0} (later : A → A → Bool) where
  mem-place : (c : A) (cs : List A) {x : A} → Memᴰ x (place later c cs) → (x ≡ c) ⊎ Memᴰ x cs
  unfolding place
  mem-place c [] (Memᴰ.head e) = inl e
  mem-place c [] (Memᴰ.tail m) = inr m
  mem-place c (d ∷ ds) {x} m = elim (Bool-cases (later c d)) [
    | inl later ↦ below (rw later at m) (λ n. mem-place c ds n)
    | inr sooner ↦ front (rw sooner at m)
  ]
    where
      front : Memᴰ x (c ∷ d ∷ ds) → (x ≡ c) ⊎ Memᴰ x (d ∷ ds)
      front (Memᴰ.head e) = inl e
      front (Memᴰ.tail n) = inr n

      in_tail : (x ≡ c) ⊎ Memᴰ x ds → (x ≡ c) ⊎ Memᴰ x (d ∷ ds)
      in_tail (inl e) = inl e
      in_tail (inr n) = inr (Memᴰ.tail n)

      below :
          Memᴰ x (d ∷ place later c ds)
          → (Memᴰ x (place later c ds) → (x ≡ c) ⊎ Memᴰ x ds)
          → (x ≡ c) ⊎ Memᴰ x (d ∷ ds)
      below (Memᴰ.head e) ih = inr (Memᴰ.head e)
      below (Memᴰ.tail n) ih = in_tail (ih n)

  pub mem-ordered : (cs : List A) {x : A} → Memᴰ x (ordered later cs) → Memᴰ x cs
  unfolding ordered
  mem-ordered [] m = m
  mem-ordered (c ∷ cs) m = elim (mem-place c (ordered later cs) m) [
    | inl e ↦ Memᴰ.head e
    | inr n ↦ Memᴰ.tail (mem-ordered cs n)
  ]

pub clamp_bounds : (n : ℕ) → (1 ≤ clamp n) × (clamp n ≤ 200)
unfolding clamp
clamp_bounds n = (ground arith, ground arith)

pub length-take : {A : Type 0} (n : ℕ) (xs : List A) → length (take n xs) ≤ n
length-take zero xs = omega arith
length-take (suc n) [] = omega arith
length-take (suc n) (x ∷ xs) = omega (arith, length-take n xs)

pub mem-map :
    {A B : Type 0} (f : A → B) (xs : List A) {y : B}
    → Memᴰ y (map f xs)
    → (x : A) × Memᴰ x xs × (y ≡ f x)
mem-map f [] m = elim m [ ]
mem-map f (x ∷ xs) (Memᴰ.head e) = (x, Memᴰ.head refl, e)
mem-map f (x ∷ xs) (Memᴰ.tail m) = let (z, at, same) = mem-map f xs m in (z, Memᴰ.tail at, same)

pub answered-ok :
    {A S : Type 0} (s s' : S) (r : Result String A) {a : A}
    → Path (Result String (A × S)) (answered s r) (ok (a, s'))
    → r ≡ ok a
unfolding answered
answered-ok s s' (ok b) {a} h = ap ok (ap (λ q. q.0) (ok_inj (b, s) (a, s') h))
answered-ok s s' (err x) h = absurd (cc h)

-- A page is made of rows of the list, in no greater number than its limit.
pub page_of_sound :
    {A : Type 0} (limit offset : ℕ) (rows page : List A)
    → page_of limit offset rows ≡ ok page
    → ((x : A) → Memᴰ x page → Memᴰ x rows) × (length page ≤ limit)
unfolding page_of
page_of_sound limit offset rows page h = elim (Bool-cases (ltb offset (2 ^ 63))) [
  | inl positive ↦
      let same : take limit (drop offset rows) ≡ page = ok_inj _ _ (rw positive at h) in
      (
        λ x m. mem-drop offset rows (mem-take limit _ (rw same m)),
        omega (arith, ap length same, length-take limit (drop offset rows)),
      )
  | inr negative ↦ absurd (cc (rw negative at h))
]
