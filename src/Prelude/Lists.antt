-- ===== src/Prelude/Lists.antt =====
-- Lists measured by native numbers, with Boolean tests.
use Prim.Native.Nat.{ℕ, zero, suc, ◌+◌}
use mathlib.Core.Path.{◌≡◌}
use mathlib.Core.Bool.{Bool, true, false, ◌&&◌, ◌||◌}
use mathlib.Core.List.{List, [], ◌∷◌, ◌++◌}
use native.Mathlib.Omega.{arith}

module _ {ℓ} {A : Type ℓ} where
  abbrev pub length : List A → ℕ
  length [] = 0
  length (x ∷ xs) = suc (length xs)

  abbrev pub any : (A → Bool) → List A → Bool
  any p [] = false
  any p (x ∷ xs) = p x || any p xs

  abbrev pub all : (A → Bool) → List A → Bool
  all p [] = true
  all p (x ∷ xs) = p x && all p xs

  abbrev pub take : ℕ → List A → List A
  take zero xs = []
  take (suc n) [] = []
  take (suc n) (x ∷ xs) = x ∷ take n xs

  abbrev pub drop : ℕ → List A → List A
  drop zero xs = xs
  drop (suc n) [] = []
  drop (suc n) (x ∷ xs) = drop n xs

  pub length-append : (xs ys : List A) → length (xs ++ ys) ≡ length xs + length ys
  length-append [] ys = omega arith
  length-append (x ∷ xs) ys = omega (arith, length-append xs ys)

-- A predicate by recursion computes to tuples, which the tactics read and build.
abbrev pub All {ℓ κ} : {A : Type ℓ} → (A → Type κ) → List A → Type κ
All P [] = Unit
All P (x ∷ xs) = P x × All P xs
