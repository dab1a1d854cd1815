-- ===== src/Oplog/Truncate.antt =====
-- `truncate` of server/src/oplog.rs, and what it keeps of a text.
use Prim.Native.String.{[], ◌∷◌}
use legal_genie_agent.Prelude.{ℕ, zero, suc, ◌≤◌, String, ◌≡◌, refl, ap, arith}

-- `s.chars().count()`
abbrev pub chars : String → ℕ
chars [] = 0
chars (c ∷ s) = suc (chars s)

-- `truncate`
unfoldable pub truncate : String → ℕ → String
truncate s zero = []
truncate [] (suc n) = []
truncate (c ∷ s) (suc n) = c ∷ truncate s n

pub chars-truncate : (s : String) (n : ℕ) → chars (truncate s n) ≤ n
unfolding truncate
chars-truncate s zero = omega arith
chars-truncate [] (suc n) = omega arith
chars-truncate (c ∷ s) (suc n) = omega (arith, chars-truncate s n)

-- A text that fits is not cut.
pub truncate_short : (s : String) (n : ℕ) → chars s ≤ n → truncate s n ≡ s
unfolding truncate
truncate_short [] zero h = refl
truncate_short (c ∷ s) zero h = absurd (omega (arith, h))
truncate_short [] (suc n) h = refl
truncate_short (c ∷ s) (suc n) h = ap (λ r. c ∷ r) (truncate_short s n (omega (arith, h)))
