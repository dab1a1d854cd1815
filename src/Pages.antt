-- ===== src/Pages.antt =====
-- Pages of a sorted list, as `list_cases` of server/src/routes/cases.rs and `list_members` of
-- server/src/routes/case_members.rs cut them. Numbers of pages below 1 are like 0 to the source,
-- and its 64-bit product wraps around, as a release build does.
pub mod Laws
use legal_genie_agent.Prelude.{
  ℕ, ◌-◌, ◌*◌, ◌%◌, ◌^◌, String, Bool, not, List, [], ◌∷◌, take, drop, ltb, if◌then◌else◌,
}
use legal_genie_agent.Sql.{Result, ok, err}

-- `p.page_size.clamp(1, 200)`
unfoldable pub clamp : ℕ → ℕ
clamp n = if ltb n 1 then 1 else if ltb 200 n then 200 else n

-- `(page - 1) * page_size` in 64 bits; from 2 ^ 63 on it is a negative number.
unfoldable pub offset_of : ℕ → ℕ → ℕ
offset_of page page_size = ((page - 1) * page_size) % 2 ^ 64

-- ORDER BY, where `later x y` says that y stands before x.
module _ {A : Type 0} (later : A → A → Bool) where
  unfoldable pub place : A → List A → List A
  place x [] = x ∷ []
  place x (y ∷ ys) = let rest = place x ys in if later x y then y ∷ rest else x ∷ y ∷ ys

  unfoldable pub ordered : List A → List A
  ordered [] = []
  ordered (x ∷ xs) = place x (ordered xs)

-- LIMIT limit OFFSET offset
unfoldable pub page_of : {A : Type 0} → ℕ → ℕ → List A → Result String (List A)
page_of limit offset rows =
    if not (ltb offset (2 ^ 63))
    then err "OFFSET must not be negative"
    else ok (take limit (drop offset rows))

-- The answer of a SELECT, which leaves the tables alone.
unfoldable pub answered : {A S : Type 0} → S → Result String A → Result String (A × S)
answered s (ok a) = ok (a, s)
answered s (err x) = err x
