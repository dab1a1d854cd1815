-- ===== src/Sql.antt =====
-- The connection to PostgreSQL as the handlers use it (`sqlx`): a handler is an action over the
-- tables, which goes through a sequence of statements. A statement is atomic and commits by
-- itself. `faults` says what the connection does to the statements to come: `some e` makes the
-- next statement fail with the text `e` and leaves the tables alone, `none` and the end of the
-- list let it through. So every theorem about an action covers each `?` on a query.
pub mod Rules
pub mod Rows
use legal_genie_agent.Prelude.{String, ◌≡◌, refl, ◌⊎◌, inl, inr, Option, none, some, List, [], ◌∷◌}

pub data Result {ℓ κ} (E : Type ℓ) (A : Type κ) : Type (ℓ ⊔ κ) where
  ok : A → Result E A
  err : E → Result E A

pub Result-cases {ℓ κ} :
    {E : Type ℓ} {A : Type κ} (r : Result E A) → ((e : E) × (r ≡ err e)) ⊎ ((a : A) × (r ≡ ok a))
Result-cases (ok a) = inr (a, refl)
Result-cases (err e) = inl (e, refl)

pub record World {ℓ} (S : Type ℓ) : Type ℓ where
  pub tables : S
  pub faults : List (Option String)

-- A connection that lets every statement through.
abbrev pub healthy {ℓ} : {S : Type ℓ} → S → World S
healthy s = record { tables = s; faults = [] }

abbrev pub Action {ℓ} : Type ℓ → Type ℓ → Type ℓ → Type ℓ
Action S E A = World S → Result E A × World S

module _ {ℓ} {S E A : Type ℓ} where
  abbrev pub pure : A → Action S E A
  pure a w = (ok a, w)

  abbrev pub raise : E → Action S E A
  raise e w = (err e, w)

  -- What the statement returned and the tables after it; a refused statement changes nothing.
  abbrev pub settle : (String → E) → World S → Result String (A × S) → Result E A × World S
  settle fail w (ok (a, s)) = (ok a, record w { tables = s })
  settle fail w (err e) = (err (fail e), w)

  abbrev pub send :
      (String → E) → (S → Result String (A × S)) → S → List (Option String) → Result E A × World S
  send fail run s [] = settle fail (healthy s) (run s)
  send fail run s (none ∷ fs) = settle fail (record { tables = s; faults = fs }) (run s)
  send fail run s (some e ∷ fs) = (err (fail e), record { tables = s; faults = fs })

  -- A statement that a constraint of the schema may refuse (`err`).
  abbrev pub statement : (String → E) → (S → Result String (A × S)) → Action S E A
  statement fail run w = send fail run w.tables w.faults

  -- A statement that only reads.
  abbrev pub query : (String → E) → (S → A) → Action S E A
  query fail f = statement fail (λ s. ok (f s, s))

  -- A statement that writes, and that no constraint refuses.
  abbrev pub execute : (String → E) → (S → A × S) → Action S E A
  execute fail f = statement fail (λ s. ok (f s))

module _ {ℓ} {S E A B : Type ℓ} where
  abbrev pub continue : (A → Action S E B) → Result E A → World S → Result E B × World S
  continue f (ok a) w = f a w
  continue f (err e) w = (err e, w)

  infixl 5 ◌>>=◌ ◌>>◌
  abbrev pub ◌>>=◌ : Action S E A → (A → Action S E B) → Action S E B
  ◌>>=◌ m f w = let (r, w') = m w in continue f r w'

  abbrev pub ◌>>◌ : Action S E A → Action S E B → Action S E B
  m >> n = m >>= λ _. n

module _ {ℓ} {S E A B : Type ℓ} where
  -- A branch on an optional row, as `let Some(row) = row else { … }`.
  abbrev pub on_row : Option A → Action S E B → (A → Action S E B) → Action S E B
  on_row none missing found = missing
  on_row (some a) missing found = found a

module _ {ℓ} {S E A : Type ℓ} where
  -- A failed transaction is rolled back: the tables are those from before it.
  abbrev pub rolled_back : S → Result E A → World S → Result E A × World S
  rolled_back s (ok a) w = (ok a, w)
  rolled_back s (err e) w = (err e, record w { tables = s })

  -- BEGIN, the body, COMMIT; each of the three may fail.
  unfoldable pub transaction : (String → E) → Action S E A → Action S E A
  transaction fail body w =
      let (r, w') = (do s ← query fail (λ s. s); a ← body; query fail (λ _. a)) w in
      rolled_back w.tables r w'

module _ {ℓ} {E F A : Type ℓ} where
  abbrev pub retype : (E → F) → Result E A → Result F A
  retype f (ok a) = ok a
  retype f (err e) = err (f e)

module _ {ℓ} {S E F A : Type ℓ} where
  -- `.map_err(f)`
  unfoldable pub map_err : (E → F) → Action S E A → Action S F A
  map_err f m w = let (r, w') = m w in (retype f r, w')

  -- The result of an action as a value, for a `match` on it.
  unfoldable pub attempt : Action S E A → Action S F (Result E A)
  attempt m w = let (r, w') = m w in (ok r, w')
