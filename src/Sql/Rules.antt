-- ===== src/Sql/Rules.antt =====
-- Rules for actions: an invariant of the tables that every statement keeps, whatever fails.
use legal_genie_agent.Prelude.{
  String, ◌≡◌, refl, sym, ap, ◌∙◌, subst, Bool, true, false, Option, none, some, List, [], ◌∷◌,
  if◌then◌else◌, ◌⊎◌, inl, inr,
}
use legal_genie_agent.Sql.{
  Result, ok, err, World, Action, pure, raise, settle, send, statement, query, execute, continue,
  ◌>>=◌, on_row, rolled_back, transaction, map_err, attempt,
}

-- `m` keeps `P` of the tables, whether it returns or fails, and whichever statements fail.
pub record Keeps {ℓ} {S E A : Type ℓ} (P : S → Type ℓ) (m : Action S E A) : Type ℓ where
  pub at : (w : World S) → P w.tables → P (m w).1.tables

module _ {ℓ} {S E A : Type ℓ} {P : S → Type ℓ} where
  pub Keeps-pure : (a : A) → Keeps P (pure {E = E} a)
  Keeps-pure a = record { at = λ w h. h }

  pub Keeps-raise : (e : E) → Keeps P (raise {A = A} e)
  Keeps-raise e = record { at = λ w h. h }

  settle-keeps :
      (fail : String → E) (w : World S) (r : Result String (A × S))
      → P w.tables
      → ((a : A) (s : S) → r ≡ ok (a, s) → P s)
      → P (settle fail w r).1.tables
  settle-keeps fail w (ok (a, s)) h k = k a s refl
  settle-keeps fail w (err e) h k = h

  send-keeps :
      (fail : String → E) (run : S → Result String (A × S)) (s : S) (fs : List (Option String))
      → ((a : A) (s' : S) → run s ≡ ok (a, s') → P s')
      → P s
      → P (send fail run s fs).1.tables
  send-keeps fail run s [] k h = settle-keeps fail (record { tables = s; faults = [] }) (run s) h k
  send-keeps fail run s (none ∷ fs) k h =
      settle-keeps fail (record { tables = s; faults = fs }) (run s) h k
  send-keeps fail run s (some e ∷ fs) k h = h

  pub Keeps-statement :
      (fail : String → E) (run : S → Result String (A × S))
      → ((s : S) → P s → (a : A) (s' : S) → run s ≡ ok (a, s') → P s')
      → Keeps P (statement fail run)
  Keeps-statement fail run k = record {
    at = λ w h. send-keeps fail run w.tables w.faults (k w.tables h) h;
  }

  pub Keeps-query : (fail : String → E) (f : S → A) → Keeps P (query fail f)
  Keeps-query fail f = record { at = λ w h. send-query w.tables w.faults h }
    where
      send-query :
          (s : S) (fs : List (Option String)) → P s → P (send fail (λ t. ok (f t, t)) s fs).1.tables
      send-query s [] h = h
      send-query s (none ∷ fs) h = h
      send-query s (some e ∷ fs) h = h

  pub Keeps-execute :
      (fail : String → E) (f : S → A × S) → ((s : S) → P s → P (f s).1) → Keeps P (execute fail f)
  Keeps-execute fail f k = record { at = λ w h. send-execute w.tables w.faults h }
    where
      send-execute :
          (s : S) (fs : List (Option String)) → P s → P (send fail (λ t. ok (f t)) s fs).1.tables
      send-execute s [] h = k s h
      send-execute s (none ∷ fs) h = k s h
      send-execute s (some e ∷ fs) h = h

  pub Keeps-if :
      (b : Bool) (m n : Action S E A) → Keeps P m → Keeps P n → Keeps P (if b then m else n)
  Keeps-if true m n km kn = km
  Keeps-if false m n km kn = kn

module _ {ℓ} {S E A B : Type ℓ} {P : S → Type ℓ} where
  continue-keeps :
      (f : A → Action S E B)
      → ((a : A) → Keeps P (f a))
      → (r : Result E A) (w : World S) → P w.tables
      → P (continue f r w).1.tables
  continue-keeps f kf (ok a) w h = (kf a).at w h
  continue-keeps f kf (err e) w h = h

  pub Keeps-bind :
      (m : Action S E A) (f : A → Action S E B)
      → Keeps P m
      → ((a : A) → Keeps P (f a))
      → Keeps P (m >>= f)
  Keeps-bind m f km kf = record {
    at = λ w h. let (r, w') = m w in continue-keeps f kf r w' (km.at w h);
  }

  pub Keeps-on_row :
      (o : Option A) (m : Action S E B) (f : A → Action S E B)
      → Keeps P m
      → ((a : A) → Keeps P (f a))
      → Keeps P (on_row o m f)
  Keeps-on_row none m f km kf = km
  Keeps-on_row (some a) m f km kf = kf a

module _ {ℓ} {S E A : Type ℓ} where
  rolled_back-keeps :
      (P : S → Type ℓ) (s : S) (r : Result E A) (w : World S)
      → P s
      → P w.tables
      → P (rolled_back s r w).1.tables
  rolled_back-keeps P s (ok a) w h k = k
  rolled_back-keeps P s (err e) w h k = h

module _ {ℓ} {S E A : Type ℓ} {P : S → Type ℓ} where
  pub Keeps-transaction :
      (fail : String → E) (body : Action S E A) → Keeps P body → Keeps P (transaction fail body)
  unfolding transaction
  Keeps-transaction fail body k = record {
    at = λ w h.
        let (r, w') = (do s ← query fail (λ s. s); a ← body; query fail (λ _. a)) w in
        rolled_back-keeps P w.tables r w' h (
          (Keeps-bind (query fail (λ s. s)) (λ _. do a ← body; query fail (λ _. a))
              (Keeps-query fail (λ s. s))
              (λ _.
                Keeps-bind body (λ a. query fail (λ _. a)) k (λ a. Keeps-query fail (λ _. a)))).at
            w h);
  }

module _ {ℓ} {S E A B : Type ℓ} {P : S → Type ℓ} where
  -- What is read fits a table on which the invariant holds.
  pub Keeps-query-bind :
      (fail : String → E) (f : S → A) (k : A → Action S E B)
      → ((s : S) → P s → Keeps P (k (f s)))
      → Keeps P (query fail f >>= k)
  Keeps-query-bind fail f k kk = record { at = λ w h. reads w.tables w.faults h }
    where
      reads :
          (s : S) (fs : List (Option String))
          → P s
          → P ((query fail f >>= k) (record { tables = s; faults = fs })).1.tables
      reads s [] h = (kk s h).at (record { tables = s; faults = [] }) h
      reads s (none ∷ fs) h = (kk s h).at (record { tables = s; faults = fs }) h
      reads s (some e ∷ fs) h = h

module _ {ℓ} {S E A : Type ℓ} {P : S → Type ℓ} where
  -- A branch knows its test.
  pub Keeps-if_eq :
      (b : Bool) (m n : Action S E A)
      → (b ≡ true → Keeps P m)
      → (b ≡ false → Keeps P n)
      → Keeps P (if b then m else n)
  Keeps-if_eq true m n km kn = km refl
  Keeps-if_eq false m n km kn = kn refl

module _ {ℓ} {S E F A : Type ℓ} {P : S → Type ℓ} where
  pub Keeps-map_err : (f : E → F) (m : Action S E A) → Keeps P m → Keeps P (map_err f m)
  unfolding map_err
  Keeps-map_err f m k = record { at = k.at }

  pub Keeps-attempt : (m : Action S E A) → Keeps P m → Keeps P (attempt {F = F} m)
  unfolding attempt
  Keeps-attempt m k = record { at = k.at }

module _ {ℓ} {S E A B : Type ℓ} where
  continue-eq-ok :
      (f : A → Action S E B) (r : Result E A) (w : World S) {b : B}
      → (continue f r w).0 ≡ ok b
      → (a : A) × (r ≡ ok a) × ((f a w).0 ≡ ok b) × (continue f r w ≡ f a w)
  continue-eq-ok f (ok a) w h = (a, refl, h, refl)
  continue-eq-ok f (err e) w h = absurd (cc h)

  -- What a sequence of actions that returns has done.
  pub >>=-eq-ok :
      (m : Action S E A) (f : A → Action S E B) (w : World S) {b : B}
      → ((m >>= f) w).0 ≡ ok b
      → (a : A) × (w' : World S) × ((m w).0 ≡ ok a)
        × ((m w).1 ≡ w')
        × ((f a w').0 ≡ ok b)
        × ((m >>= f) w ≡ f a w')
  >>=-eq-ok m f w h =
      let (a, done, later, same) = continue-eq-ok f (m w).0 (m w).1 h in
      (a, (m w).1, done, refl, later, same)

module _ {ℓ} {S E A : Type ℓ} where
  send-eq-ok :
      (fail : String → E) (f : S → A) (s : S) (fs : List (Option String)) {a : A}
      → (send fail (λ t. ok (f t, t)) s fs).0 ≡ ok a
      → (a ≡ f s) × ((send fail (λ t. ok (f t, t)) s fs).1.tables ≡ s)
  send-eq-ok fail f s [] h = (cc h, refl)
  send-eq-ok fail f s (none ∷ fs) h = (cc h, refl)
  send-eq-ok fail f s (some e ∷ fs) h = absurd (cc h)

  -- A query that returns has read the tables it found, and left them.
  pub query-eq-ok :
      (fail : String → E) (f : S → A) (w : World S) {a : A}
      → (query fail f w).0 ≡ ok a
      → (a ≡ f w.tables) × ((query fail f w).1.tables ≡ w.tables)
  query-eq-ok fail f w h = send-eq-ok fail f w.tables w.faults h

module _ {ℓ} {S E A : Type ℓ} where
  -- A statement that a constraint may refuse has run, or has left the tables alone.
  pub statement_cases :
      (fail : String → E) (run : S → Result String (A × S)) (w : World S)
      → ((e : E) × ((statement fail run w).0 ≡ err e)
          × ((statement fail run w).1.tables ≡ w.tables))
        ⊎ ((a : A) × (s : S) × (run w.tables ≡ ok (a, s))
            × ((statement fail run w).0 ≡ ok a)
            × ((statement fail run w).1.tables ≡ s))
  statement_cases fail run w = sent w.tables w.faults
    where
      settled :
          (s : S) (fs : List (Option String)) (r : Result String (A × S))
          → run s ≡ r
          → ((e : E) × ((settle fail (record { tables = s; faults = fs }) r).0 ≡ err e)
              × ((settle fail (record { tables = s; faults = fs }) r).1.tables ≡ s))
            ⊎ ((a : A) × (s' : S) × (run s ≡ ok (a, s'))
                × ((settle fail (record { tables = s; faults = fs }) r).0 ≡ ok a)
                × ((settle fail (record { tables = s; faults = fs }) r).1.tables ≡ s'))
      settled s fs (ok (a, s')) e = inr (a, s', e, refl, refl)
      settled s fs (err x) e = inl (fail x, refl, refl)

      sent :
          (s : S) (fs : List (Option String))
          → ((e : E) × ((send fail run s fs).0 ≡ err e) × ((send fail run s fs).1.tables ≡ s))
            ⊎ ((a : A) × (s' : S) × (run s ≡ ok (a, s'))
                × ((send fail run s fs).0 ≡ ok a)
                × ((send fail run s fs).1.tables ≡ s'))
      sent s [] = settled s [] (run s) refl
      sent s (none ∷ fs) = settled s fs (run s) refl
      sent s (some e ∷ fs) = inl (fail e, refl, refl)

  -- A statement that writes has done so, or has left the tables alone.
  pub execute_cases :
      (fail : String → E) (f : S → A × S) (w : World S)
      → ((e : E) × ((execute fail f w).0 ≡ err e) × ((execute fail f w).1.tables ≡ w.tables))
        ⊎ (((execute fail f w).0 ≡ ok (f w.tables).0)
            × ((execute fail f w).1.tables ≡ (f w.tables).1))
  execute_cases fail f w = sent w.tables w.faults
    where
      sent :
          (s : S) (fs : List (Option String))
          → ((e : E) × ((send fail (λ t. ok (f t)) s fs).0 ≡ err e)
              × ((send fail (λ t. ok (f t)) s fs).1.tables ≡ s))
            ⊎ (((send fail (λ t. ok (f t)) s fs).0 ≡ ok (f s).0)
                × ((send fail (λ t. ok (f t)) s fs).1.tables ≡ (f s).1))
      sent s [] = inr (refl, refl)
      sent s (none ∷ fs) = inr (refl, refl)
      sent s (some e ∷ fs) = inl (fail e, refl, refl)

module _ {ℓ} {S A : Type ℓ} where
  -- A statement that a constraint has let through.
  pub unless-eq-ok :
      (b : Bool) (x : String) (r : A × S) {r' : A × S}
      → Path (Result String (A × S)) (if b then err x else ok r) (ok r')
      → (b ≡ false) × (r.1 ≡ r'.1)
  unless-eq-ok true x r h = absurd (cc h)
  unless-eq-ok false x r {r'} h = let same : r ≡ r' = cc h in (refl, ap (λ q. q.1) same)

module _ {ℓ} {S E A B : Type ℓ} where
  -- What follows a query that returns has been given what the tables say, and the same tables.
  pub query->>=-eq-ok :
      (fail : String → E) (f : S → A) (k : A → Action S E B) (w : World S) {b : B}
      → ((query fail f >>= k) w).0 ≡ ok b
      → (w' : World S) × (w'.tables ≡ w.tables)
        × ((k (f w.tables) w').0 ≡ ok b)
        × ((query fail f >>= k) w ≡ k (f w.tables) w')
  query->>=-eq-ok fail f k w {b} h =
      let (a, w', h1, t, h2, same) = >>=-eq-ok (query fail f) k w h in
      let (read, kept) = query-eq-ok fail f w h1 in
      (
        w',
        ap (λ (x : World S). x.tables) (sym t) ∙ kept,
        subst (λ x. (k x w').0 ≡ ok b) read h2,
        same ∙ ap (λ x. k x w') read,
      )

  -- What follows an optional row that there has to be.
  pub on_row-eq-ok :
      (o : Option A) (x : E) (f : A → Action S E B) (w : World S) {b : B}
      → (on_row o (raise x) f w).0 ≡ ok b
      → (a : A) × (o ≡ some a) × ((f a w).0 ≡ ok b) × (on_row o (raise x) f w ≡ f a w)
  on_row-eq-ok none x f w h = absurd (cc h)
  on_row-eq-ok (some a) x f w h = (a, refl, h, refl)

module _ {ℓ} {S E B : Type ℓ} where
  -- What follows a test that has to hold.
  pub if-eq-ok :
      (c : Bool) (x : E) (m : Action S E B) (w : World S) {b : B}
      → ((if c then raise x else m) w).0 ≡ ok b
      → (c ≡ false) × ((m w).0 ≡ ok b) × ((if c then raise x else m) w ≡ m w)
  if-eq-ok true x m w h = absurd (cc h)
  if-eq-ok false x m w h = (refl, h, refl)

module _ {ℓ} {S E A B : Type ℓ} where
  -- A sequence ends with the error of its first action, or goes on with what that returned.
  pub >>=-cases :
      (m : Action S E A) (f : A → Action S E B) (w : World S)
      → ((e : E) × ((m w).0 ≡ err e) × ((m >>= f) w ≡ (err e, (m w).1)))
        ⊎ ((a : A) × ((m w).0 ≡ ok a) × ((m >>= f) w ≡ f a (m w).1))
  >>=-cases m f w = goes (m w).0 (m w).1
    where
      goes :
          (r : Result E A) (w' : World S)
          → ((e : E) × (r ≡ err e) × (continue f r w' ≡ (err e, w')))
            ⊎ ((a : A) × (r ≡ ok a) × (continue f r w' ≡ f a w'))
      goes (ok a) w' = inr (a, refl, refl)
      goes (err e) w' = inl (e, refl, refl)

pub ok_inj {ℓ} : {E A : Type ℓ} (a b : A) → Path (Result E A) (ok a) (ok b) → a ≡ b
ok_inj a b h = cc h

pub ruleset keeps_rules = (
  Keeps-pure, Keeps-raise, Keeps-query, Keeps-execute, Keeps-if, Keeps-bind, Keeps-on_row,
  Keeps-transaction, Keeps-map_err, Keeps-attempt,
)
