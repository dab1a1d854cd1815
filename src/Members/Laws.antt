-- ===== src/Members/Laws.antt =====
-- Who may change the members of a case, and what a removal takes away.
use mathlib.Core.List.{Memᴰ}
use legal_genie_agent.Prelude.{
  ℕ, String, ◌=s◌, ◌≡◌, ◌≢◌, refl, sym, ap, ◌∙◌, subst, inl, inr, Bool, true, false, Option, some,
  List, [], ◌∷◌, if◌then◌else◌, arith, eq_iff, Bool-cases, Option-cases,
}
use legal_genie_agent.Errors.Make
use legal_genie_agent.Sql.{World, ok, raise, ◌>>=◌}
use legal_genie_agent.Sql.Rules.{>>=-eq-ok}
use legal_genie_agent.Sql.Rows.{delete_where}
use legal_genie_agent.Schema.{Tables, Case, Member}
use legal_genie_agent.Access.{ensure_case_owner, ensure_case_access}
use legal_genie_agent.Access.Roles.{IsKeyed, IsOwner, CanRead}
use legal_genie_agent.Access.Laws.{ensure_case_owner_sound, ensure_case_access_sound}
use legal_genie_agent.Access.Complete.{checks_change_nothing}
use legal_genie_agent.Members.{
  CaseMember, LogEntry, Handler, same_member, delete_member, normalize_uuid, add_member, remove_row,
  remove_member,
}

pub normalized :
    (parse_uuid : String → Option String) (raw message : String) (w : World Tables) {id : String}
    → (normalize_uuid parse_uuid raw message w).0 ≡ ok id
    → (parse_uuid raw ≡ some id) × ((normalize_uuid parse_uuid raw message w).1 ≡ w)
unfolding normalize_uuid
normalized parse_uuid raw message w {id} h = elim (Option-cases (parse_uuid raw)) [
  | inl bad ↦ absurd (ground arith)
  | inr (found, good) ↦ (ground arith, ground arith)
]

-- A handler that returns behind an identifier and the owner check has passed both, and what it did
-- is what its rest did, on the tables that it found.
owner_checked :
    {A : Type 0} (parse_uuid : String → Option String) (actor raw : String) (f : String → Handler A)
    (w : World Tables) {a : A}
    → ((normalize_uuid parse_uuid raw "invalid case_id" >>= λ k.
          ensure_case_owner actor k >>= λ _. f k)
        w).0
      ≡ ok a
    → (k : String) × (w' : World Tables) × (parse_uuid raw ≡ some k)
      × IsOwner w.tables actor k
      × (w'.tables ≡ w.tables)
      × ((f k w').0 ≡ ok a)
      × ((normalize_uuid parse_uuid raw "invalid case_id" >>= λ k.
              ensure_case_owner actor k >>= λ _. f k)
            w
          ≡ f k w')
owner_checked parse_uuid actor raw f w h =
    let (k, w1, h1, t1, h2, same1) =
      >>=-eq-ok (normalize_uuid parse_uuid raw "invalid case_id")
        (λ k. ensure_case_owner actor k >>= λ _. f k) w h in
    let (good, back) = normalized parse_uuid raw "invalid case_id" w h1 in
    let start : w1 ≡ w = sym t1 ∙ back in
    let (u, w2, h3, t2, h4, same2) = >>=-eq-ok (ensure_case_owner actor k) (λ _. f k) w1 h2 in
    (
      k,
      w2,
      good,
      subst (λ t. IsOwner t actor k) (ap (λ v. v.tables) start)
          (ensure_case_owner_sound w1 actor k (h3 ∙ ap ok (only_unit u))),
      ap (λ v. v.tables) (sym t2)
          ∙ (checks_change_nothing w1 actor k "").2
          ∙ ap (λ v. v.tables) start,
      h4,
      same1 ∙ same2,
    )
  where
    only_unit : (u : Unit {0}) → u ≡ tt
    only_unit tt = refl

-- Whatever statements fail, an addition that returns was made by the owner of the live case.
pub add_member_only_owner :
    (parse_uuid : String → Option String) (now : ℕ) (new_id actor raw raw_user : String)
    (requested : Option String) (w : World Tables) (a : CaseMember × Option LogEntry)
    → (add_member parse_uuid now new_id actor raw raw_user requested w).0 ≡ ok a
    → (k : String) × (parse_uuid raw ≡ some k) × IsOwner w.tables actor k
unfolding add_member
add_member_only_owner parse_uuid now new_id actor raw raw_user requested w a h =
    let (k, w', good, owner, _, _, _) = owner_checked parse_uuid actor raw _ w h in (k, good, owner)

module _ (parse_uuid : String → Option String) where
  row_removed :
      (k v : String) (w : World Tables) {log : Option LogEntry}
      → (remove_row parse_uuid k v w).0 ≡ ok log
      → (remove_row parse_uuid k v w).1.tables
        ≡ record w.tables { members = delete_where (same_member k v) w.tables.members }
  unfolding remove_row delete_member
  row_removed k v w h = ground arith

  -- Whatever statements fail, a removal that returns was made by the owner of the live case, of
  -- another user, and deletes exactly the rows of that user in that case.
  pub remove_member_removes :
      (actor raw raw_user : String) (w : World Tables) (log : Option LogEntry)
      → (remove_member parse_uuid actor raw raw_user w).0 ≡ ok log
      → (k v : String) × (parse_uuid raw ≡ some k)
        × (parse_uuid raw_user ≡ some v)
        × IsOwner w.tables actor k
        × (v ≢ actor)
        × ((remove_member parse_uuid actor raw raw_user w).1.tables
            ≡ record w.tables { members = delete_where (same_member k v) w.tables.members })
  unfolding remove_member
  remove_member_removes actor raw raw_user w log h =
      let rest : String → Handler (Option LogEntry) =
        λ k. normalize_uuid parse_uuid raw_user "invalid user_id" >>= choice k in
      let (k, w1, good, owner, here, h1, same1) = owner_checked parse_uuid actor raw rest w h in
      let (v, w2, h2, t2, h3, same2) =
        >>=-eq-ok (normalize_uuid parse_uuid raw_user "invalid user_id") (choice k) w1 h1 in
      let (user, back) = normalized parse_uuid raw_user "invalid user_id" w1 h2 in
      let there : w2.tables ≡ w.tables = ap (λ x. x.tables) (sym t2 ∙ back) ∙ here in
      elim (Bool-cases (v =s actor)) [
        | inl self ↦ absurd (refused k v w2 self h3)
        | inr other ↦
            let h4 : (remove_row parse_uuid k v w2).0 ≡ ok log = rw other at h3 in
            let run = same1 ∙ same2 ∙ chosen k v w2 other in
            (
              k,
              v,
              good,
              user,
              owner,
              λ e. absurd (ground (arith, eq_iff v actor)),
              ap (λ x. x.1.tables) run ∙ row_removed k v w2 h4 ∙ ap (without k v) there,
            )
      ]
    where
      choice : String → String → Handler (Option LogEntry)
      choice k v =
          if v =s actor
          then raise (Make.bad_request "cannot remove case owner")
          else remove_row parse_uuid k v

      without : String → String → Tables → Tables
      without k v t = record t { members = delete_where (same_member k v) t.members }

      refused :
          (k v : String) (w2 : World Tables) → v =s actor ≡ true → (choice k v w2).0 ≡ ok log → ⊥
      refused k v w2 self g = absurd (ground arith)

      chosen :
          (k v : String) (w2 : World Tables)
          → v =s actor ≡ false
          → choice k v w2 ≡ remove_row parse_uuid k v w2
      chosen k v w2 other = rw other refl

delete_where_sound :
    (p : Member → Bool) (ms : List Member) {m : Member}
    → Memᴰ m (delete_where p ms)
    → Memᴰ m ms × (p m ≡ false)
unfolding delete_where
delete_where_sound p [] at = elim at [ ]
delete_where_sound p (x ∷ xs) {m} at = elim (Bool-cases (p x)) [
  | inl gone ↦ let (n, h) = delete_where_sound p xs (rw gone at at) in (Memᴰ.tail n, h)
  | inr stays ↦ kept stays (rw stays at at) (λ n. delete_where_sound p xs n)
]
  where
    kept :
        p x ≡ false
        → Memᴰ m (x ∷ delete_where p xs)
        → (Memᴰ m (delete_where p xs) → Memᴰ m xs × (p m ≡ false))
        → Memᴰ m (x ∷ xs) × (p m ≡ false)
    kept stays (Memᴰ.head e) later = (Memᴰ.head e, ap p e ∙ stays)
    kept stays (Memᴰ.tail n) later = let (o, h) = later n in (Memᴰ.tail o, h)

no_row :
    (t : Tables) (k v : String) (m : Member)
    → Memᴰ m (delete_where (same_member k v) t.members)
    → m.case_id ≡ k
    → m.user_id ≡ v
    → ⊥
unfolding same_member
no_row t k v m at case user =
    let (_, kept) = delete_where_sound (same_member k v) t.members at in
    absurd (ground (arith, eq_iff m.case_id k, eq_iff m.user_id v))

-- On a keyed database, a user whom a removal has taken out of a case no longer passes the read
-- check of that case, whatever statements fail then.
pub removed_member_locked_out :
    (parse_uuid : String → Option String) (actor raw raw_user k v : String) (w w' : World Tables)
    (log : Option LogEntry)
    → IsKeyed w.tables
    → parse_uuid raw ≡ some k
    → parse_uuid raw_user ≡ some v
    → (remove_member parse_uuid actor raw raw_user w).0 ≡ ok log
    → w'.tables ≡ (remove_member parse_uuid actor raw raw_user w).1.tables
    → (ensure_case_access v k w').0 ≢ ok tt
removed_member_locked_out parse_uuid actor raw raw_user k v w w' log keyed good user done after
      passed =
    let (k', v', good', user', (c, (at, same, _), owner), other, tables) =
      remove_member_removes parse_uuid actor raw raw_user w log done in
    let k_is : k' ≡ k = same_some (sym good' ∙ good) in
    let v_is : v' ≡ v = same_some (sym user' ∙ user) in
    let reads =
      subst (λ t. CanRead t v k) (after ∙ tables) (ensure_case_access_sound w' v k passed) in
    denied k_is v_is c at same owner other reads
  where
    same_some : {a b : String} → some a ≡ some b → a ≡ b
    same_some h = cc h

    denied :
        {k' v' : String}
        → k' ≡ k
        → v' ≡ v
        → (c : Case) → Memᴰ c w.tables.cases
        → c.id ≡ k'
        → c.owner_id ≡ actor
        → v' ≢ actor
        → CanRead
            (record w.tables { members = delete_where (same_member k' v') w.tables.members })
            v
            k
        → ⊥
    denied k_is v_is c at same owner other (d, (at', same', _), inl own) =
        let one : d ≡ c = keyed.case_key d c at' at (same' ∙ sym k_is ∙ sym same) in
        other (v_is ∙ sym own ∙ ap (λ x. x.owner_id) one ∙ owner)
    denied {k'} {v'} k_is v_is c at same owner other (d, live, inr (m, (row, case, member))) =
        no_row w.tables k' v' m row (case ∙ sym k_is) (member ∙ sym v_is)
