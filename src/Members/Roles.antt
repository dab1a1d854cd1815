-- ===== src/Members/Roles.antt =====
-- The roles in the table `case_members`, which server/src/routes/case_members.rs writes.
use mathlib.Core.List.{Memᴰ}
use legal_genie_agent.Prelude.{
  ℕ, String, ◌=s◌, ◌≡◌, refl, sym, subst, ◌⊎◌, inl, inr, Bool, true, ◌||◌, Option, List, [], ◌∷◌,
  ◌++◌, any, All, arith, eq_iff, Bool-cases, trim, to_ascii_lowercase,
}
use legal_genie_agent.Errors.{AppError}
use legal_genie_agent.Errors.Make
use legal_genie_agent.Sql.{World, Result, ok, err, execute, continue, ◌>>=◌}
use legal_genie_agent.Sql.Rules.{
  Keeps, Keeps-bind, Keeps-query, Keeps-pure, Keeps-raise, Keeps-execute, Keeps-on_row, Keeps-if,
  Keeps-if_eq, keeps_rules,
}
use legal_genie_agent.Sql.Rows.{delete_where, All-update_where}
use legal_genie_agent.Schema.{Tables, User, Case, Member}
use legal_genie_agent.Access.{ensure_case_owner}
use legal_genie_agent.Access.Laws.{ensure_case_owner_sound}
use legal_genie_agent.Access.Complete.{checks_change_nothing}
use legal_genie_agent.Members.{
  Handler, insert_member, upsert_member, delete_member, same_member, check_role, normalize_uuid,
  new_member, add_owner, add_other, add_user, add_member, remove_row, remove_member, or_member,
}

abbrev pub Owns : List Case → String → String → Type 0
Owns cs user_id case_id = (c : Case) × Memᴰ c cs × (c.id ≡ case_id) × (c.owner_id ≡ user_id)

-- A role that the handlers write, the role owner only for the owner of the case.
abbrev pub HasRole : List Case → Member → Type 0
HasRole cs m =
    (m.role_in_case ≡ "member")
    ⊎ ((m.role_in_case ≡ "viewer") ⊎ ((m.role_in_case ≡ "owner") × Owns cs m.user_id m.case_id))

pub record AreRoles (t : Tables) : Type 0 where
  pub rows : All (HasRole t.cases) t.members

module _ (actor k : String) where
  -- The state of a handler after the owner check.
  record AreOwned (t : Tables) : Type 0 where
    pub rows : All (HasRole t.cases) t.members
    pub owner : Owns t.cases actor k

  after_check :
      (w : World Tables)
      → AreRoles w.tables
      → (ensure_case_owner actor k w).0 ≡ ok tt
      → AreOwned (ensure_case_owner actor k w).1.tables
  after_check w roles passed =
      let kept = (checks_change_nothing w actor k "").2 in
      let (c, (at, same, _), owner) = ensure_case_owner_sound w actor k passed in
      subst AreOwned (sym kept) (record { rows = roles.rows; owner = (c, at, same, owner) })

  checked :
      {B : Type 0} (f : Unit {0} → Handler B)
      → Keeps AreOwned (f tt)
      → Keeps AreRoles (ensure_case_owner actor k >>= f)
  checked f kf = record {
    at = λ w h.
        from (ensure_case_owner actor k w).0 (ensure_case_owner actor k w).1 refl (after_check w h)
          (subst AreRoles (sym (checks_change_nothing w actor k "").2) h);
  }
    where
      from :
          (r : Result AppError (Unit {0})) (w' : World Tables)
          → Path (Result AppError (Unit {0})) r r
          → (r ≡ ok tt → AreOwned w'.tables)
          → AreRoles w'.tables
          → AreRoles (continue f r w').1.tables
      from (ok tt) w' e owned h = record { rows = (kf.at w' (owned refl)).rows }
      from (err x) w' e owned h = h

  module _ (m : Member) (fits : (cs : List Case) → Owns cs actor k → HasRole cs m) where
    All-append : (P : Member → Type 0) (ms : List Member) → All P ms → P m → All P (ms ++ m ∷ [])
    All-append P [] h hm = (hm, tt)
    All-append P (x ∷ xs) (hx, hxs) hm = (hx, All-append P xs hxs hm)

    insert_owned : Keeps AreOwned (execute Make.db_error (insert_member m))
    unfolding insert_member
    insert_owned = Keeps-execute Make.db_error (insert_member m) (λ t h.
        elim (Bool-cases (any (same_member m.case_id m.user_id) t.members)) [
          | inl known ↦ rw known h
          | inr fresh ↦ rw fresh (record {
            rows = All-append (HasRole t.cases) t.members h.rows (fits t.cases h.owner);
            owner = h.owner;
          })
        ])

    changed_role :
        (cs : List Case) (x : Member)
        → (HasRole cs m)
        → same_member m.case_id m.user_id x ≡ true
        → HasRole cs (record x { role_in_case = m.role_in_case })
    unfolding same_member
    changed_role cs x (inl member) same = inl member
    changed_role cs x (inr (inl viewer)) same = inr (inl viewer)
    changed_role cs x (inr (inr (owner, (c, at, id, own)))) same = inr (
        inr (
          owner,
          (
            c,
            at,
            ground (arith, eq_iff x.case_id m.case_id),
            ground (arith, eq_iff x.user_id m.user_id),
          ),
        ))

    upsert_owned : Keeps AreOwned (execute Make.db_error (upsert_member m))
    unfolding upsert_member
    upsert_owned = Keeps-execute Make.db_error (upsert_member m) (λ t h.
        elim (Bool-cases (any (same_member m.case_id m.user_id) t.members)) [
          | inl known ↦ rw known (record {
            rows =
                All-update_where (HasRole t.cases) (same_member m.case_id m.user_id)
                  (λ x. record x { role_in_case = m.role_in_case }) t.members
                  (λ x hx same. changed_role t.cases x (fits t.cases h.owner) same) h.rows;
            owner = h.owner;
          })
          | inr fresh ↦ rw fresh (record {
            rows = All-append (HasRole t.cases) t.members h.rows (fits t.cases h.owner);
            owner = h.owner;
          })
        ])

  All-delete_where :
      (P : Member → Type 0) (p : Member → Bool) (ms : List Member)
      → All P ms
      → All P (delete_where p ms)
  unfolding delete_where
  All-delete_where P p [] h = tt
  All-delete_where P p (x ∷ xs) (hx, hxs) = elim (Bool-cases (p x)) [
    | inl gone ↦ rw gone (All-delete_where P p xs hxs)
    | inr stays ↦ rw stays (hx, All-delete_where P p xs hxs)
  ]

  delete_owned :
      (case_id user_id : String)
      → Keeps AreOwned (execute Make.db_error (delete_member case_id user_id))
  unfolding delete_member
  delete_owned case_id user_id = Keeps-execute Make.db_error (delete_member case_id user_id) (λ t h.
      record {
        rows = All-delete_where (HasRole t.cases) (same_member case_id user_id) t.members h.rows;
        owner = h.owner;
      })

  ruleset owned_rules = (keeps_rules, delete_owned)

  module _ (parse_uuid : String → Option String) (now : ℕ) (new_id : String) where
    add_owner_owned :
        (u : User) → u.id ≡ actor → Keeps AreOwned (add_owner parse_uuid now new_id actor k u)
    unfolding add_owner
    add_owner_owned u same =
        Keeps-bind _ _
          (insert_owned (new_member parse_uuid now new_id actor k u.id "owner")
            (λ cs own. inr (inr (refl, subst (λ i. Owns cs i k) (sym same) own))))
          (λ _. search owned_rules depth 12)

    add_other_owned :
        (u : User) (role : String)
        → (role ≡ "member") ⊎ (role ≡ "viewer")
        → Keeps AreOwned (add_other parse_uuid now new_id actor k u role)
    unfolding add_other
    add_other_owned u role fits = Keeps-bind _ _ (Keeps-query _ _) (λ existing.
        Keeps-bind _ _
          (upsert_owned (new_member parse_uuid now new_id actor k u.id role)
            (λ cs own. either cs fits))
          (λ _. search owned_rules depth 12))
      where
        either :
            (cs : List Case)
            → (role ≡ "member") ⊎ (role ≡ "viewer")
            → HasRole cs (new_member parse_uuid now new_id actor k u.id role)
        either cs (inl member) = inl member
        either cs (inr viewer) = inr (inl viewer)

    role_of_test :
        (role : String)
        → (role =s "member" || role =s "viewer") ≡ true
        → (role ≡ "member") ⊎ (role ≡ "viewer")
    role_of_test role h = ground (arith, eq_iff role "member", eq_iff role "viewer")

    checked_role_owned :
        (u : User) (role : String)
        → Keeps AreOwned (check_role role >>= λ _. add_other parse_uuid now new_id actor k u role)
    unfolding check_role
    checked_role_owned u role = elim (Bool-cases (role =s "member" || role =s "viewer")) [
      | inl known ↦ rw known (add_other_owned u role (role_of_test role known))
      | inr other ↦ elim (Bool-cases (role =s "owner")) [
        | inl owner ↦
            rw (other, owner) (Keeps-raise (Make.bad_request "role_in_case cannot be owner"))
        | inr strange ↦
            rw (other, strange)
              (Keeps-raise (Make.bad_request "invalid role_in_case (member/viewer)"))
      ]
    ]

    add_user_owned :
        (requested : Option String) (u : User)
        → Keeps AreOwned (add_user parse_uuid now new_id actor k requested u)
    unfolding add_user
    add_user_owned requested u = Keeps-if _ _ _ (Keeps-raise _) (
        Keeps-if_eq (u.id =s actor) _ _ (λ own. add_owner_owned u ((eq_iff u.id actor).0 own))
          (λ other. checked_role_owned u (to_ascii_lowercase (trim (or_member requested)))))

normalize-Keeps :
    {P : Tables → Type 0} (parse_uuid : String → Option String) (raw message : String)
    → Keeps P (normalize_uuid parse_uuid raw message)
unfolding normalize_uuid
normalize-Keeps parse_uuid raw message = search keeps_rules depth 6

add_member-Keeps :
    (parse_uuid : String → Option String) (now : ℕ) (new_id actor raw raw_user : String)
    (requested : Option String)
    → Keeps AreRoles (add_member parse_uuid now new_id actor raw raw_user requested)
unfolding add_member
add_member-Keeps parse_uuid now new_id actor raw raw_user requested =
    Keeps-bind _ _ (normalize-Keeps parse_uuid raw "invalid case_id") (λ k. checked actor k _ (
      Keeps-bind _ _ (normalize-Keeps parse_uuid raw_user "invalid user_id") (λ v.
        Keeps-bind _ _ (Keeps-query _ _) (λ row.
          Keeps-on_row row _ _ (Keeps-raise _)
            (λ u. add_user_owned actor k parse_uuid now new_id requested u)))))

remove_member-Keeps :
    (parse_uuid : String → Option String) (actor raw raw_user : String)
    → Keeps AreRoles (remove_member parse_uuid actor raw raw_user)
unfolding remove_member remove_row
remove_member-Keeps parse_uuid actor raw raw_user =
    Keeps-bind _ _ (normalize-Keeps parse_uuid raw "invalid case_id") (λ k. checked actor k _ (
      Keeps-bind _ _ (normalize-Keeps parse_uuid raw_user "invalid user_id") (λ v.
        Keeps-if _ _ _ (Keeps-raise _) (
          Keeps-bind _ _ (Keeps-query _ _) (λ row.
            Keeps-bind _ _ (delete_owned actor k k v)
              (λ n. Keeps-if _ _ _ (Keeps-raise _) (Keeps-pure _)))))))

-- Adding and removing members, by whoever and whichever statements fail, leaves only the roles
-- member, viewer and owner in `case_members`, the role owner only in the row of the case's owner.
pub member_roles_kept :
    (parse_uuid : String → Option String) (now : ℕ) (new_id actor raw raw_user : String)
    (requested : Option String) (w : World Tables)
    → AreRoles w.tables
    → AreRoles (add_member parse_uuid now new_id actor raw raw_user requested w).1.tables
      × AreRoles (remove_member parse_uuid actor raw raw_user w).1.tables
member_roles_kept parse_uuid now new_id actor raw raw_user requested w roles = (
  (add_member-Keeps parse_uuid now new_id actor raw raw_user requested).at w roles,
  (remove_member-Keeps parse_uuid actor raw raw_user).at w roles,
)
