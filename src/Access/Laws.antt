-- ===== src/Access/Laws.antt =====
-- The checks of server/src/access.rs decide the access rules.
use mathlib.Core.List.{Memᴰ}
use legal_genie_agent.Prelude.{
  String, ◌=s◌, ◌≡◌, ◌≢◌, ◌⊎◌, inl, inr, true, false, ◌&&◌, none, some, arith, eq_iff, Bool-cases,
  Option-cases,
}
use legal_genie_agent.Errors.{AppError}
use legal_genie_agent.Sql.{World, healthy, ok, err}
use legal_genie_agent.Sql.Rows.{first_where_sound}
use legal_genie_agent.Schema.{Tables, Case, Member, Permission}
use legal_genie_agent.Access.{
  case_not_found, find_case, find_member, find_permission, ensure_case_access,
  ensure_case_write_access, ensure_case_owner, ensure_operation,
}
use legal_genie_agent.Access.Roles.{IsLive, IsMemberRow, CanRead, CanWrite, IsOwner, CanDo}

find_permission_sound :
    (t : Tables) {role operation : String} {p : Permission}
    → find_permission role operation t ≡ some p
    → Memᴰ p t.permissions × (p.role ≡ role) × (p.operation ≡ operation)
unfolding find_permission
find_permission_sound t {role} {operation} {p} e =
    let (at, same) =
      first_where_sound (λ (q : Permission). q.role =s role && q.operation =s operation)
        t.permissions e in
    (at, ground (arith, eq_iff p.role role), ground (arith, eq_iff p.operation operation))

module _ (t : Tables) (u k : String) where
  pub find_case_sound :
      {c : Case} → find_case k t ≡ some c → c.status =s "deleted" ≡ false → IsLive t u k c
  unfolding find_case
  find_case_sound {c} e live =
      let (m, same) = first_where_sound (λ (d : Case). d.id =s k) t.cases e in
      (m, (eq_iff _ _).0 same, λ gone. ground (arith, eq_iff c.status "deleted"))

  find_member_sound : {m : Member} → find_member k u t ≡ some m → IsMemberRow t u k m
  unfolding find_member
  find_member_sound {m} e =
      let (at, same) =
        first_where_sound (λ (n : Member). n.case_id =s k && n.user_id =s u) t.members e in
      (at, ground (arith, eq_iff m.case_id k), ground (arith, eq_iff m.user_id u))

  -- The two ways in, from the tests of the code to the rows.
  owner_or_member {ℓ} :
      (c : Case) {A : Type ℓ}
      → (c.owner_id =s u ≡ true) ⊎ (find_member k u t ≢ none)
      → ((m : Member) → c.owner_id =s u ≡ false → find_member k u t ≡ some m → A)
      → (c.owner_id ≡ u) ⊎ A
  owner_or_member c way give = elim (Bool-cases (c.owner_id =s u)) [
    | inl owner ↦ inl ((eq_iff _ _).0 owner)
    | inr other ↦ elim (Option-cases (find_member k u t)) [
      | inl nobody ↦ absurd (ground arith)
      | inr (m, e) ↦ inr (give m other e)
    ]
  ]

module _ (w : World Tables) (u k : String) where
  access_found : (ensure_case_access u k w).0 ≡ ok tt → find_case k w.tables ≢ none
  unfolding ensure_case_access
  access_found e = ground arith

  access_tests :
      {c : Case}
      → find_case k w.tables ≡ some c
      → (ensure_case_access u k w).0 ≡ ok tt
      → (c.status =s "deleted" ≡ false)
        × ((c.owner_id =s u ≡ true) ⊎ (find_member k u w.tables ≢ none))
  unfolding ensure_case_access
  access_tests found e = ground arith

  write_found : (ensure_case_write_access u k w).0 ≡ ok tt → find_case k w.tables ≢ none
  unfolding ensure_case_write_access
  write_found e = ground arith

  write_tests :
      {c : Case}
      → find_case k w.tables ≡ some c
      → (ensure_case_write_access u k w).0 ≡ ok tt
      → (c.status =s "deleted" ≡ false)
        × ((c.owner_id =s u ≡ true) ⊎ (find_member k u w.tables ≢ none))
  unfolding ensure_case_write_access
  write_tests found e = ground arith

  write_member :
      {c : Case} {m : Member}
      → find_case k w.tables ≡ some c
      → c.owner_id =s u ≡ false
      → find_member k u w.tables ≡ some m
      → (ensure_case_write_access u k w).0 ≡ ok tt
      → (m.role_in_case =s "owner" ≡ true) ⊎ (m.role_in_case =s "member" ≡ true)
  unfolding ensure_case_write_access
  write_member found other joined e = ground arith

  owner_found : (ensure_case_owner u k w).0 ≡ ok tt → find_case k w.tables ≢ none
  unfolding ensure_case_owner
  owner_found e = ground arith

  owner_tests :
      {c : Case}
      → find_case k w.tables ≡ some c
      → (ensure_case_owner u k w).0 ≡ ok tt
      → (c.status =s "deleted" ≡ false) × (c.owner_id =s u ≡ true)
  unfolding ensure_case_owner
  owner_tests found e = ground arith

  module _ (operation : String) where
    operation_found : (ensure_operation u k operation w).0 ≡ ok tt → find_case k w.tables ≢ none
    unfolding ensure_operation
    operation_found e = ground arith

    operation_tests :
        {c : Case}
        → find_case k w.tables ≡ some c
        → (ensure_operation u k operation w).0 ≡ ok tt
        → (c.status =s "deleted" ≡ false)
          × ((c.owner_id =s u ≡ true) ⊎ (find_member k u w.tables ≢ none))
    unfolding ensure_operation
    operation_tests found e = ground arith

    operation_member :
        {c : Case} {m : Member}
        → find_case k w.tables ≡ some c
        → c.owner_id =s u ≡ false
        → find_member k u w.tables ≡ some m
        → (ensure_operation u k operation w).0 ≡ ok tt
        → find_permission m.role_in_case operation w.tables ≢ none
    unfolding ensure_operation
    operation_member found other joined e = ground arith

-- Whatever statements fail, access is granted only to the owner or a member of a live case.
pub ensure_case_access_sound :
    (w : World Tables) (u k : String) → (ensure_case_access u k w).0 ≡ ok tt → CanRead w.tables u k
ensure_case_access_sound w u k e = elim (Option-cases (find_case k w.tables)) [
  | inl missing ↦ absurd (access_found w u k e missing)
  | inr (c, found) ↦
      let (live, way) = access_tests w u k found e in
      (
        c,
        find_case_sound w.tables u k found live,
        owner_or_member w.tables u k c way
            (λ m _ joined. (m, find_member_sound w.tables u k joined)),
      )
]

-- Whatever statements fail, write access is granted only to the owner of a live case, and to its
-- members with the role owner or member.
pub ensure_case_write_access_sound :
    (w : World Tables) (u k : String)
    → (ensure_case_write_access u k w).0 ≡ ok tt
    → CanWrite w.tables u k
ensure_case_write_access_sound w u k e = elim (Option-cases (find_case k w.tables)) [
  | inl missing ↦ absurd (write_found w u k e missing)
  | inr (c, found) ↦
      let (live, way) = write_tests w u k found e in
      (
        c,
        find_case_sound w.tables u k found live,
        owner_or_member w.tables u k c way (λ m other joined. (
          m,
          find_member_sound w.tables u k joined,
          ground (
            arith,
            write_member w u k found other joined e,
            eq_iff m.role_in_case "owner",
            eq_iff m.role_in_case "member",
          ),
        )),
      )
]

-- Whatever statements fail, the owner check passes only for the owner of a live case.
pub ensure_case_owner_sound :
    (w : World Tables) (u k : String) → (ensure_case_owner u k w).0 ≡ ok tt → IsOwner w.tables u k
ensure_case_owner_sound w u k e = elim (Option-cases (find_case k w.tables)) [
  | inl missing ↦ absurd (owner_found w u k e missing)
  | inr (c, found) ↦
      let (live, owner) = owner_tests w u k found e in
      (c, find_case_sound w.tables u k found live, (eq_iff _ _).0 owner)
]

-- Whatever statements fail, an operation is allowed only to the owner of a live case, and to a
-- member for whose role the permission matrix lists the operation.
pub ensure_operation_sound :
    (w : World Tables) (u k operation : String)
    → (ensure_operation u k operation w).0 ≡ ok tt
    → CanDo w.tables u k operation
ensure_operation_sound w u k operation e = elim (Option-cases (find_case k w.tables)) [
  | inl missing ↦ absurd (operation_found w u k operation e missing)
  | inr (c, found) ↦
      let (live, way) = operation_tests w u k operation found e in
      (
        c,
        find_case_sound w.tables u k found live,
        owner_or_member w.tables u k c way (λ m other joined.
            elim (Option-cases (find_permission m.role_in_case operation w.tables)) [
              | inl unlisted ↦
                  absurd (operation_member w u k operation found other joined e unlisted)
              | inr (p, listed) ↦
                  let (at, role, op) = find_permission_sound w.tables listed in
                  (m, p, find_member_sound w.tables u k joined, at, role, op)
            ]),
      )
]

module _ (t : Tables) (u k operation : String) where
  -- What all four checks answer about a case.
  abbrev pub AllAnswer : AppError → Type 0
  AllAnswer e =
      (ensure_case_access u k (healthy t) ≡ (err e, healthy t))
      × (ensure_case_write_access u k (healthy t) ≡ (err e, healthy t))
      × (ensure_case_owner u k (healthy t) ≡ (err e, healthy t))
      × (ensure_operation u k operation (healthy t) ≡ (err e, healthy t))

  missing_answer : find_case k t ≡ none → AllAnswer case_not_found
  unfolding ensure_case_access ensure_case_write_access ensure_case_owner ensure_operation
  missing_answer e = (ground arith, ground arith, ground arith, ground arith)

  deleted_answer :
      (c : Case) → find_case k t ≡ some c → c.status =s "deleted" ≡ true → AllAnswer case_not_found
  unfolding ensure_case_access ensure_case_write_access ensure_case_owner ensure_operation
  deleted_answer c e gone = (ground arith, ground arith, ground arith, ground arith)

-- Where no live case has the identifier, all four checks answer 410101 "case not found", whoever
-- asks, so a deleted case cannot be told from one that never was.
pub deleted_case_hidden :
    (t : Tables) (u k operation : String)
    → ((c : Case) → ¬ IsLive t u k c)
    → AllAnswer t u k operation case_not_found
deleted_case_hidden t u k operation none_live = elim (Option-cases (find_case k t)) [
  | inl missing ↦ missing_answer t u k operation missing
  | inr (c, found) ↦ elim (Bool-cases (c.status =s "deleted")) [
    | inl gone ↦ deleted_answer t u k operation c found gone
    | inr live ↦ absurd (none_live c (find_case_sound t u k found live))
  ]
]
