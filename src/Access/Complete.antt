-- ===== src/Access/Complete.antt =====
-- The checks of server/src/access.rs on a connection that works, compared with the access rules.
use mathlib.Core.List.{Memᴰ}
use legal_genie_agent.Prelude.{
  String, ◌=s◌, ◌≡◌, ◌≢◌, ◌↔◌, refl, inl, inr, ◌&&◌, none, some, arith, eq_iff,
}
use legal_genie_agent.Sql.{World, healthy, ok}
use legal_genie_agent.Sql.Rules.{Keeps, keeps_rules}
use legal_genie_agent.Sql.Rows.{first_where_complete, first_where-ne-none}
use legal_genie_agent.Schema.{Tables, Case, Member, Permission}
use legal_genie_agent.Access.{
  find_case, find_member, find_permission, ensure_case_access, ensure_case_write_access,
  ensure_case_owner, ensure_operation,
}
use legal_genie_agent.Access.Roles.{IsKeyed, IsLive, IsMemberRow, CanRead, CanWrite, IsOwner, CanDo}
use legal_genie_agent.Access.Laws.{
  ensure_case_access_sound, ensure_case_write_access_sound, ensure_case_owner_sound,
  ensure_operation_sound,
}

find_permission-ne-none :
    (t : Tables) {role operation : String} (p : Permission)
    → Memᴰ p t.permissions
    → p.role ≡ role
    → p.operation ≡ operation
    → find_permission role operation t ≢ none
unfolding find_permission
find_permission-ne-none t {role} {operation} p at r o =
    first_where-ne-none (λ (q : Permission). q.role =s role && q.operation =s operation)
      t.permissions p at (ground (arith, eq_iff p.role role, eq_iff p.operation operation))

module _ (t : Tables) (keyed : IsKeyed t) (u k : String) where
  pub find_case_complete : (c : Case) → IsLive t u k c → find_case k t ≡ some c
  unfolding find_case
  find_case_complete c (at, same, _) =
      first_where_complete (λ (d : Case). d.id =s k) t.cases c at ((eq_iff c.id k).1 same)
        (λ d there fits. keyed.case_key d c there at (ground (arith, eq_iff d.id k)))

  pub find_member_complete : (m : Member) → IsMemberRow t u k m → find_member k u t ≡ some m
  unfolding find_member
  find_member_complete m (at, case, user) =
      first_where_complete (λ (n : Member). n.case_id =s k && n.user_id =s u) t.members m at
        (ground (arith, eq_iff m.case_id k, eq_iff m.user_id u))
        (λ n there fits.
          keyed.member_key n m there at (ground (arith, eq_iff n.case_id k))
            (ground (arith, eq_iff n.user_id u)))

  access_complete : CanRead t u k → ensure_case_access u k (healthy t) ≡ (ok tt, healthy t)
  unfolding ensure_case_access
  access_complete (c, live, inl owner) =
      ground (arith, find_case_complete c live, eq_iff c.status "deleted", eq_iff c.owner_id u)
  access_complete (c, live, inr (m, row)) =
      ground
        (arith, find_case_complete c live, eq_iff c.status "deleted", find_member_complete m row)

  write_complete : CanWrite t u k → ensure_case_write_access u k (healthy t) ≡ (ok tt, healthy t)
  unfolding ensure_case_write_access
  write_complete (c, live, inl owner) =
      ground (arith, find_case_complete c live, eq_iff c.status "deleted", eq_iff c.owner_id u)
  write_complete (c, live, inr (m, row, role)) = ground (
    arith,
    find_case_complete c live,
    eq_iff c.status "deleted",
    find_member_complete m row,
    eq_iff m.role_in_case "owner",
    eq_iff m.role_in_case "member",
  )

  owner_complete : IsOwner t u k → ensure_case_owner u k (healthy t) ≡ (ok tt, healthy t)
  unfolding ensure_case_owner
  owner_complete (c, live, owner) =
      ground (arith, find_case_complete c live, eq_iff c.status "deleted", eq_iff c.owner_id u)

  operation_complete :
      (operation : String)
      → CanDo t u k operation
      → ensure_operation u k operation (healthy t) ≡ (ok tt, healthy t)
  unfolding ensure_operation
  operation_complete operation (c, live, inl owner) =
      ground (arith, find_case_complete c live, eq_iff c.status "deleted", eq_iff c.owner_id u)
  operation_complete operation (c, live, inr (m, p, row, listed, role, op)) = ground (
    arith,
    find_case_complete c live,
    eq_iff c.status "deleted",
    find_member_complete m row,
    find_permission-ne-none t p listed role op,
  )

-- On a keyed database and a connection that works, the read check passes exactly for those whom
-- the access rules let read the case, and it changes nothing.
pub ensure_case_access_iff :
    (t : Tables) (u k : String)
    → IsKeyed t
    → (ensure_case_access u k (healthy t) ≡ (ok tt, healthy t)) ↔ CanRead t u k
ensure_case_access_iff t u k keyed =
    (λ e. ensure_case_access_sound (healthy t) u k (rw e refl), access_complete t keyed u k)

-- On a keyed database and a connection that works, the write check passes exactly for those whom
-- the access rules let write the case, and it changes nothing.
pub ensure_case_write_access_iff :
    (t : Tables) (u k : String)
    → IsKeyed t
    → (ensure_case_write_access u k (healthy t) ≡ (ok tt, healthy t)) ↔ CanWrite t u k
ensure_case_write_access_iff t u k keyed =
    (λ e. ensure_case_write_access_sound (healthy t) u k (rw e refl), write_complete t keyed u k)

-- On a keyed database and a connection that works, the owner check passes exactly for the owner
-- of a live case, and it changes nothing.
pub ensure_case_owner_iff :
    (t : Tables) (u k : String)
    → IsKeyed t
    → (ensure_case_owner u k (healthy t) ≡ (ok tt, healthy t)) ↔ IsOwner t u k
ensure_case_owner_iff t u k keyed =
    (λ e. ensure_case_owner_sound (healthy t) u k (rw e refl), owner_complete t keyed u k)

-- On a keyed database and a connection that works, the operation check passes exactly for the
-- owner of a live case and for the members whose role has the operation in the permission matrix,
-- and it changes nothing.
pub ensure_operation_iff :
    (t : Tables) (u k operation : String)
    → IsKeyed t
    → (ensure_operation u k operation (healthy t) ≡ (ok tt, healthy t)) ↔ CanDo t u k operation
ensure_operation_iff t u k operation keyed = (
  λ e. ensure_operation_sound (healthy t) u k operation (rw e refl),
  operation_complete t keyed u k operation,
)

checks_keep :
    (t : Tables) (u k operation : String)
    → Keeps (λ s. s ≡ t) (ensure_case_access u k)
      × Keeps (λ s. s ≡ t) (ensure_case_write_access u k)
      × Keeps (λ s. s ≡ t) (ensure_case_owner u k)
      × Keeps (λ s. s ≡ t) (ensure_operation u k operation)
unfolding ensure_case_access ensure_case_write_access ensure_case_owner ensure_operation
checks_keep t u k operation = (
  search keeps_rules depth 12,
  search keeps_rules depth 12,
  search keeps_rules depth 12,
  search keeps_rules depth 12,
)

-- Whatever statements fail, the four checks leave the tables as they were.
pub checks_change_nothing :
    (w : World Tables) (u k operation : String)
    → ((ensure_case_access u k w).1.tables ≡ w.tables)
      × ((ensure_case_write_access u k w).1.tables ≡ w.tables)
      × ((ensure_case_owner u k w).1.tables ≡ w.tables)
      × ((ensure_operation u k operation w).1.tables ≡ w.tables)
checks_change_nothing w u k operation =
    let (access, write, owner, do_it) = checks_keep w.tables u k operation in
    (access.at w refl, write.at w refl, owner.at w refl, do_it.at w refl)
