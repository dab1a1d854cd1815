-- ===== src/Access/Roles.antt =====
-- The access rules of server/src/access.rs, stated of the rows and without the queries.
use mathlib.Core.List.{Memᴰ}
use legal_genie_agent.Prelude.{String, ◌≡◌, ◌≢◌, ◌⊎◌}
use legal_genie_agent.Schema.{Tables, Case, Member, Permission}

-- The primary key of `cases` and the unique constraint of `case_members`.
pub record IsKeyed (t : Tables) : Type 0 where
  pub case_key : (c d : Case) → Memᴰ c t.cases → Memᴰ d t.cases → c.id ≡ d.id → c ≡ d
  pub member_key :
      (m n : Member)
      → Memᴰ m t.members
      → Memᴰ n t.members
      → m.case_id ≡ n.case_id
      → m.user_id ≡ n.user_id
      → m ≡ n

module _ (t : Tables) (user_id case_id : String) where
  -- The case stands in the table and is not deleted.
  abbrev pub IsLive : Case → Type 0
  IsLive c = Memᴰ c t.cases × (c.id ≡ case_id) × (c.status ≢ "deleted")

  abbrev pub IsMemberRow : Member → Type 0
  IsMemberRow m = Memᴰ m t.members × (m.case_id ≡ case_id) × (m.user_id ≡ user_id)

  -- Owners and members of any role read a live case.
  abbrev pub CanRead : Type 0
  CanRead = (c : Case) × IsLive c × ((c.owner_id ≡ user_id) ⊎ ((m : Member) × IsMemberRow m))

  -- Owners, and members with the role owner or member, write.
  abbrev pub CanWrite : Type 0
  CanWrite =
      (c : Case) × IsLive c
      × ((c.owner_id ≡ user_id)
          ⊎ ((m : Member) × IsMemberRow m
              × ((m.role_in_case ≡ "owner") ⊎ (m.role_in_case ≡ "member"))))

  abbrev pub IsOwner : Type 0
  IsOwner = (c : Case) × IsLive c × (c.owner_id ≡ user_id)

  -- Owners do everything; a member does what the permission matrix has for the role.
  abbrev pub CanDo : String → Type 0
  CanDo operation =
      (c : Case) × IsLive c
      × ((c.owner_id ≡ user_id)
          ⊎ ((m : Member) × (p : Permission) × IsMemberRow m
              × Memᴰ p t.permissions
              × (p.role ≡ m.role_in_case)
              × (p.operation ≡ operation)))
