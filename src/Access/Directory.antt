-- ===== src/Access/Directory.antt =====
-- src/adapters/persistence/in-memory/in-memory-identity-store.ts, and the repositories over it of
-- in-memory-tenant-scoped-unit-of-work.ts and in-memory-platform-unit-of-work.ts. A repository that
-- is bound to a tenant takes it as an argument.
pub mod Counts
use cubeforge_api.Prelude.{
  Bool, ℕ, Option, none, some, List, [], ◌∷◌, ◌&&◌, ◌||◌, Text, Date, ◌==◌, if◌then◌else◌, filter,
  any, find, length,
}
use cubeforge_api.Prelude.Dict.{Dict, get, put, values}
use cubeforge_api.Errors.{
  Result, ok, err, violation, thrown, tenant_name_taken, already_a_member, Exec,
}
use cubeforge_api.Access.Role.{Role, admin, role_eq}
use cubeforge_api.Access.Entities.{
  Tenant, TenantStatus, Person, PersonStatus, deactivated, Membership, MembershipStatus,
  membership_active, create_person,
}

pub record Identity : Type 0 where
  pub tenants : Dict Tenant
  pub people : Dict Person
  pub memberships : Dict Membership

unfoldable pub insert_tenant : Tenant → Exec Identity (Unit {0})
insert_tenant t s =
    if any (λ e. e.name == t.name) (values s.tenants)
    then (err (violation tenant_name_taken), s)
    else (ok tt, record s { tenants = put s.tenants t.id t })

unfoldable pub insert_membership : Membership → Exec Identity (Unit {0})
insert_membership m s =
    if any (λ e. e.tenant_id == m.tenant_id && e.person_id == m.person_id) (values s.memberships)
    then (err (violation already_a_member), s)
    else (ok tt, record s { memberships = put s.memberships m.id m })

unfoldable pub find_person_by_email : Identity → Text → Option Person
find_person_by_email s email = find (λ p. p.email == email) (values s.people)

unfoldable pub memberships_of : Identity → Text → List Membership
memberships_of s tenant = filter (λ m. m.tenant_id == tenant) (values s.memberships)

-- `InMemoryTenantReadRepository.findCurrent`
unfoldable pub find_current : Identity → Text → Option Tenant
find_current s tenant = get s.tenants tenant

-- `InMemoryPersonRepository.findById`: only through a membership in this tenant.
unfoldable pub find_person : Identity → Text → Text → Option Person
find_person s tenant person =
    if any (λ m. m.person_id == person) (memberships_of s tenant) then get s.people person else none

found_or_created : Option Person → Text → Text → Date → Exec Identity Text
found_or_created (some p) candidate email created_at s = (ok p.id, s)
found_or_created none candidate email created_at s =
    let p = create_person candidate email created_at in
    (ok p.id, record s { people = put s.people p.id p })

-- `InMemoryPersonRepository.findOrCreateByEmail`
unfoldable pub find_or_create_by_email : Text → Text → Date → Exec Identity Text
unfolding found_or_created create_person
find_or_create_by_email candidate email created_at s =
    found_or_created (find_person_by_email s email) candidate email created_at s

-- `InMemoryMembershipRepository`
unfoldable pub find_by_id : Identity → Text → Text → Option Membership
find_by_id s tenant id = find (λ m. m.id == id) (memberships_of s tenant)

unfoldable pub find_by_person : Identity → Text → Text → Option Membership
find_by_person s tenant person = find (λ m. m.person_id == person) (memberships_of s tenant)

abbrev pub is_active_administrator : Membership → Bool
is_active_administrator m = role_eq m.role admin && membership_active m.status

unfoldable pub count_active_administrators : Identity → Text → ℕ
count_active_administrators s tenant =
    length (filter is_active_administrator (memberships_of s tenant))

pub record MembershipWithPerson : Type 0 where
  pub membership : Membership
  pub email : Text
  pub person_status : PersonStatus

-- A membership with its person; one that refers to no person throws.
with_person :
    Option Person
    → Membership
    → Result (List MembershipWithPerson)
    → Result (List MembershipWithPerson)
with_person none m rest = err thrown
with_person (some p) m (err e) = err e
with_person (some p) m (ok ms) =
    ok (record { membership = m; email = p.email; person_status = p.status } ∷ ms)

with_people : Dict Person → List Membership → Result (List MembershipWithPerson)
with_people people [] = ok []
with_people people (m ∷ ms) = with_person (get people m.person_id) m (with_people people ms)

unfoldable pub list_members : Identity → Text → Bool → Result (List MembershipWithPerson)
unfolding with_people with_person
list_members s tenant include_inactive =
    with_people s.people
      (filter (λ m. include_inactive || membership_active m.status) (memberships_of s tenant))

-- The private `update`: a membership outside the tenant is silently ignored.
apply_update : (Membership → Membership) → Option Membership → Identity → Identity
apply_update change none s = s
apply_update change (some m) s = record s { memberships = put s.memberships m.id (change m) }

unfoldable pub update : Text → Text → (Membership → Membership) → Identity → Identity
unfolding apply_update
update tenant id change s = apply_update change (find_by_id s tenant id) s

unfoldable pub update_status : Text → Text → MembershipStatus → Identity → Identity
update_status tenant id status = update tenant id (λ m. record m { status = status })

unfoldable pub update_role : Text → Text → Role → Identity → Identity
update_role tenant id role = update tenant id (λ m. record m { role = role })

-- `InMemoryTenantRepository.updateStatus`
set_tenant_status : Option Tenant → TenantStatus → Text → Identity → Identity
set_tenant_status none status id s = s
set_tenant_status (some t) status id s = record s {
  tenants = put s.tenants id (record t { status = status });
}

unfoldable pub update_tenant_status : Text → TenantStatus → Identity → Identity
unfolding set_tenant_status
update_tenant_status id status s = set_tenant_status (get s.tenants id) status id s

-- `InMemoryPlatformPersonRepository.deactivate`
set_deactivated : Option Person → Text → Identity → Identity
set_deactivated none id s = s
set_deactivated (some p) id s = record s {
  people = put s.people id (record p { status = deactivated });
}

unfoldable pub deactivate : Text → Identity → Identity
unfolding set_deactivated
deactivate id s = set_deactivated (get s.people id) id s
