-- ===== src/Members.antt =====
-- src/application/membership, src/application/person, src/application/tenant: who belongs to a
-- tenant, and the life of a tenant. What the clock and the identifier generator supply are arguments.
pub mod Retain
pub mod Requests
pub mod Provisioning
use cubeforge_api.Access.Entities
use cubeforge_api.Prelude.{
  Bool, not, ◌&&◌, Option, none, some, List, [], ◌∷◌, map, Text, if◌then◌else◌, length, Date, lit,
  nat_eq, trim,
}
use cubeforge_api.Access.Role.{
  Role, RoleParseResult, admin, parsed, role_eq, editor, unparsed, viewer, parse_role,
}
use cubeforge_api.Errors.{
  Result, err, Exec, ok, violation, invalid_role, not_found, validation, ◌>>◌, ◌>>=◌, asks, lift,
  guard, modify, pure,
}
use cubeforge_api.Access.Entities.{
  Membership, membership_active, person_active, Tenant, inactive, create_membership,
  assert_tenant_retains_administrator, revoke_membership, create_tenant,
}
use cubeforge_api.Access.Authorize.{
  Actor, authorize_in_tenant, tenant_of, require_platform_operator,
}
use cubeforge_api.Access.Directory.{
  MembershipWithPerson, Identity, update_tenant_status, find_or_create_by_email, insert_membership,
  find_by_id, count_active_administrators, list_members, deactivate, update_role, update_status,
  insert_tenant,
}
use cubeforge_api.UnitOfWork.{Stores, run_in_tenant, run_as_operator, on_identity}
use cubeforge_api.Prelude.Dict.{get}
use cubeforge_api.Access.Identifiers.{email_address}

abbrev pub administrators : List Role
administrators = admin ∷ []

-- `parseRole`, with the error that the use cases raise
abbrev pub required_role : RoleParseResult → Result Role
required_role (parsed r) = ok r
required_role (unparsed permitted) = err (violation (invalid_role permitted))

-- `null` is an absence.
abbrev pub required : {A : Type 0} → Option A → Result A
required none = err (violation not_found)
required (some a) = ok a

-- An address that is not one, as the error that names the field.
abbrev in_field : Text → Result Text → Result Text
in_field field (ok e) = ok e
in_field field (err e) = err (violation (validation field))

abbrev removes_by_role : Membership → Role → Bool
removes_by_role m role =
    membership_active m.status && role_eq m.role admin && not (role_eq role admin)

-- The work of `ChangeMemberRoleUseCase` in the unit of work.
unfoldable pub change_role_work : Text → Actor → Text → Text → Exec Identity (Unit {0})
change_role_work tenant actor id role = do
  asks (λ s. authorize_in_tenant s tenant actor administrators)
  new_role ← lift (required_role (parse_role role))
  m ← asks (λ s. required (find_by_id s tenant id))
  asks (λ s.
      assert_tenant_retains_administrator (count_active_administrators s tenant)
        (removes_by_role m new_role))
  modify (update_role tenant m.id new_role)

unfoldable pub change_member_role : Actor → Text → Text → Exec Stores (Unit {0})
change_member_role actor id role = do
  tenant ← lift (tenant_of actor)
  run_in_tenant (on_identity (change_role_work tenant actor id role))

-- The work of `RevokeMembershipUseCase`.
unfoldable pub revoke_work : Text → Actor → Text → Exec Identity (Unit {0})
revoke_work tenant actor id = do
  asks (λ s. authorize_in_tenant s tenant actor administrators)
  m ← asks (λ s. required (find_by_id s tenant id))
  asks (λ s.
      assert_tenant_retains_administrator (count_active_administrators s tenant)
        (membership_active m.status && role_eq m.role admin))
  let revoked = revoke_membership m
  modify (update_status tenant revoked.id revoked.status)

unfoldable pub revoke : Actor → Text → Exec Stores (Unit {0})
revoke actor id = do
  tenant ← lift (tenant_of actor)
  run_in_tenant (on_identity (revoke_work tenant actor id))

pub record CreatedMember : Type 0 where
  pub membership_id : Text
  pub person_id : Text
  pub role : Role

-- The work of `CreateTenantMemberUseCase`; `candidate` and `id` come from the generator.
unfoldable pub create_member_work :
    (Text → Text) → Date → Text → Text → Text → Actor → Text → Text → Exec Identity CreatedMember
create_member_work lower now candidate id tenant actor email role = do
  asks (λ s. authorize_in_tenant s tenant actor administrators)
  member_role ← lift (required_role (parse_role role))
  address ← lift (in_field (lit "email") (email_address lower email))
  person_id ← find_or_create_by_email candidate address now
  let m = create_membership id tenant person_id member_role now
  insert_membership m
  pure (record { membership_id = m.id; person_id = person_id; role = m.role })

unfoldable pub create_tenant_member :
    (Text → Text) → Date → Text → Text → Actor → Text → Text → Exec Stores CreatedMember
create_tenant_member lower now candidate id actor email role = do
  tenant ← lift (tenant_of actor)
  run_in_tenant (on_identity (create_member_work lower now candidate id tenant actor email role))

pub record ListedMember : Type 0 where
  pub membership_id : Text
  pub person_id : Text
  pub email : Option Text
  pub role : Role
  pub active : Bool

unfoldable pub present : Bool → MembershipWithPerson → ListedMember
present discloses e = record {
  membership_id = e.membership.id;
  person_id = e.membership.person_id;
  email = if discloses then some e.email else none;
  role = e.membership.role;
  active = membership_active e.membership.status && person_active e.person_status;
}

abbrev everyone : List Role
everyone = admin ∷ editor ∷ viewer ∷ []

unfoldable pub list_tenant_members : Actor → Bool → Exec Stores (List ListedMember)
list_tenant_members actor include_inactive = do
  tenant ← lift (tenant_of actor)
  run_in_tenant (
      on_identity (do
        a ← asks (λ s. authorize_in_tenant s tenant actor everyone)
        members ← asks (λ s. list_members s tenant include_inactive)
        pure (map (present (role_eq a.role admin)) members)))

-- `DeactivatePersonUseCase` and `DeactivateTenantUseCase`
unfoldable pub deactivate_person : Actor → Text → Exec Identity (Unit {0})
deactivate_person actor id = do
  lift (require_platform_operator actor)
  run_as_operator (modify (deactivate id))

unfoldable pub deactivate_tenant : Actor → Text → Exec Identity (Unit {0})
deactivate_tenant actor id = do
  lift (require_platform_operator actor)
  run_as_operator (do
    t ← asks (λ s. required (get s.tenants id))
    let inactive_tenant = Entities.deactivate_tenant t
    modify (update_tenant_status inactive_tenant.id inactive_tenant.status))

-- `try { body } catch (error) { recover; throw error }`
abbrev recovered : {S A : Type 0} → (S → S) → Result A × S → Result A × S
recovered recover (ok a, s) = (ok a, s)
recovered recover (err e, s) = (err e, recover s)

abbrev pub rescue : {S A : Type 0} → (S → S) → Exec S A → Exec S A
rescue recover body s = recovered recover (body s)

pub record ProvisionedTenant : Type 0 where
  pub tenant : Tenant
  pub administrator_person_id : Text

-- The second unit of work of `ProvisionTenantUseCase`: the administrator.
unfoldable pub install_administrator : Date → Text → Text → Text → Text → Exec Identity Text
install_administrator now candidate id tenant address = do
  person_id ← find_or_create_by_email candidate address now
  insert_membership (create_membership id tenant person_id admin now)
  pure person_id

abbrev retire : Text → Stores → Stores
retire tenant s = record s { identity = update_tenant_status tenant inactive s.identity }

-- `new_id`, `candidate` and `id` are the generated identifiers of the tenant, the person and the
-- membership.
unfoldable pub provision_tenant :
    (Text → Text) → Date → Text → Text → Text → Actor → Text → Text → Exec Stores ProvisionedTenant
provision_tenant lower now new_id candidate id actor name administrator_email = do
  lift (require_platform_operator actor)
  guard (not (nat_eq (length (trim name)) 0)) (violation (validation (lit "name")))
  address ← lift (in_field (lit "administratorEmail") (email_address lower administrator_email))
  t ← lift (create_tenant new_id name now)
  on_identity (run_as_operator (insert_tenant t))
  person_id ←
      rescue (retire t.id)
        (run_in_tenant (on_identity (install_administrator now candidate id t.id address)))
  pure (record { tenant = t; administrator_person_id = person_id })
