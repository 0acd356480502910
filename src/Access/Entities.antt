-- ===== src/Access/Entities.antt =====
-- src/domain/tenant/tenant.entity.ts, src/domain/person/person.entity.ts,
-- src/domain/membership/membership.entity.ts, src/domain/tenant/tenant-administration.policy.ts
use cubeforge_api.Prelude.{
  Bool, true, false, ℕ, leb, not, Text, Date, trim, [], ◌==◌, if◌then◌else◌,
}
use cubeforge_api.Errors.{Result, ok, err, violation, thrown, last_administrator}
use cubeforge_api.Access.Role.{Role}

pub data TenantStatus : Type 0 where
  active inactive : TenantStatus

pub record Tenant : Type 0 where
  pub id : Text
  pub name : Text
  pub status : TenantStatus
  pub created_at : Date

unfoldable pub create_tenant : Text → Text → Date → Result Tenant
create_tenant id name created_at =
    let trimmed = trim name in
    if trimmed == []
    then err thrown
    else ok (record { id = id; name = trimmed; status = active; created_at = created_at })

abbrev tenant_active : TenantStatus → Bool
tenant_active active = true
tenant_active inactive = false

unfoldable pub is_tenant_active : Tenant → Bool
is_tenant_active t = tenant_active t.status

unfoldable pub deactivate_tenant : Tenant → Tenant
deactivate_tenant t = if tenant_active t.status then record t { status = inactive } else t

pub data PersonStatus : Type 0 where
  active deactivated : PersonStatus

pub record Person : Type 0 where
  pub id : Text
  pub email : Text
  pub status : PersonStatus
  pub created_at : Date

unfoldable pub create_person : Text → Text → Date → Person
create_person id email created_at = record {
  id = id;
  email = email;
  status = PersonStatus.active;
  created_at = created_at;
}

abbrev pub person_active : PersonStatus → Bool
person_active PersonStatus.active = true
person_active deactivated = false

unfoldable pub is_person_active : Person → Bool
is_person_active p = person_active p.status

unfoldable pub deactivate_person : Person → Person
deactivate_person p = if person_active p.status then record p { status = deactivated } else p

pub data MembershipStatus : Type 0 where
  active revoked : MembershipStatus

pub record Membership : Type 0 where
  pub id : Text
  pub tenant_id : Text
  pub person_id : Text
  pub role : Role
  pub status : MembershipStatus
  pub created_at : Date

unfoldable pub create_membership : Text → Text → Text → Role → Date → Membership
create_membership id tenant_id person_id role created_at = record {
  id = id;
  tenant_id = tenant_id;
  person_id = person_id;
  role = role;
  status = MembershipStatus.active;
  created_at = created_at;
}

abbrev pub membership_active : MembershipStatus → Bool
membership_active MembershipStatus.active = true
membership_active revoked = false

unfoldable pub is_membership_active : Membership → Bool
is_membership_active m = membership_active m.status

unfoldable pub revoke_membership : Membership → Membership
revoke_membership m = if membership_active m.status then record m { status = revoked } else m

unfoldable pub change_membership_role : Membership → Role → Membership
change_membership_role m role = record m { role = role }

-- `assertTenantRetainsAdministrator`
unfoldable pub assert_tenant_retains_administrator : ℕ → Bool → Result (Unit {0})
assert_tenant_retains_administrator administrators removes =
    if not removes
    then ok tt
    else if leb administrators 1
    then err (violation last_administrator)
    else ok tt
