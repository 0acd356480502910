-- ===== src/Access/Decision.antt =====
-- src/domain/access/access-decision.ts
use cubeforge_api.Prelude.{
  true, Option, none, some, not, ◌==◌, if◌then◌else◌, ◌≡◌, ◌↔◌, refl, arith, eq_iff,
}
use cubeforge_api.Access.Role.{Role}
use cubeforge_api.Access.Entities.{
  Tenant, Person, Membership, is_tenant_active, is_person_active, is_membership_active,
}

pub data AccessRefusal : Type 0 where
  tenant_inactive person_deactivated no_membership membership_revoked : AccessRefusal

pub data AccessDecision : Type 0 where
  granted : Role → AccessDecision
  refused : AccessRefusal → AccessDecision

-- The part of `decideAccess` behind the two status checks.
decide_membership : Tenant → Option Membership → AccessDecision
decide_membership t none = refused no_membership
decide_membership t (some m) =
    if not (m.tenant_id == t.id)
    then refused no_membership
    else if not (is_membership_active m)
    then refused membership_revoked
    else granted m.role

unfoldable pub decide_access : Tenant → Person → Option Membership → AccessDecision
unfolding decide_membership
decide_access t p m =
    if not (is_tenant_active t)
    then refused tenant_inactive
    else if not (is_person_active p)
    then refused person_deactivated
    else decide_membership t m

-- What it takes to act in a tenant with a role.
pub record HasStanding (t : Tenant) (p : Person) (o : Option Membership) (role : Role)
    : Type 0 where
  pub tenant_works : is_tenant_active t ≡ true
  pub person_works : is_person_active p ≡ true
  pub membership : Membership
  pub found : o ≡ some membership
  pub here : membership.tenant_id ≡ t.id
  pub works : is_membership_active membership ≡ true
  pub carries : membership.role ≡ role

decide_sound :
    (t : Tenant) (p : Person) (m : Option Membership) (r : Role)
    → decide_access t p m ≡ granted r
    → HasStanding t p m r
unfolding decide_access
decide_sound t p none r h = absurd (ground arith)
decide_sound t p (some m) r h = record {
  tenant_works = ground arith;
  person_works = ground arith;
  membership = m;
  found = refl;
  here = ground (arith, eq_iff m.tenant_id t.id);
  works = ground arith;
  carries = ground arith;
}

decide_complete :
    (t : Tenant) (p : Person) (m : Option Membership) (r : Role)
    → HasStanding t p m r
    → decide_access t p m ≡ granted r
unfolding decide_access
decide_complete t p m r s =
    ground (arith, eq_iff s.membership.tenant_id t.id, s.found, s.here, s.works, s.carries)

-- Access is granted with a role exactly to an active person, in an active tenant, whose membership
-- is one of this tenant, is active and carries that role.
pub decide_access-granted_iff :
    (t : Tenant) (p : Person) (m : Option Membership) (r : Role)
    → (decide_access t p m ≡ granted r) ↔ HasStanding t p m r
decide_access-granted_iff t p m r = (decide_sound t p m r, decide_complete t p m r)
