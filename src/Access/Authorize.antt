-- ===== src/Access/Authorize.antt =====
-- src/application/actor-context.ts and src/application/tenant-authorization.ts
pub mod Standing
pub mod Refusals
use cubeforge_api.Prelude.{Option, none, some, List, Text, not, if◌then◌else◌}
use cubeforge_api.Errors.{Result, ok, err, violation, not_found, forbidden}
use cubeforge_api.Access.Role.{Role, permits}
use cubeforge_api.Access.Entities.{Tenant, Person, Membership, is_tenant_active}
use cubeforge_api.Access.Decision.{AccessDecision, granted, decide_access}
use cubeforge_api.Access.Directory.{Identity, find_current, find_person, find_by_person}

-- `ActorContext`
pub data Actor : Type 0 where
  platform_operator : (person_id : Text) → Actor
  person : (person_id : Text) → Actor
  tenant_member : (person_id tenant_id : Text) → Actor
  machine : (api_key_id tenant_id : Text) → Role → Actor

pub record AuthorizedActor : Type 0 where
  pub tenant : Tenant
  pub person : Person
  pub membership : Membership
  pub role : Role

-- The end of `authorizeInTenant`: the decision is in, and the role is looked up.
conclude : AccessDecision → Tenant → Person → Option Membership → List Role → Result AuthorizedActor
conclude (granted role) t p (some m) permitted =
    if not (permits permitted role)
    then err (violation forbidden)
    else ok (record { tenant = t; person = p; membership = m; role = role })
conclude _ t p m permitted = err (violation not_found)

-- The middle: a tenant or a person that is missing is an absence.
consider : Option Tenant → Option Person → Option Membership → List Role → Result AuthorizedActor
consider (some t) (some p) m permitted = conclude (decide_access t p m) t p m permitted
consider _ _ m permitted = err (violation not_found)

-- `tenant` is the tenant that the repositories are bound to.
unfoldable pub authorize_in_tenant : Identity → Text → Actor → List Role → Result AuthorizedActor
unfolding consider conclude
authorize_in_tenant s tenant (tenant_member person_id tenant_id) permitted =
    consider (find_current s tenant) (find_person s tenant person_id)
      (find_by_person s tenant person_id) permitted
authorize_in_tenant s tenant _ permitted = err (violation not_found)

unfoldable pub tenant_of : Actor → Result Text
tenant_of (tenant_member person_id tenant_id) = ok tenant_id
tenant_of _ = err (violation not_found)

abbrev role_of : Result AuthorizedActor → Result Role
role_of (ok a) = ok a.role
role_of (err e) = err e

authorize_machine : Option Tenant → Role → List Role → Result Role
authorize_machine none role permitted = err (violation not_found)
authorize_machine (some t) role permitted =
    if not (is_tenant_active t)
    then err (violation not_found)
    else if not (permits permitted role)
    then err (violation forbidden)
    else ok role

unfoldable pub authorize_caller_in_tenant : Identity → Text → Actor → List Role → Result Role
unfolding authorize_machine
authorize_caller_in_tenant s tenant (machine key tenant_id role) permitted =
    authorize_machine (find_current s tenant) role permitted
authorize_caller_in_tenant s tenant actor permitted =
    role_of (authorize_in_tenant s tenant actor permitted)

unfoldable pub tenant_acted_in : Actor → Result Text
tenant_acted_in (tenant_member person_id tenant_id) = ok tenant_id
tenant_acted_in (machine key tenant_id role) = ok tenant_id
tenant_acted_in _ = err (violation not_found)

unfoldable pub require_platform_operator : Actor → Result (Unit {0})
require_platform_operator (platform_operator person_id) = ok tt
require_platform_operator _ = err (violation forbidden)
