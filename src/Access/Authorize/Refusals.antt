-- ===== src/Access/Authorize/Refusals.antt =====
-- What `authorizeInTenant` of src/application/tenant-authorization.ts throws.
use cubeforge_api.Prelude.{
  Option, none, some, List, Text, ◌≡◌, ◌⊎◌, inl, inr, sym, arith, Bool-cases,
}
use cubeforge_api.Access.Role.{Role, permits}
use cubeforge_api.Access.Authorize.{
  conclude, consider, authorize_in_tenant, AccessDecision, Tenant, violation, Person, Identity,
  Actor, not_found, Membership, forbidden, err, granted, decide_access, tenant_member, find_current,
  find_person, find_by_person, platform_operator, person, machine,
}
use cubeforge_api.Errors.{Failure, violation, not_found, forbidden, err, err-injective}
use cubeforge_api.Access.Decision.{AccessDecision, decide_access, refused}
use cubeforge_api.Access.Entities.{Tenant, Person, Membership}
use cubeforge_api.Access.Directory.{Identity, find_current, find_person, find_by_person}

abbrev pub Refuses : Failure → Type 0
Refuses e = (e ≡ violation not_found) ⊎ (e ≡ violation forbidden)

conclude-Refuses :
    (d : AccessDecision) (t : Tenant) (p : Person) (m : Option Membership) (permitted : List Role)
    (e : Failure)
    → conclude d t p m permitted ≡ err e
    → Refuses e
unfolding conclude
conclude-Refuses (granted role) t p (some m) permitted e h =
    elim (Bool-cases (permits permitted role)) [
      | inl allowed ↦ absurd (ground (arith, rw allowed at h))
      | inr barred ↦ inr (sym (err-injective (rw barred at h)))
    ]
conclude-Refuses (granted role) t p none permitted e h = inl (sym (err-injective h))
conclude-Refuses (refused why) t p m permitted e h = inl (sym (err-injective h))

consider-Refuses :
    (t : Option Tenant) (p : Option Person) (m : Option Membership) (permitted : List Role)
    (e : Failure)
    → consider t p m permitted ≡ err e
    → Refuses e
unfolding consider
consider-Refuses (some t) (some p) m permitted e h =
    conclude-Refuses (decide_access t p m) t p m permitted e h
consider-Refuses none p m permitted e h = inl (sym (err-injective h))
consider-Refuses (some t) none m permitted e h = inl (sym (err-injective h))

pub authorize_in_tenant-Refuses :
    (s : Identity) (tenant : Text) (actor : Actor) (permitted : List Role) (e : Failure)
    → authorize_in_tenant s tenant actor permitted ≡ err e
    → Refuses e
unfolding authorize_in_tenant
authorize_in_tenant-Refuses s tenant (tenant_member p t) permitted e h =
    consider-Refuses (find_current s tenant) (find_person s tenant p) (find_by_person s tenant p)
      permitted e h
authorize_in_tenant-Refuses s tenant (platform_operator p) permitted e h =
    inl (sym (err-injective h))
authorize_in_tenant-Refuses s tenant (person p) permitted e h = inl (sym (err-injective h))
authorize_in_tenant-Refuses s tenant (machine k t r) permitted e h = inl (sym (err-injective h))
