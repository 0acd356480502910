-- ===== src/Access/Authorize/Standing.antt =====
-- Who is authorised in a tenant.
use cubeforge_api.Prelude.{
  true, Option, none, some, List, Text, ◌≡◌, ◌↔◌, inl, inr, refl, sym, ap, arith, Bool-cases, subst,
}
use cubeforge_api.Access.Directory.{Identity, find_current, find_person, find_by_person}
use cubeforge_api.Access.Entities.{Tenant, Person, Membership, is_tenant_active}
use cubeforge_api.Access.Role.{Role, permits}
use cubeforge_api.Access.Authorize.{
  Actor, authorize_caller_in_tenant, authorize_in_tenant, find_current, conclude, consider,
  authorize_machine, ok, find_person, permits, AccessDecision, role_of, is_tenant_active,
  platform_operator, find_by_person, tenant_member, granted, decide_access, person, machine,
}
use cubeforge_api.Access.Decision.{
  HasStanding, AccessDecision, granted, decide_access, decide_access-granted_iff, refused,
}
use cubeforge_api.Errors.{ok}

-- Who may act in a tenant with a role, where the operation permits some roles.
pub data MayAct (s : Identity) (tenant : Text) (permitted : List Role) : Actor → Role → Type 0 where
  as_member :
      (person_id tenant_id : Text) (t : Tenant) (p : Person) (role : Role)
      → find_current s tenant ≡ some t
      → find_person s tenant person_id ≡ some p
      → HasStanding t p (find_by_person s tenant person_id) role
      → permits permitted role ≡ true
      → MayAct s tenant permitted (tenant_member person_id tenant_id) role
  as_machine :
      (key tenant_id : Text) (t : Tenant) (role : Role)
      → find_current s tenant ≡ some t
      → is_tenant_active t ≡ true
      → permits permitted role ≡ true
      → MayAct s tenant permitted (machine key tenant_id role) role

record Granted (ot : Option Tenant) (op : Option Person) (om : Option Membership)
    (permitted : List Role) (role : Role) : Type 0 where
  tenant : Tenant
  person : Person
  there : ot ≡ some tenant
  known : op ≡ some person
  standing : HasStanding tenant person om role
  permitted_role : permits permitted role ≡ true

conclude_sound :
    (d : AccessDecision) (t : Tenant) (p : Person) (om : Option Membership) (permitted : List Role)
    (role : Role)
    → role_of (conclude d t p om permitted) ≡ ok role
    → (d ≡ granted role) × (permits permitted role ≡ true)
unfolding conclude
conclude_sound (granted r) t p none permitted role h = absurd (ground arith)
conclude_sound (granted r) t p (some m) permitted role h = elim (Bool-cases (permits permitted r)) [
  | inl e ↦ let same : r ≡ role = ground (arith, h, e) in (ap granted same, rw (← same) e)
  | inr e ↦ absurd (ground (arith, h, e))
]
conclude_sound (refused r) t p om permitted role h = absurd (ground arith)

consider_sound :
    (ot : Option Tenant) (op : Option Person) (om : Option Membership) (permitted : List Role)
    (role : Role)
    → role_of (consider ot op om permitted) ≡ ok role
    → Granted ot op om permitted role
unfolding consider
consider_sound none op om permitted role h = absurd (ground arith)
consider_sound (some t) none om permitted role h = absurd (ground arith)
consider_sound (some t) (some p) om permitted role h =
    let (given, allowed) = conclude_sound (decide_access t p om) t p om permitted role h in
    record {
      tenant = t;
      person = p;
      there = refl;
      known = refl;
      standing = (decide_access-granted_iff t p om role).0 given;
      permitted_role = allowed;
    }

consider_complete :
    (t : Tenant) (p : Person) (om : Option Membership) (permitted : List Role) (role : Role)
    → HasStanding t p om role
    → permits permitted role ≡ true
    → role_of (consider (some t) (some p) om permitted) ≡ ok role
unfolding consider conclude
consider_complete t p om permitted role h e =
    rw ((decide_access-granted_iff t p om role).1 h, h.found, e)

machine_sound :
    (ot : Option Tenant) (role r : Role) (permitted : List Role)
    → authorize_machine ot role permitted ≡ ok r
    → (r ≡ role)
      × (t : Tenant) × (ot ≡ some t)
      × (is_tenant_active t ≡ true)
      × (permits permitted role ≡ true)
unfolding authorize_machine
machine_sound none role r permitted h = absurd (ground arith)
machine_sound (some t) role r permitted h =
    (ground (arith, h), t, refl, ground (arith, h), ground (arith, h))

module _ (s : Identity) (tenant : Text) (permitted : List Role) where
  authorize_sound :
      (actor : Actor) (role : Role)
      → authorize_caller_in_tenant s tenant actor permitted ≡ ok role
      → MayAct s tenant permitted actor role
  unfolding authorize_caller_in_tenant authorize_in_tenant
  authorize_sound (platform_operator p) role h = absurd (ground arith)
  authorize_sound (person p) role h = absurd (ground arith)
  authorize_sound (tenant_member p t) role h =
      let g =
        consider_sound (find_current s tenant) (find_person s tenant p) (find_by_person s tenant p)
          permitted role h in
      as_member p t g.tenant g.person role g.there g.known g.standing g.permitted_role
  authorize_sound (machine key t own) role h =
      let (same, found, there, works, allowed) =
        machine_sound (find_current s tenant) own role permitted h in
      subst (MayAct s tenant permitted (machine key t own)) (sym same)
        (as_machine key t found own there works allowed)

  authorize_complete :
      (actor : Actor) (role : Role)
      → MayAct s tenant permitted actor role
      → authorize_caller_in_tenant s tenant actor permitted ≡ ok role
  unfolding authorize_caller_in_tenant authorize_in_tenant authorize_machine
  authorize_complete _ _ (as_member p tid t q role there known standing allowed) =
      rw (there, known)
        (consider_complete t q (find_by_person s tenant p) permitted role standing allowed)
  authorize_complete _ _ (as_machine key tid t role there works allowed) =
      rw (there, works, allowed)

  -- A caller is authorised with a role exactly if an active tenant is there, the operation permits
  -- the role, and the caller is either a person who is known there and has standing with that role,
  -- or a key that carries it.
  pub authorize_caller_in_tenant_iff :
      (actor : Actor) (role : Role)
      → (authorize_caller_in_tenant s tenant actor permitted ≡ ok role)
        ↔ MayAct s tenant permitted actor role
  authorize_caller_in_tenant_iff actor role =
      (authorize_sound actor role, authorize_complete actor role)
