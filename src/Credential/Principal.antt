-- ===== src/Credential/Principal.antt =====
-- src/application/principal-resolver.ts and src/application/identity/describe-caller.use-case.ts
pub mod Standing
use cubeforge_api.Prelude.{
  Bool, not, ◌&&◌, Option, none, some, List, [], ◌∷◌, Text, ◌==◌, if◌then◌else◌, filter, Date,
  includes,
}
use cubeforge_api.Credential.Store.{is_operator, find_credential}
use cubeforge_api.Access.Entities.{is_person_active, Tenant, Person, person_active, Membership}
use cubeforge_api.Credential.Keys.{ResolvedApiKey, record_use, resolve}
use cubeforge_api.Credential.Tokens.{Crypto, verify_token}
use cubeforge_api.Credential.Store.{StoredCredential, Vault, run_authenticating, is_operator}
use cubeforge_api.Errors.{
  Exec, Result, ok, err, ◌>>=◌, gets, lift, violation, forbidden, not_found, asks,
}
use cubeforge_api.Prelude.Dict.{Dict, get, values}
use cubeforge_api.Access.Role.{Role}
use cubeforge_api.Access.Authorize.{Actor, machine, person, platform_operator, tenant_member}
use cubeforge_api.Access.Decision.{AccessDecision, decide_access, granted, refused}
use cubeforge_api.Prelude.Sort.{sort}

-- `PresentedCredential`
pub data PresentedCredential : Type 0 where
  access_token : (token : Text) → (tenant_id : Option Text) → PresentedCredential
  api_key : (secret : Text) → PresentedCredential

abbrev key_actor : ResolvedApiKey → Actor
key_actor k = machine k.id k.tenant_id k.role

abbrev resolve_key : Date → Option ResolvedApiKey → Exec Vault (Option Actor)
resolve_key now none s = (ok none, s)
resolve_key now (some k) s =
    (ok (some (key_actor k)), record s { keys = record_use k.id now s.keys })

-- `resolveApiKey`
unfoldable pub resolve_api_key : Crypto → Date → Text → Exec Vault (Option Actor)
resolve_api_key c now presented =
    run_authenticating (λ s. resolve_key now (resolve s.keys (c.digest presented)) s)

abbrev pub standing_of : Bool → Text → Option StoredCredential → Option Actor
standing_of operates person_id none = none
standing_of operates person_id (some stored) =
    if not (person_active stored.person_status)
    then none
    else if operates
    then some (platform_operator person_id)
    else some (person person_id)

-- `resolveStanding`
unfoldable pub resolve_standing : Text → Exec Vault (Option Actor)
resolve_standing person_id =
    run_authenticating
      (gets (λ s. standing_of (is_operator s person_id) person_id (find_credential s person_id)))

abbrev resolve_subject : Option Text → Option Text → Exec Vault (Option Actor)
resolve_subject none tenant s = (ok none, s)
resolve_subject (some person_id) (some tenant) s = (ok (some (tenant_member person_id tenant)), s)
resolve_subject (some person_id) none s = resolve_standing person_id s

-- `resolveAccessToken`
unfoldable pub resolve_access_token : Crypto → Date → Text → Option Text → Exec Vault (Option Actor)
resolve_access_token c now token tenant = do
  subject ← lift (verify_token c token now)
  resolve_subject subject tenant

-- `PrincipalResolver.resolve`
unfoldable pub resolve_principal : Crypto → Date → PresentedCredential → Exec Vault (Option Actor)
resolve_principal c now (api_key presented) = resolve_api_key c now presented
resolve_principal c now (access_token token tenant) = resolve_access_token c now token tenant

pub record StandingMembershipRecord : Type 0 where
  pub tenant : Tenant
  pub membership : Membership

-- `CallerStandingRecord`
pub record CallerRecord : Type 0 where
  pub person : Person
  pub is_operator : Bool
  pub memberships : List StandingMembershipRecord

abbrev with_tenant :
    Option Tenant → Membership → List StandingMembershipRecord → List StandingMembershipRecord
with_tenant none m rest = rest
with_tenant (some t) m rest = record { tenant = t; membership = m } ∷ rest

-- The filter and the `flatMap` of `describeCaller`.
unfoldable pub standings_of : Dict Tenant → List Membership → List StandingMembershipRecord
standings_of tenants [] = []
standings_of tenants (m ∷ ms) = with_tenant (get tenants m.tenant_id) m (standings_of tenants ms)

abbrev record_of : Vault → Text → Option Person → Option CallerRecord
record_of s person_id none = none
record_of s person_id (some p) = some (record {
  person = p;
  is_operator = includes s.credentials.operators p.id && is_person_active p;
  memberships =
      standings_of s.identity.tenants
        (filter (λ m. m.person_id == person_id) (values s.identity.memberships));
})

-- `InMemoryStandingRepository.describeCaller`
unfoldable pub describe_record : Vault → Text → Option CallerRecord
describe_record s person_id = record_of s person_id (get s.identity.people person_id)

pub record StandingMembership : Type 0 where
  pub tenant_id : Text
  pub tenant_name : Text
  pub role : Role

pub record CallerStanding : Type 0 where
  pub person_id : Text
  pub email : Text
  pub is_operator : Bool
  pub memberships : List StandingMembership

abbrev caller_person_of : Actor → Result Text
caller_person_of (person p) = ok p
caller_person_of (platform_operator p) = ok p
caller_person_of _ = err (violation forbidden)

abbrev granted_in : AccessDecision → Tenant → List StandingMembership → List StandingMembership
granted_in (granted role) t rest =
    record { tenant_id = t.id; tenant_name = t.name; role = role } ∷ rest
granted_in (refused reason) t rest = rest

-- The `flatMap` of `present`.
unfoldable pub granted_memberships :
    Person → List StandingMembershipRecord → List StandingMembership
granted_memberships p [] = []
granted_memberships p (r ∷ rs) =
    granted_in (decide_access r.tenant p (some r.membership)) r.tenant (granted_memberships p rs)

abbrev presented : (Text → Text → Bool) → Option CallerRecord → Result CallerStanding
presented le none = err (violation not_found)
presented le (some r) = ok (record {
  person_id = r.person.id;
  email = r.person.email;
  is_operator = r.is_operator;
  memberships =
      sort (λ a b. le a.tenant_name b.tenant_name) (granted_memberships r.person r.memberships);
})

-- `DescribeCallerUseCase.execute`; `le` is whether `localeCompare` answers at most 0.
unfoldable pub describe_caller : (Text → Text → Bool) → Actor → Exec Vault CallerStanding
describe_caller le actor = do
  person_id ← lift (caller_person_of actor)
  asks (λ s. presented le (describe_record s person_id))
