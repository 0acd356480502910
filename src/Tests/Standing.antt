-- ===== src/Tests/Standing.antt =====
-- A token, a caller's own standing, and a new tenant.
use cubeforge_api.Prelude.{
  ◌<ℤ◌, ◌+ℤ◌, ◌↔◌, ◌≡◌, refl, pos, lit, some, none, Text, In, ◌==◌, trim, trim_start, trim_end,
  trim_keep, is_space, at, Bool, false, true, ◌∷◌, [], includes,
}
use cubeforge_api.Tests.Inventory.{ann, epoch, stores}
use cubeforge_api.Tests.Sessions.{crypto, vault}
use cubeforge_api.Credential.Tokens.{Crypto, verify_token, issue_token, floor_seconds}
use cubeforge_api.Credential.Tokens.Lifetime.{claims_at, issue-verify}
use cubeforge_api.Credential.Session.{secret}
use cubeforge_api.Credential.Principal.{
  CallerStanding, StandingMembership, describe_caller, describe_record, standings_of,
  granted_memberships,
}
use cubeforge_api.Credential.Principal.Standing.{Describes, IsHeld, describe_caller-memberships_iff}
use cubeforge_api.Members.{provision_tenant}
use cubeforge_api.Members.Provisioning.{Settled, provision_tenant-settles}
use cubeforge_api.Access.Authorize.{person, platform_operator}
use cubeforge_api.Access.Identifiers.{tenant_id}
use cubeforge_api.Access.Role.{Role}
use cubeforge_api.Prelude.Dict.{get}
use cubeforge_api.Errors.{ok, ◌>>=◌}
use cubeforge_api.Prelude.Sort.{sort}
use cubeforge_api.Access.Decision.{decide_access}
use cubeforge_api.Access.Entities.{is_tenant_active, is_person_active, is_membership_active}

-- One token, which decodes to what was signed for ann at the start.
abbrev remembering : Crypto
remembering = record crypto { decode = λ t. some (claims_at crypto (lit "ann") (pos 0)) }

ann_is_named : tenant_id (lit "ann") ≡ ok (lit "ann")
unfolding tenant_id trim trim_start trim_end trim_keep is_space
ann_is_named = refl

is_issued : issue_token remembering (lit "ann") epoch ≡ ok (lit "jwt")
unfolding issue_token secret trim trim_start trim_end trim_keep is_space
is_issued = refl

issue-verify_example :
    (verify_token remembering (lit "jwt") (at (pos 899_999)) ≡ ok (some (lit "ann")))
    ↔ (floor_seconds (pos 899_999) <ℤ floor_seconds (pos 0) +ℤ pos 900)
issue-verify_example =
    issue-verify remembering (lit "ann") (lit "jwt") (pos 0) (pos 899_999) refl ann_is_named
      is_issued

abbrev any_order : Text → Text → Bool
any_order a b = true

abbrev in_acme : StandingMembership
in_acme = record { tenant_id = lit "acme"; tenant_name = lit "Acme"; role = Role.editor }

abbrev ann_standing : CallerStanding
ann_standing = record {
  person_id = lit "ann";
  email = lit "ann@acme.test";
  is_operator = false;
  memberships = in_acme ∷ [];
}

is_described : (describe_caller any_order (person (lit "ann")) vault).0 ≡ ok ann_standing
unfolding describe_caller describe_record standings_of granted_memberships get ◌==◌ includes ◌>>=◌
    sort decide_access is_tenant_active is_person_active is_membership_active
is_described = refl

ann_is_known : get stores.identity.people (lit "ann") ≡ some ann
unfolding get ◌==◌
ann_is_known = refl

ann_alone : Describes vault (person (lit "ann")) ann
ann_alone = record { person_id = lit "ann"; alone = refl; known = ann_is_known; same = refl }

describe_caller-memberships_iff_example :
    In in_acme ann_standing.memberships ↔ IsHeld vault ann in_acme
describe_caller-memberships_iff_example =
    describe_caller-memberships_iff any_order vault (person (lit "ann")) ann ann_standing in_acme
      ann_alone is_described

tenant_is_new : get stores.identity.tenants (lit "beta") ≡ none
unfolding get ◌==◌
tenant_is_new = refl

membership_is_new : get stores.identity.memberships (lit "m9") ≡ none
unfolding get ◌==◌
membership_is_new = refl

provision_tenant-settles_example : Settled (lit "beta") (
    provision_tenant
      (λ t. t)
      epoch
      (lit "beta")
      (lit "bob")
      (lit "m9")
      (platform_operator (lit "root"))
      (lit "Beta")
      (lit "bob@beta.test")
      stores)
provision_tenant-settles_example =
    provision_tenant-settles (λ t. t) epoch (lit "beta") (lit "bob") (lit "m9")
      (platform_operator (lit "root")) (lit "Beta") (lit "bob@beta.test") stores tenant_is_new
      membership_is_new
