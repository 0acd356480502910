-- ===== src/Tests/Keys.antt =====
-- Keys that are issued and revoked by an administrator.
use cubeforge_api.Prelude.{
  false, none, some, [], ◌∷◌, Text, ◌==◌, ◌≡◌, ◌≢◌, refl, All, lit, trim, trim_start, trim_end,
  trim_keep, is_space,
}
use cubeforge_api.Tests.Inventory.{link, stores, epoch, caller}
use cubeforge_api.Tests.Sessions.{crypto, fresh}
use cubeforge_api.Credential.Keys.{
  StoredApiKey, ResolvedApiKey, resolve, matches_digest, find_key, revoke_key, scoped, summarize,
  insert_key,
}
use cubeforge_api.Credential.Store.{Vault}
use cubeforge_api.Credential.Issuing.{
  IssuedApiKey, issue_api_key, revoke_api_key, issue_key_work, revoke_key_work, restoring_identity,
}
use cubeforge_api.Access.Authorize.{tenant_of, machine, authorize_in_tenant}
use cubeforge_api.Access.Role.{Role, parse_role, parsed}
use cubeforge_api.Prelude.Dict.{get, values, put}
use cubeforge_api.Credential.Principal.{resolve_principal, api_key}
use cubeforge_api.Errors.{ok, ◌>>=◌}
use cubeforge_api.Prelude.Dict.Indexed.{IsIndexed}
use cubeforge_api.Credential.Issuing.Revoking.{revoke-resolve}
use cubeforge_api.Credential.Issuing.Resolving.{key_id, issue-resolve}
use cubeforge_api.Access.Directory.{find_current, find_person, find_by_person, memberships_of}
use cubeforge_api.Access.Decision.{decide_access}
use cubeforge_api.Access.Entities.{is_tenant_active, is_person_active, is_membership_active}

abbrev key : Text → Text → StoredApiKey
key id digest = record {
  id = id;
  tenant_id = lit "acme";
  label = lit "sync";
  role = Role.viewer;
  secret_digest = digest;
  created_at = epoch;
  last_used_at = none;
  revoked_at = none;
}

abbrev pub run_by_ann : Vault
run_by_ann = record {
  identity = record stores.identity {
    memberships = (lit "m1", record link { role = Role.admin }) ∷ [];
  };
  credentials = record { passwords = []; setup_tokens = []; refresh_tokens = []; operators = [] };
  keys = (lit "k1", key (lit "k1") (lit "d1")) ∷ (lit "k2", key (lit "k2") (lit "d2")) ∷ [];
}

abbrev with_third : Vault
with_third = (issue_api_key crypto epoch fresh caller (lit "cube") (lit "editor") run_by_ann).1

abbrev third : IssuedApiKey
third = record { id = lit "r2"; secret = lit "two" }

issues :
    issue_api_key crypto epoch fresh caller (lit "cube") (lit "editor") run_by_ann
    ≡ (ok third, with_third)
unfolding issue_api_key issue_key_work restoring_identity ◌>>=◌ tenant_of authorize_in_tenant
    find_current find_person find_by_person memberships_of decide_access is_tenant_active
    is_person_active is_membership_active get ◌==◌ parse_role trim trim_start trim_end trim_keep
    is_space insert_key put
issues = refl

tenant_is : tenant_of caller ≡ ok (lit "acme")
unfolding tenant_of
tenant_is = refl

role_is : parse_role (lit "editor") ≡ parsed Role.editor
unfolding parse_role ◌==◌
role_is = refl

key_is_new : get run_by_ann.keys (lit "r2") ≡ none
unfolding get ◌==◌
key_is_new = refl

secret_is_new : All (λ k. matches_digest (lit "two") k ≡ false) (values run_by_ann.keys)
unfolding ◌==◌
secret_is_new = (refl, (refl, tt))

issue-resolve_example :
    (resolve_principal crypto epoch (api_key (lit "two")) with_third).0
    ≡ ok (some (machine (lit "r2") (lit "acme") Role.editor))
issue-resolve_example =
    issue-resolve crypto epoch fresh caller (lit "cube") (lit "editor") (lit "acme") Role.editor
      run_by_ann epoch third with_third issues tenant_is role_is key_is_new secret_is_new

abbrev withdrawn : Vault
withdrawn = (revoke_api_key epoch caller (lit "k1") run_by_ann).1

revokes : revoke_api_key epoch caller (lit "k1") run_by_ann ≡ (ok tt, withdrawn)
unfolding revoke_api_key revoke_key_work restoring_identity ◌>>=◌ tenant_of authorize_in_tenant
    find_current find_person find_by_person memberships_of decide_access is_tenant_active
    is_person_active is_membership_active get ◌==◌ find_key revoke_key scoped summarize put
revokes = refl

abbrev second : ResolvedApiKey
second = record { id = lit "k2"; tenant_id = lit "acme"; role = Role.viewer }

second_works : resolve withdrawn.keys (lit "d2") ≡ some second
unfolding resolve revoke_api_key revoke_key_work restoring_identity ◌>>=◌ tenant_of
    authorize_in_tenant find_current find_person find_by_person memberships_of decide_access
    is_tenant_active is_person_active is_membership_active get ◌==◌ find_key revoke_key scoped
    summarize put
second_works = refl

key_rows : IsIndexed key_id run_by_ann.keys
unfolding get ◌==◌
key_rows = (refl, refl, (refl, refl, tt))

revoke-resolve_example : lit "k2" ≢ lit "k1"
revoke-resolve_example =
    revoke-resolve epoch caller (lit "acme") (lit "k1") run_by_ann withdrawn tt (lit "d2") second
      tenant_is key_rows revokes second_works
