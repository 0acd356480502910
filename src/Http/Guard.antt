-- ===== src/Http/Guard.antt =====
-- src/adapters/http/access/access.guard.ts. What the framework finds for a route and a request (the
-- declaration, the actor that the middleware resolved, the parameter of the path) is given.
pub mod Admission
use cubeforge_api.Prelude.{
  Bool, true, false, not, Option, none, some, List, [], ◌∷◌, Text, ◌==◌, if◌then◌else◌,
}
use cubeforge_api.Http.Declaration.{AccessDeclaration, public, operator, any_person, in_tenant}
use cubeforge_api.Errors.{
  Failure, Result, violation, ok, Exec, not_found, err, pure, throw, lift, ◌>>◌, asks, ◌>>◌,
}
use cubeforge_api.Access.Role.{Role, permits}
use cubeforge_api.Access.Authorize.{
  Actor, platform_operator, person, machine, tenant_member, authorize_in_tenant,
}
use cubeforge_api.UnitOfWork.{Stores, run_in_tenant}

-- `refusal`
abbrev pub refusal : Failure
refusal = violation not_found

abbrev non_empty : Text → Option Text
non_empty [] = none
non_empty (c ∷ t) = some (c ∷ t)

-- `tenantInPath`; `none` is a parameter that is missing or no string.
abbrev pub tenant_in_path : Option Text → Option Text
tenant_in_path none = none
tenant_in_path (some value) = non_empty value

abbrev pub names_tenant : Option Text → Text → Bool
names_tenant none tenant = false
names_tenant (some t) tenant = tenant == t

abbrev admit_if : Bool → Result Bool
admit_if b = if b then ok true else err refusal

-- A declaration that names roles.
abbrev pub enter_tenant : List Role → Bool → Option Text → Actor → Exec Stores Bool
enter_tenant roles machines path (machine key tenant role) = lift (
    if not machines
    then err refusal
    else if not (permits roles role)
    then err refusal
    else admit_if (names_tenant (tenant_in_path path) tenant))
enter_tenant roles machines path (tenant_member p tenant) = do
  run_in_tenant (asks (λ s. authorize_in_tenant s.identity tenant (tenant_member p tenant) roles))
  pure true
enter_tenant roles machines path actor = throw refusal

abbrev pub enter_as_operator : Actor → Result Bool
enter_as_operator (platform_operator p) = ok true
enter_as_operator _ = err refusal

abbrev pub enter_as_person : Actor → Result Bool
enter_as_person (person p) = ok true
enter_as_person (platform_operator p) = ok true
enter_as_person _ = err refusal

abbrev pub enter : AccessDeclaration → Option Text → Actor → Exec Stores Bool
enter public path actor = pure true
enter operator path actor = lift (enter_as_operator actor)
enter any_person path actor = lift (enter_as_person actor)
enter (in_tenant roles machines) path actor = enter_tenant roles machines path actor

abbrev pub enter_resolved : AccessDeclaration → Option Text → Option Actor → Exec Stores Bool
enter_resolved public path actor = pure true
enter_resolved d path none = throw refusal
enter_resolved d path (some actor) = enter d path actor

-- `canActivate`
unfoldable pub can_activate :
    Option AccessDeclaration → Option Text → Option Actor → Exec Stores Bool
can_activate none path actor = throw refusal
can_activate (some d) path actor = enter_resolved d path actor
