-- ===== src/Http/Declaration.antt =====
-- src/adapters/http/access/access.decorator.ts
pub mod Usable
use cubeforge_api.Prelude.{
  ◌-◌, Bool, true, false, ◌||◌, List, [], ◌∷◌, map, Text, if◌then◌else◌, includes, all,
}
use cubeforge_api.Access.Role.{Role, role_name, permitted_roles}
use cubeforge_api.Errors.{Result, err, thrown, ok}

-- `AccessDeclaration`
pub data AccessDeclaration : Type 0 where
  public operator any_person : AccessDeclaration
  in_tenant : (roles : List Role) → (machines : Bool) → AccessDeclaration

-- The property `roles` of an object that may be anything; a role that is no string is a text that
-- is no role.
pub data RolesShape : Type 0 where
  not_named not_a_list : RolesShape
  listed : List Text → RolesShape

-- A declaration read as an open record; a flag says whether the property is `true`.
pub record Shape : Type 0 where
  pub public : Bool
  pub operator : Bool
  pub person : Bool
  pub roles : RolesShape
  pub machines : Bool

abbrev pub names : RolesShape → Bool
names not_named = false
names _ = true

abbrev pub is_role : Text → Bool
is_role t = includes (map role_name permitted_roles) t

assert_roles : RolesShape → Result (Unit {0})
assert_roles not_named = err thrown
assert_roles not_a_list = err thrown
assert_roles (listed []) = err thrown
assert_roles (listed (r ∷ rs)) = if all is_role (r ∷ rs) then ok tt else err thrown

abbrev refuse_if : Bool → Result (Unit {0})
refuse_if b = if b then err thrown else ok tt

-- `assertUsable`
unfoldable pub assert_usable : Shape → Result (Unit {0})
unfolding assert_roles
assert_usable shape =
    if shape.public
    then refuse_if (shape.person || names shape.roles || shape.operator || shape.machines)
    else if shape.operator
    then refuse_if (shape.person || shape.machines || names shape.roles)
    else if shape.person
    then refuse_if (shape.machines || names shape.roles)
    else assert_roles shape.roles
