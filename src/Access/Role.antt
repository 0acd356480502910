-- ===== src/Access/Role.antt =====
-- src/domain/membership/role.ts
use cubeforge_api.Prelude.{Bool, true, false, List, [], ◌∷◌, ◌||◌, Text, lit, ◌==◌, if◌then◌else◌}

pub data Role : Type 0 where
  admin editor viewer : Role

-- `===` on roles
abbrev pub role_eq : Role → Role → Bool
role_eq admin admin = true
role_eq editor editor = true
role_eq viewer viewer = true
role_eq _ _ = false

-- `permitted.includes(role)`
abbrev pub permits : List Role → Role → Bool
permits [] r = false
permits (p ∷ ps) r = role_eq p r || permits ps r

abbrev pub role_name : Role → Text
role_name admin = lit "admin"
role_name editor = lit "editor"
role_name viewer = lit "viewer"

abbrev pub permitted_roles : List Role
permitted_roles = admin ∷ editor ∷ viewer ∷ []

pub data RoleParseResult : Type 0 where
  parsed : Role → RoleParseResult
  unparsed : List Role → RoleParseResult

-- `isRole` looks the text up in the permitted roles, whose members are their names.
find_role : List Role → Text → RoleParseResult
find_role [] t = unparsed permitted_roles
find_role (r ∷ rs) t = let rest = find_role rs t in if role_name r == t then parsed r else rest

unfoldable pub parse_role : Text → RoleParseResult
unfolding find_role
parse_role t = find_role permitted_roles t
