-- ===== src/Http/Edge.antt =====
-- The way of a request to its route: the middleware of src/adapters/http/principal.middleware.ts,
-- then the guard of src/adapters/http/access/access.guard.ts. The framework runs the one and then the
-- other; no function of the repository composes them.
pub mod Resolving
pub mod Passing
pub mod Refusing
use cubeforge_api.Prelude.{Bool, Option, Text, Date}
use cubeforge_api.Credential.Tokens.{Crypto}
use cubeforge_api.Http.Principal.{Request, use_principal}
use cubeforge_api.Http.Declaration.{AccessDeclaration}
use cubeforge_api.Credential.Store.{Vault}
use cubeforge_api.UnitOfWork.{Stores}
use cubeforge_api.Errors.{Result}
use cubeforge_api.Semantic.Asking.{then_answer}
use cubeforge_api.Http.Guard.{can_activate}

-- What the guard answers to a request; the declaration and the parameter of the path are those of
-- the route that the framework finds.
unfoldable pub admit :
    (Text → Option Text)
    → (Text → Text)
    → Crypto
    → Date
    → Request
    → Option AccessDeclaration
    → Option Text
    → Vault
    → Stores
    → Result Bool
admit decode lower c now request declaration path vault stores =
    then_answer (use_principal decode lower c now request vault).0
      (λ actor. (can_activate declaration path actor stores).0)
