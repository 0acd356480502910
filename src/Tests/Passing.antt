-- ===== src/Tests/Passing.antt =====
-- Tests of the way of a request through the middleware and the guard.
use cubeforge_api.Prelude.{
  true, Option, none, some, [], ◌∷◌, Text, ◌==◌, ◌≡◌, ◌↔◌, refl, lit, starts_with, slice_from, trim,
  trim_start, trim_end, trim_keep, is_space,
}
use cubeforge_api.Access.Role.{Role}
use cubeforge_api.Tests.Sessions.{crypto}
use cubeforge_api.Tests.Keys.{run_by_ann}
use cubeforge_api.Tests.Inventory.{stores, epoch}
use cubeforge_api.Http.Declaration.{in_tenant}
use cubeforge_api.Credential.Principal.{api_key, access_token}
use cubeforge_api.Http.Principal.{Request, presented_in, tenant_segment, header, path_tenant}
use cubeforge_api.Http.Edge.{admit}
use cubeforge_api.Http.Guard.{can_activate}
use cubeforge_api.Http.Filter.{reply_to, refused, not_found_response}
use cubeforge_api.Errors.{violation, ok, err, not_found}
use cubeforge_api.Prelude.Dict.{get}
use cubeforge_api.Http.Edge.Passing.{Passes, admit-Passes}
use cubeforge_api.Http.Edge.Refusing.{can_activate-refused}
use cubeforge_api.Access.Identifiers.{require_non_blank, tenant_id}

abbrev decode : Text → Option Text
decode t = some t

abbrev lower : Text → Text
lower t = t

abbrev by_key : Request
by_key = record {
  headers = (lit "x-api-key", lit " d2 " ∷ []) ∷ [];
  original_url = lit "/tenants/acme/stock";
}

abbrev by_token : Request
by_token = record {
  headers = (lit "authorization", lit "bearer jwt" ∷ []) ∷ (lit "x-api-key", lit "d2" ∷ []) ∷ [];
  original_url = lit "/tenants/acme/stock?at=now";
}

presents_key : presented_in decode lower by_key ≡ ok (some (api_key (lit "d2")))
unfolding presented_in header get starts_with trim trim_start trim_end trim_keep is_space ◌==◌
    require_non_blank
presents_key = refl

-- The token comes first, with the tenant of the path.
presents_token :
    presented_in decode lower by_token ≡ ok (some (access_token (lit "jwt") (some (lit "acme"))))
unfolding presented_in header get starts_with slice_from trim trim_start trim_end trim_keep is_space
    ◌==◌ path_tenant tenant_segment tenant_id require_non_blank
presents_token = refl

no_tenant_context : tenant_segment (lit "/tenants/acme") ≡ none
unfolding tenant_segment starts_with slice_from
no_tenant_context = refl

admit-Passes_example :
    (admit decode lower crypto epoch by_key
        (some (in_tenant (Role.viewer ∷ []) true))
        (some (lit "acme"))
        run_by_ann
        stores
      ≡ ok true)
    ↔ Passes crypto epoch run_by_ann stores
        (some (lit "acme"))
        (Role.viewer ∷ [])
        true
        (some (api_key (lit "d2")))
admit-Passes_example =
    admit-Passes decode lower crypto epoch by_key run_by_ann stores (some (lit "acme"))
      (Role.viewer ∷ []) true (some (api_key (lit "d2"))) presents_key

refuses_nobody :
    (can_activate (some (in_tenant (Role.viewer ∷ []) true)) (some (lit "acme")) none stores).0
    ≡ err (violation not_found)
unfolding can_activate
refuses_nobody = refl

can_activate-refused_example : reply_to (violation not_found) ≡ refused not_found_response
can_activate-refused_example =
    can_activate-refused (some (in_tenant (Role.viewer ∷ []) true)) (some (lit "acme")) none stores
      (violation not_found) refuses_nobody
