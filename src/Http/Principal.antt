-- ===== src/Http/Principal.antt =====
-- src/adapters/http/principal.middleware.ts. `lower` is `toLowerCase`, and `decode` is
-- `decodeURIComponent`, with `none` where it throws. The actor that is attached to a request is
-- handed on as a value.
use mathlib.Core.Option
use cubeforge_api.Prelude.{
  Option, none, some, List, [], ◌∷◌, Text, if◌then◌else◌, length, Date, nat_eq, starts_with, trim,
  lit, slice_from,
}
use cubeforge_api.Prelude.Dict.{Dict, get}
use cubeforge_api.Errors.{Result, err, ok, Exec, thrown, violation, pure, lift, not_found, ◌>>=◌}
use cubeforge_api.Credential.Tokens.{Crypto}
use cubeforge_api.Access.Authorize.{Actor}
use cubeforge_api.Credential.Principal.{
  PresentedCredential, access_token, api_key, resolve_principal,
}
use cubeforge_api.Semantic.Asking.{then_answer}
use cubeforge_api.Credential.Store.{Vault}
use cubeforge_api.Access.Identifiers.{tenant_id, require_non_blank}

-- What is read of a request; a header that is sent once is a list of one value.
pub record Request : Type 0 where
  pub headers : Dict (List Text)
  pub original_url : Text

abbrev first_of : Option (List Text) → Option Text
first_of none = none
first_of (some []) = none
first_of (some (value ∷ values)) = some value

abbrev trimmed_or_none : Option Text → Option Text
trimmed_or_none none = none
trimmed_or_none (some value) = if nat_eq (length (trim value)) 0 then none else some (trim value)

-- `header`
unfoldable pub header : Request → Text → Option Text
header request name = trimmed_or_none (first_of (get request.headers name))

-- `([^/?]+)\/`, from where the segment starts, with the code units that are read.
abbrev segment : Text → Option Text
segment [] = none
segment (c ∷ t) =
    let rest = segment t in
    if nat_eq c b'/' then some [] else if nat_eq c b'?' then none else Option.map (λ s. c ∷ s) rest

abbrev non_empty : Option Text → Option Text
non_empty none = none
non_empty (some []) = none
non_empty (some (c ∷ t)) = some (c ∷ t)

-- `/^\/tenants\/([^/?]+)\//.exec(url)`
unfoldable pub tenant_segment : Text → Option Text
tenant_segment url =
    if starts_with url (lit "/tenants/") then non_empty (segment (slice_from url 9)) else none

module _ (decode : Text → Option Text) (lower : Text → Text) where
  abbrev decoded_tenant : Option Text → Result (Option Text)
  decoded_tenant none = err thrown
  decoded_tenant (some t) = then_answer (tenant_id t) (λ v. ok (some v))

  abbrev tenant_of_segment : Option Text → Result (Option Text)
  tenant_of_segment none = ok none
  tenant_of_segment (some raw) = decoded_tenant (decode raw)

  -- `pathTenant`
  unfoldable pub path_tenant : Request → Result (Option Text)
  path_tenant request = tenant_of_segment (tenant_segment request.original_url)

  abbrev key_of : Option Text → Result (Option PresentedCredential)
  key_of none = ok none
  key_of (some value) = then_answer (require_non_blank value) (λ s. ok (some (api_key s)))

  abbrev presented_key : Request → Result (Option PresentedCredential)
  presented_key request = key_of (header request (lit "x-api-key"))

  abbrev presented_token : Request → Text → Result (Option PresentedCredential)
  presented_token request token =
      if nat_eq (length token) 0
      then presented_key request
      else then_answer (path_tenant request) (λ tenant. ok (some (access_token token tenant)))

  abbrev presented_by : Request → Option Text → Result (Option PresentedCredential)
  presented_by request none = presented_key request
  presented_by request (some authorization) =
      if starts_with (lower authorization) (lit "bearer ")
      then presented_token request (trim (slice_from authorization 7))
      else presented_key request

  -- `presentedIn`
  unfoldable pub presented_in : Request → Result (Option PresentedCredential)
  presented_in request = presented_by request (header request (lit "authorization"))

  abbrev pub resolve_presented :
      Crypto → Date → Option PresentedCredential → Exec Vault (Option Actor)
  resolve_presented c now none = pure none
  resolve_presented c now (some credential) = resolve_principal c now credential

  -- `PrincipalMiddleware.use`
  unfoldable pub use_principal : Crypto → Date → Request → Exec Vault (Option Actor)
  use_principal c now request = lift (presented_in request) >>= resolve_presented c now

-- `actorOf`
unfoldable pub actor_of : Option Actor → Result Actor
actor_of none = err (violation not_found)
actor_of (some actor) = ok actor
