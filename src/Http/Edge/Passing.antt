-- ===== src/Http/Edge/Passing.antt =====
-- Who gets past the middleware and the guard: src/adapters/http.
use cubeforge_api.Prelude.{
  Bool, true, Option, none, some, List, Text, ◌≡◌, ◌↔◌, refl, sym, ◌∙◌, Date, subst,
}
use cubeforge_api.Access.Role.{Role, permits}
use cubeforge_api.Http.Declaration.{in_tenant}
use cubeforge_api.Credential.Principal.{PresentedCredential, access_token, api_key}
use cubeforge_api.Http.Edge.Resolving.{
  IsPersonal, nobody, a_person, an_operator, key_of_digest, member_of, resolved_key, resolved_token,
  resolved_standing,
}
use cubeforge_api.Http.Guard.Admission.{MayEnter, a_key, a_member, can_activate_iff}
use cubeforge_api.Access.Authorize.{tenant_member, machine, Actor}
use cubeforge_api.Credential.Tokens.{Crypto, verify_token}
use cubeforge_api.UnitOfWork.{Stores}
use cubeforge_api.Credential.Store.{Vault}
use cubeforge_api.Credential.Keys.{ResolvedApiKey, resolve}
use cubeforge_api.Access.Authorize.Standing.{MayAct}
use cubeforge_api.Http.Principal.{Request, resolve_presented, presented_in, use_principal}
use cubeforge_api.Http.Guard.{names_tenant, tenant_in_path, can_activate}
use cubeforge_api.Errors.{Result, ok, ok-injective, ◌>>=◌, err}
use cubeforge_api.Http.Edge.{admit, then_answer}

-- The ways past the guard of a route that names roles, each from the credential that a request
-- presents.
pub data Passes (c : Crypto) (now : Date) (vault : Vault) (stores : Stores) (path : Option Text)
    (roles : List Role) (machines : Bool) : Option PresentedCredential → Type 0 where
  by_key :
      (secret : Text) (k : ResolvedApiKey)
      → resolve vault.keys (c.digest secret) ≡ some k
      → machines ≡ true
      → permits roles k.role ≡ true
      → names_tenant (tenant_in_path path) k.tenant_id ≡ true
      → Passes c now vault stores path roles machines (some (api_key secret))
  by_token :
      (token tenant p : Text) (role : Role)
      → verify_token c token now ≡ ok (some p)
      → MayAct stores.identity tenant roles (tenant_member p tenant) role
      → Passes c now vault stores path roles machines (some (access_token token (some tenant)))

module _ (stores : Stores) (path : Option Text) where
  key_enters :
      (roles : List Role) (machines : Bool) (k : ResolvedApiKey)
      → MayEnter stores path (in_tenant roles machines) (some (machine k.id k.tenant_id k.role))
      → (machines ≡ true)
        × (permits roles k.role ≡ true)
        × (names_tenant (tenant_in_path path) k.tenant_id ≡ true)
  key_enters _ _ k (a_key _ _ _ _ allowed here) = (refl, allowed, here)

  member_enters :
      (roles : List Role) (machines : Bool) (p tenant : Text)
      → MayEnter stores path (in_tenant roles machines) (some (tenant_member p tenant))
      → (role : Role) × MayAct stores.identity tenant roles (tenant_member p tenant) role
  member_enters _ _ p tenant (a_member _ _ role _ _ acts) = (role, acts)

  nobody_enters :
      (roles : List Role) (machines : Bool)
      → ¬ (MayEnter stores path (in_tenant roles machines) none)
  nobody_enters roles machines may = elim may [ ]

  personal_enters :
      (roles : List Role) (machines : Bool) (actor : Option Actor)
      → IsPersonal actor
      → ¬ (MayEnter stores path (in_tenant roles machines) actor)
  personal_enters roles machines _ nobody may = elim may [ ]
  personal_enters roles machines _ (a_person p) may = elim may [ ]
  personal_enters roles machines _ (an_operator p) may = elim may [ ]

module _ (decode : Text → Option Text) (lower : Text → Text) (c : Crypto) (now : Date)
    (request : Request) (vault : Vault) (stores : Stores) (path : Option Text) (roles : List Role)
    (machines : Bool) where
  -- Some actor is resolved, whom the declaration admits.
  abbrev Resolved : Result (Option Actor) → Type 0
  Resolved r =
      (actor : Option Actor) × (r ≡ ok actor)
      × MayEnter stores path (in_tenant roles machines) actor

  guarded : Result (Option Actor) → Result Bool
  guarded r =
      then_answer r (λ actor. (can_activate (some (in_tenant roles machines)) path actor stores).0)

  guarded_iff : (r : Result (Option Actor)) → (guarded r ≡ ok true) ↔ Resolved r
  unfolding guarded
  guarded_iff (err e) = (λ h. cc, λ (actor, e, may). cc)
  guarded_iff (ok actor) = (
    λ h. (actor, refl, (can_activate_iff stores path (in_tenant roles machines) actor).0 h),
    λ (other, same, may).
        (can_activate_iff stores path (in_tenant roles machines) actor).1
          (subst (MayEnter stores path (in_tenant roles machines)) (sym (ok-injective same)) may),
  )

  abbrev Passing : Option PresentedCredential → Type 0
  Passing = Passes c now vault stores path roles machines

  key_passes :
      (secret : Text) (o : Option ResolvedApiKey)
      → resolve vault.keys (c.digest secret) ≡ o
      → MayEnter stores path (in_tenant roles machines) (key_of_digest c now vault o)
      → Passing (some (api_key secret))
  unfolding key_of_digest
  key_passes secret none h may = absurd (nobody_enters stores path roles machines may)
  key_passes secret (some k) h may =
      let (admits, allowed, here) = key_enters stores path roles machines k may in
      by_key secret k h admits allowed here

  token_passes :
      (token tenant : Text) (o : Result (Option Text))
      → verify_token c token now ≡ o
      → (actor : Option Actor)
      → then_answer o (λ subject. ok (member_of c now vault tenant subject)) ≡ ok actor
      → MayEnter stores path (in_tenant roles machines) actor
      → Passing (some (access_token token (some tenant)))
  unfolding member_of
  token_passes token tenant (err x) h actor e may = cc
  token_passes token tenant (ok none) h actor e may = absurd (
      nobody_enters stores path roles machines
        (subst (MayEnter stores path (in_tenant roles machines)) (sym (ok-injective e)) may))
  token_passes token tenant (ok (some p)) h actor e may =
      let (role, acts) =
        member_enters stores path roles machines p tenant
          (subst (MayEnter stores path (in_tenant roles machines)) (sym (ok-injective e)) may) in
      by_token token tenant p role h acts

  passes_sound :
      (presented : Option PresentedCredential)
      → Resolved (resolve_presented decode lower c now presented vault).0
      → Passing presented
  passes_sound none (actor, e, may) = absurd (
      nobody_enters stores path roles machines
        (subst (MayEnter stores path (in_tenant roles machines)) (sym (ok-injective e)) may))
  passes_sound (some (api_key secret)) (actor, e, may) =
      key_passes secret (resolve vault.keys (c.digest secret)) refl (
        subst (MayEnter stores path (in_tenant roles machines))
          (sym (ok-injective (sym (resolved_key c now vault secret) ∙ e))) may)
  passes_sound (some (access_token token none)) (actor, e, may) = absurd (
      personal_enters stores path roles machines actor (resolved_standing c now vault token actor e)
        may)
  passes_sound (some (access_token token (some tenant))) (actor, e, may) =
      token_passes token tenant (verify_token c token now) refl actor
        (sym (resolved_token c now vault token tenant) ∙ e) may

  passes_complete :
      (presented : Option PresentedCredential)
      → Passing presented
      → Resolved (resolve_presented decode lower c now presented vault).0
  unfolding key_of_digest member_of
  passes_complete _ (by_key secret k held admits allowed here) = (
    some (machine k.id k.tenant_id k.role),
    rw (resolved_key c now vault secret, held) refl,
    subst (λ b. MayEnter stores path (in_tenant roles b) (some (machine k.id k.tenant_id k.role)))
        (sym admits) (a_key k.id k.tenant_id k.role roles allowed here),
  )
  passes_complete _ (by_token token tenant p role known acts) = (
    some (tenant_member p tenant),
    rw (resolved_token c now vault token tenant, known) refl,
    a_member p tenant role roles machines acts,
  )

  admitted :
      (presented : Option PresentedCredential)
      → presented_in decode lower request ≡ ok presented
      → admit decode lower c now request (some (in_tenant roles machines)) path vault stores
        ≡ guarded (resolve_presented decode lower c now presented vault).0
  unfolding admit use_principal ◌>>=◌ guarded
  admitted presented h = rw h refl

  -- Past the middleware and the guard, to a route that names roles, comes exactly a request with
  -- one of two credentials: the secret of a key that is held and not revoked, of the tenant that
  -- the path names, where the route admits keys and its roles the key's; or a valid token, together
  -- with a tenant in the path in which the token's person may act with one of the roles.
  pub admit-Passes :
      (presented : Option PresentedCredential)
      → presented_in decode lower request ≡ ok presented
      → (admit decode lower c now request (some (in_tenant roles machines)) path vault stores
          ≡ ok true)
        ↔ Passes c now vault stores path roles machines presented
  admit-Passes presented h = (
    λ passed. passes_sound presented (
        (guarded_iff (resolve_presented decode lower c now presented vault).0).0
          (sym (admitted presented h) ∙ passed)),
    λ passes.
        admitted presented h
        ∙ (guarded_iff (resolve_presented decode lower c now presented vault).0).1
            (passes_complete presented passes),
  )
