-- ===== src/Http/Edge/Resolving.antt =====
-- What the middleware makes of each kind of credential: src/application/principal-resolver.ts.
use cubeforge_api.Prelude.{
  Bool, Option, none, some, Text, ◌≡◌, inl, inr, refl, arith, Date, Bool-cases, Option-cases, subst,
}
use cubeforge_api.Credential.Principal.{
  access_token, api_key, resolve_principal, resolve_api_key, resolve_access_token, resolve_standing,
  standing_of,
}
use cubeforge_api.Access.Authorize.{tenant_member, machine, Actor, person, platform_operator}
use cubeforge_api.Credential.Tokens.{Crypto, verify_token}
use cubeforge_api.Credential.Store.{
  Vault, run_authenticating, StoredCredential, is_operator, find_credential,
}
use cubeforge_api.Credential.Keys.{ResolvedApiKey, resolve}
use cubeforge_api.Errors.{◌>>=◌, ok, Result-cases, ok-injective}
use cubeforge_api.Semantic.Asking.{then_answer}
use cubeforge_api.Access.Entities.{person_active}

-- A token for no tenant stands for a person.
pub data IsPersonal : Option Actor → Type 0 where
  nobody : IsPersonal none
  a_person : (p : Text) → IsPersonal (some (person p))
  an_operator : (p : Text) → IsPersonal (some (platform_operator p))

module _ (c : Crypto) (now : Date) (vault : Vault) where
  unfoldable pub key_of_digest : Option ResolvedApiKey → Option Actor
  key_of_digest none = none
  key_of_digest (some k) = some (machine k.id k.tenant_id k.role)

  pub resolved_key :
      (secret : Text)
      → (resolve_principal c now (api_key secret) vault).0
        ≡ ok (key_of_digest (resolve vault.keys (c.digest secret)))
  unfolding resolve_principal resolve_api_key run_authenticating key_of_digest
  resolved_key secret = elim (Option-cases (resolve vault.keys (c.digest secret))) [
    | inl absent ↦ rw absent refl
    | inr (k, present) ↦ rw present refl
  ]

  unfoldable pub member_of : Text → Option Text → Option Actor
  member_of tenant none = none
  member_of tenant (some p) = some (tenant_member p tenant)

  pub resolved_token :
      (token tenant : Text)
      → (resolve_principal c now (access_token token (some tenant)) vault).0
        ≡ then_answer (verify_token c token now) (λ subject. ok (member_of tenant subject))
  unfolding resolve_principal resolve_access_token ◌>>=◌ member_of
  resolved_token token tenant = elim (Result-cases (verify_token c token now)) [
    | inr (e, failed) ↦ rw failed refl
    | inl (none, unknown) ↦ rw unknown refl
    | inl (some p, known) ↦ rw known refl
  ]

  standing_of-IsPersonal :
      (operates : Bool) (p : Text) (stored : Option StoredCredential)
      → IsPersonal (standing_of operates p stored)
  standing_of-IsPersonal operates p none = nobody
  standing_of-IsPersonal operates p (some stored) =
      elim (Bool-cases (person_active stored.person_status)) [
        | inr closed ↦ rw closed nobody
        | inl active ↦ rw active (elim (Bool-cases operates) [
          | inl runs ↦ rw runs (an_operator p)
          | inr serves ↦ rw serves (a_person p)
        ])
      ]

  pub resolved_standing :
      (token : Text) (actor : Option Actor)
      → (resolve_principal c now (access_token token none) vault).0 ≡ ok actor
      → IsPersonal actor
  unfolding resolve_principal resolve_access_token resolve_standing run_authenticating ◌>>=◌
  resolved_standing token actor h = elim (Result-cases (verify_token c token now)) [
    | inr (e, failed) ↦ absurd (ground (arith, rw failed at h))
    | inl (none, unknown) ↦ subst IsPersonal (ok-injective (rw unknown at h)) nobody
    | inl (some p, known) ↦
        subst IsPersonal (ok-injective (rw known at h))
          (standing_of-IsPersonal (is_operator vault p) p (find_credential vault p))
  ]
