-- ===== src/Credential/Issuing.antt =====
-- src/application/credential/issue-setup-token.use-case.ts and src/application/api-key. The inventory
-- is out of reach of these units of work.
pub mod Resolving
pub mod Revoking
use cubeforge_api.Prelude.{List, [], ◌∷◌, Text, if◌then◌else◌, length, Date, nat_eq, trim, lit}
use cubeforge_api.Credential.Sessions.{Fresh}
use cubeforge_api.Members.{required_role, required}
use cubeforge_api.Credential.Store.{Vault, insert_setup_token}
use cubeforge_api.Errors.{
  Exec, Result, ok, ◌>>◌, ◌>>=◌, lift, asks, err, violation, modify, validation, gets, pure,
}
use cubeforge_api.Credential.Tokens.{Crypto}
use cubeforge_api.Access.Role.{Role, admin, parse_role}
use cubeforge_api.Prelude.Dict.{Dict}
use cubeforge_api.Access.Authorize.{
  Actor, require_platform_operator, authorize_in_tenant, tenant_of,
}
use cubeforge_api.Credential.Keys.{
  StoredApiKey, ApiKeySummary, insert_key, list_keys, find_key, revoke_key,
}
use cubeforge_api.Credential.Session.{setup_token_deadline}

-- A unit of work of an operator or in a tenant, when it throws, puts the identity store back.
abbrev pub settle_identity_of : {A : Type 0} → Vault → Result A × Vault → Result A × Vault
settle_identity_of before (ok a, after) = (ok a, after)
settle_identity_of before (err e, after) = (err e, record after { identity = before.identity })

unfoldable pub restoring_identity : {A : Type 0} → Exec Vault A → Exec Vault A
restoring_identity work s = settle_identity_of s (work s)

-- `IssueSetupTokenUseCase.execute`
unfoldable pub issue_setup_token : Crypto → Date → Fresh → Actor → Text → Exec Vault Text
issue_setup_token c now fresh actor person = do
  lift (require_platform_operator actor)
  restoring_identity (
      modify
        (insert_setup_token fresh.row_id person (c.digest fresh.secret) (setup_token_deadline now)))
  pure fresh.secret

-- `ISSUE_API_KEY_ROLES`, `LIST_API_KEYS_ROLES` and `REVOKE_API_KEY_ROLES`
abbrev pub key_roles : List Role
key_roles = admin ∷ []

abbrev pub with_keys : (Dict StoredApiKey → Dict StoredApiKey) → Vault → Vault
with_keys f s = record s { keys = f s.keys }

abbrev pub label_of : Text → Result Text
label_of label =
    if nat_eq (length (trim label)) 0
    then err (violation (validation (lit "label")))
    else ok (trim label)

pub record IssuedApiKey : Type 0 where
  pub id : Text
  pub secret : Text

unfoldable pub issue_key_work :
    Crypto → Date → Fresh → Text → Actor → Text → Text → Exec Vault IssuedApiKey
issue_key_work c now fresh tenant actor label role = do
  asks (λ s. authorize_in_tenant s.identity tenant actor key_roles)
  key_role ← lift (required_role (parse_role role))
  trimmed ← lift (label_of label)
  modify (with_keys (insert_key tenant fresh.row_id trimmed key_role (c.digest fresh.secret) now))
  pure (record { id = fresh.row_id; secret = fresh.secret })

-- `IssueApiKeyUseCase.execute`; `fresh.row_id` is the new key's identifier.
unfoldable pub issue_api_key : Crypto → Date → Fresh → Actor → Text → Text → Exec Vault IssuedApiKey
issue_api_key c now fresh actor label role = do
  tenant ← lift (tenant_of actor)
  restoring_identity (issue_key_work c now fresh tenant actor label role)

-- `ListApiKeysUseCase.execute`
unfoldable pub list_api_keys : Actor → Exec Vault (List ApiKeySummary)
list_api_keys actor = do
  tenant ← lift (tenant_of actor)
  restoring_identity (do
    asks (λ s. authorize_in_tenant s.identity tenant actor key_roles)
    gets (λ s. list_keys s.keys tenant))

unfoldable pub revoke_key_work : Date → Text → Actor → Text → Exec Vault (Unit {0})
revoke_key_work now tenant actor id = do
  asks (λ s. authorize_in_tenant s.identity tenant actor key_roles)
  found ← asks (λ s. required (find_key s.keys tenant id))
  modify (with_keys (revoke_key tenant found.id now))

-- `RevokeApiKeyUseCase.execute`
unfoldable pub revoke_api_key : Date → Actor → Text → Exec Vault (Unit {0})
revoke_api_key now actor id = do
  tenant ← lift (tenant_of actor)
  restoring_identity (revoke_key_work now tenant actor id)
