-- ===== src/Credential/Keys.antt =====
-- src/adapters/persistence/in-memory/in-memory-api-key-store.ts
use cubeforge_api.Prelude.{
  Bool, ◌&&◌, Option, none, some, List, map, Text, ◌==◌, if◌then◌else◌, filter, Date, is_none, find,
}
use cubeforge_api.Access.Role.{Role}
use cubeforge_api.Prelude.Dict.{Dict, put, get, values}

pub record StoredApiKey : Type 0 where
  pub id : Text
  pub tenant_id : Text
  pub label : Text
  pub role : Role
  pub secret_digest : Text
  pub created_at : Date
  pub last_used_at : Option Date
  pub revoked_at : Option Date

pub record ResolvedApiKey : Type 0 where
  pub id : Text
  pub tenant_id : Text
  pub role : Role

abbrev pub resolved_of : Option StoredApiKey → Option ResolvedApiKey
resolved_of none = none
resolved_of (some k) = some (record { id = k.id; tenant_id = k.tenant_id; role = k.role })

abbrev pub matches_digest : Text → StoredApiKey → Bool
matches_digest digest k = k.secret_digest == digest && is_none k.revoked_at

unfoldable pub resolve : Dict StoredApiKey → Text → Option ResolvedApiKey
resolve d digest = resolved_of (find (matches_digest digest) (values d))

abbrev used_in : Option StoredApiKey → Text → Date → Dict StoredApiKey → Dict StoredApiKey
used_in none id moment d = d
used_in (some k) id moment d = put d id (record k { last_used_at = some moment })

unfoldable pub record_use : Text → Date → Dict StoredApiKey → Dict StoredApiKey
record_use id moment d = used_in (get d id) id moment d

-- `InMemoryApiKeyRepository`, which takes its tenant as an argument
unfoldable pub scoped : Dict StoredApiKey → Text → List StoredApiKey
scoped d tenant = filter (λ k. k.tenant_id == tenant) (values d)

unfoldable pub insert_key :
    Text → Text → Text → Role → Text → Date → Dict StoredApiKey → Dict StoredApiKey
insert_key tenant id label role digest created_at d = put d id (record {
  id = id;
  tenant_id = tenant;
  label = label;
  role = role;
  secret_digest = digest;
  created_at = created_at;
  last_used_at = none;
  revoked_at = none;
})

pub record ApiKeySummary : Type 0 where
  pub id : Text
  pub label : Text
  pub role : Role
  pub created_at : Date
  pub last_used_at : Option Date
  pub revoked_at : Option Date

unfoldable pub summarize : StoredApiKey → ApiKeySummary
summarize k = record {
  id = k.id;
  label = k.label;
  role = k.role;
  created_at = k.created_at;
  last_used_at = k.last_used_at;
  revoked_at = k.revoked_at;
}

unfoldable pub list_keys : Dict StoredApiKey → Text → List ApiKeySummary
list_keys d tenant = map summarize (scoped d tenant)

abbrev pub in_scope : Dict StoredApiKey → Text → Text → Option StoredApiKey
in_scope d tenant id = find (λ k. k.id == id) (scoped d tenant)

abbrev summary_of : Option StoredApiKey → Option ApiKeySummary
summary_of none = none
summary_of (some k) = some (summarize k)

unfoldable pub find_key : Dict StoredApiKey → Text → Text → Option ApiKeySummary
find_key d tenant id = summary_of (in_scope d tenant id)

abbrev pub revoked_in : Option StoredApiKey → Date → Dict StoredApiKey → Dict StoredApiKey
revoked_in none moment d = d
revoked_in (some k) moment d =
    if is_none k.revoked_at then put d k.id (record k { revoked_at = some moment }) else d

unfoldable pub revoke_key : Text → Text → Date → Dict StoredApiKey → Dict StoredApiKey
revoke_key tenant id moment d = revoked_in (in_scope d tenant id) moment d
