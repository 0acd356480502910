-- ===== src/Credential/Store.antt =====
-- src/adapters/persistence/in-memory/in-memory-credential-store.ts, in-memory-authenticator-unit-of-
-- work.ts and in-memory-standing.repository.ts. The people that the credential store looks up are
-- those of the identity store.
pub mod Families
use cubeforge_api.Prelude.{
  Bool, false, ◌&&◌, Option, none, some, List, [], ◌∷◌, Text, ◌==◌, if◌then◌else◌, Date, find,
  is_none, includes,
}
use cubeforge_api.Prelude.Dict.{Dict, get, put, values}
use cubeforge_api.Access.Directory.{Identity, find_person_by_email}
use cubeforge_api.Errors.{Result, Exec, ok, err}
use cubeforge_api.Access.Entities.{PersonStatus, Person, person_active}
use cubeforge_api.Credential.Keys.{StoredApiKey}

pub record StoredPassword : Type 0 where
  pub digest : Text
  pub updated_at : Date

pub record SetupToken : Type 0 where
  pub id : Text
  pub person_id : Text
  pub secret_digest : Text
  pub expires_at : Date
  pub redeemed_at : Option Date

-- `StoredRefreshToken`
pub record RefreshToken : Type 0 where
  pub id : Text
  pub sign_in_id : Text
  pub person_id : Text
  pub secret_digest : Text
  pub session_expires_at : Date
  pub exchanged_at : Option Date
  pub invalidated_at : Option Date

-- `InMemoryCredentialStore`
pub record Credentials : Type 0 where
  pub passwords : Dict StoredPassword
  pub setup_tokens : Dict SetupToken
  pub refresh_tokens : Dict RefreshToken
  pub operators : List Text

-- The stores that the authenticator's unit of work reaches.
pub record Vault : Type 0 where
  pub identity : Identity
  pub credentials : Credentials
  pub keys : Dict StoredApiKey

-- A failed unit of work puts three tables back; the operators, the keys and the people stay.
abbrev restored : Vault → Vault → Vault
restored before after = record after {
  credentials = record after.credentials {
    passwords = before.credentials.passwords;
    setup_tokens = before.credentials.setup_tokens;
    refresh_tokens = before.credentials.refresh_tokens;
  };
}

abbrev pub settle_vault : {A : Type 0} → Vault → Result A × Vault → Result A × Vault
settle_vault before (ok a, after) = (ok a, after)
settle_vault before (err e, after) = (err e, restored before after)

unfoldable pub run_authenticating : {A : Type 0} → Exec Vault A → Exec Vault A
run_authenticating work s = settle_vault s (work s)

pub record StoredCredential : Type 0 where
  pub person_id : Text
  pub person_status : PersonStatus
  pub password_digest : Option Text

abbrev pub digest_in : Option StoredPassword → Option Text
digest_in none = none
digest_in (some p) = some p.digest

-- `toCredential`
abbrev pub to_credential : Dict StoredPassword → Option Person → Option StoredCredential
to_credential passwords none = none
to_credential passwords (some p) = some (record {
  person_id = p.id;
  person_status = p.status;
  password_digest = digest_in (get passwords p.id);
})

unfoldable pub find_by_email : Vault → Text → Option StoredCredential
find_by_email s email =
    to_credential s.credentials.passwords (find_person_by_email s.identity email)

unfoldable pub find_credential : Vault → Text → Option StoredCredential
find_credential s person = to_credential s.credentials.passwords (get s.identity.people person)

unfoldable pub establish_password : Text → Text → Date → Vault → Vault
establish_password person digest moment s = record s {
  credentials = record s.credentials {
    passwords =
        put s.credentials.passwords person (record { digest = digest; updated_at = moment });
  };
}

unfoldable pub find_setup_token : Vault → Text → Option SetupToken
find_setup_token s digest =
    find (λ t. t.secret_digest == digest) (values s.credentials.setup_tokens)

abbrev pub redeemed_in : Option SetupToken → Text → Date → Dict SetupToken → Dict SetupToken
redeemed_in none id moment d = d
redeemed_in (some t) id moment d = put d id (record t { redeemed_at = some moment })

unfoldable pub mark_setup_token_redeemed : Text → Date → Vault → Vault
mark_setup_token_redeemed id moment s = record s {
  credentials = record s.credentials {
    setup_tokens =
        redeemed_in (get s.credentials.setup_tokens id) id moment s.credentials.setup_tokens;
  };
}

-- `InMemorySetupTokenIssuingRepository.insert`
unfoldable pub insert_setup_token : Text → Text → Text → Date → Vault → Vault
insert_setup_token id person digest expires_at s = record s {
  credentials = record s.credentials {
    setup_tokens = put s.credentials.setup_tokens id (record {
      id = id;
      person_id = person;
      secret_digest = digest;
      expires_at = expires_at;
      redeemed_at = none;
    });
  };
}

abbrev pub with_tokens : Vault → Dict RefreshToken → Vault
with_tokens s d = record s { credentials = record s.credentials { refresh_tokens = d } }

abbrev pub new_token : Text → Text → Text → Text → Date → RefreshToken
new_token id sign_in person digest expires_at = record {
  id = id;
  sign_in_id = sign_in;
  person_id = person;
  secret_digest = digest;
  session_expires_at = expires_at;
  exchanged_at = none;
  invalidated_at = none;
}

-- `InMemorySessionRepository.insert`
unfoldable pub insert_token : Text → Text → Text → Text → Date → Vault → Vault
insert_token id sign_in person digest expires_at s =
    with_tokens s
      (put s.credentials.refresh_tokens id (new_token id sign_in person digest expires_at))

unfoldable pub find_by_digest : Vault → Text → Option RefreshToken
find_by_digest s digest =
    find (λ t. t.secret_digest == digest) (values s.credentials.refresh_tokens)

abbrev pub exchanged_in : Option RefreshToken → Text → Date → Dict RefreshToken → Dict RefreshToken
exchanged_in none id moment d = d
exchanged_in (some t) id moment d = put d id (record t { exchanged_at = some moment })

unfoldable pub mark_exchanged : Text → Date → Vault → Vault
mark_exchanged id moment s =
    with_tokens s
      (exchanged_in (get s.credentials.refresh_tokens id) id moment s.credentials.refresh_tokens)

-- The body of the loop of `invalidateWhere`.
abbrev pub invalidate_one : (RefreshToken → Bool) → Date → RefreshToken → RefreshToken
invalidate_one matches moment t =
    if matches t && is_none t.invalidated_at then record t { invalidated_at = some moment } else t

-- Setting a key that is present keeps its place, so the loop rewrites the table where it stands.
unfoldable pub invalidate_where :
    (RefreshToken → Bool) → Date → Dict RefreshToken → Dict RefreshToken
invalidate_where matches moment [] = []
invalidate_where matches moment ((id, t) ∷ d) =
    (id, invalidate_one matches moment t) ∷ invalidate_where matches moment d

unfoldable pub invalidate_family : Text → Date → Vault → Vault
invalidate_family sign_in moment s =
    with_tokens s
      (invalidate_where (λ t. t.sign_in_id == sign_in) moment s.credentials.refresh_tokens)

unfoldable pub invalidate_all_for_person : Text → Date → Vault → Vault
invalidate_all_for_person person moment s =
    with_tokens s
      (invalidate_where (λ t. t.person_id == person) moment s.credentials.refresh_tokens)

abbrev active_in : Option Person → Bool
active_in none = false
active_in (some p) = person_active p.status

unfoldable pub is_operator : Vault → Text → Bool
is_operator s person =
    includes s.credentials.operators person && active_in (get s.identity.people person)
