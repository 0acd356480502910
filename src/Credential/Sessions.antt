-- ===== src/Credential/Sessions.antt =====
-- src/application/authentication and src/application/credential. The identifiers and secrets that
-- the generators supply are arguments.
pub mod Rotation
pub mod Steps
pub mod Sequences
pub mod Replay
pub mod Admission
pub mod Redemption
pub mod Renewal
pub mod Spent
pub mod Refusing
use cubeforge_api.Prelude.{
  Bool, true, false, not, Option, none, some, Text, if◌then◌else◌, Date, is_none, not_after,
}
use cubeforge_api.Errors.{
  Failure, Result, violation, Exec, err, ok, not_found, pure, ◌>>=◌, ◌>>◌, lift, modify, asks, gets,
}
use cubeforge_api.Credential.Tokens.{Crypto, issue_token}
use cubeforge_api.Credential.Store.{
  RefreshToken, Vault, SetupToken, StoredCredential, invalidate_all_for_person, run_authenticating,
  invalidate_family, find_by_digest, find_credential, mark_exchanged, insert_token, find_by_email,
  find_setup_token, mark_setup_token_redeemed, establish_password,
}
use cubeforge_api.Access.Entities.{PersonStatus, person_active}
use cubeforge_api.Credential.Session.{
  RefreshTokenState, RefreshDecision, decide_refresh, assert_password_acceptable, session_deadline,
  reject_and_invalidate_family, reject, exchange,
}
use cubeforge_api.Access.Identifiers.{email_address}

pub record IssuedSession : Type 0 where
  pub access_token : Text
  pub refresh_token : Text
  pub session_expires_at : Date

-- What the generators supply for a new refresh token.
pub record Fresh : Type 0 where
  pub row_id : Text
  pub secret : Text

-- Every way to refuse an address, a password or a token is this one.
abbrev pub absent : Failure
absent = violation not_found

-- The private `parse` of `SignInUseCase`
abbrev parsed_address : Result Text → Result Text
parsed_address (ok a) = ok a
parsed_address (err e) = err absent

-- `verifyAgainstDecoy` spends the time and answers false.
abbrev pub verify_against_decoy : Crypto → Text → Bool
verify_against_decoy c password = false

abbrev pub password_matches : Crypto → Text → PersonStatus → Option Text → Bool
password_matches c password status none = verify_against_decoy c password
password_matches c password status (some digest) =
    if person_active status then c.verify password digest else verify_against_decoy c password

-- The credential of a person who is authenticated.
unfoldable pub authenticated : Crypto → Text → Option StoredCredential → Result StoredCredential
authenticated c password none = err absent
authenticated c password (some found) =
    if password_matches c password found.person_status found.password_digest
    then ok found
    else err absent

-- The token's part of a `StoredRefreshToken` that `decideRefresh` reads.
abbrev pub state_of : RefreshToken → RefreshTokenState
state_of t = record {
  sign_in_id = t.sign_in_id;
  exchanged_at = t.exchanged_at;
  invalidated_at = t.invalidated_at;
  session_expires_at = t.session_expires_at;
}

-- `none` is a refusal, whose work is committed before the rejection is raised.
abbrev pub refuse_after : (Vault → Vault) → Exec Vault (Option IssuedSession)
refuse_after work s = (ok none, work s)

abbrev pub session_of : Option IssuedSession → Result IssuedSession
session_of none = err absent
session_of (some session) = ok session

unfoldable pub usable : Date → Option SetupToken → Result SetupToken
usable now none = err absent
usable now (some t) =
    if not (is_none t.redeemed_at)
    then err absent
    else if not_after t.expires_at now
    then err absent
    else ok t

module _ (c : Crypto) (now : Date) where
  unfoldable pub sign_in_work : Fresh → Text → Text → Text → Exec Vault IssuedSession
  sign_in_work fresh sign_in_id email password = do
    address ← lift (parsed_address (email_address c.lower email))
    found ← asks (λ s. authenticated c password (find_by_email s address))
    modify (
        insert_token fresh.row_id sign_in_id found.person_id (c.digest fresh.secret)
          (session_deadline now))
    token ← lift (issue_token c found.person_id now)
    pure (record {
      access_token = token;
      refresh_token = fresh.secret;
      session_expires_at = session_deadline now;
    })

  -- `SignInUseCase.execute`
  unfoldable pub sign_in : Fresh → Text → Text → Text → Exec Vault IssuedSession
  sign_in fresh sign_in_id email password =
      run_authenticating (sign_in_work fresh sign_in_id email password)

  abbrev end_sessions : Bool → RefreshToken → Vault → Vault
  end_sessions true t = invalidate_all_for_person t.person_id now
  end_sessions false t = invalidate_family t.sign_in_id now

  abbrev signed_out : Bool → Option RefreshToken → Vault → Vault
  signed_out everywhere none s = s
  signed_out everywhere (some t) s = end_sessions everywhere t s

  -- `SignOutUseCase.execute`
  unfoldable pub sign_out : Text → Bool → Exec Vault (Unit {0})
  sign_out token everywhere =
      run_authenticating (modify (λ s. signed_out everywhere (find_by_digest s (c.digest token)) s))

  -- The exchange itself.
  unfoldable pub rotate : Fresh → RefreshToken → Exec Vault (Option IssuedSession)
  rotate fresh t = do
    modify (mark_exchanged t.id now)
    modify (
        insert_token fresh.row_id t.sign_in_id t.person_id (c.digest fresh.secret)
          t.session_expires_at)
    token ← lift (issue_token c t.person_id now)
    pure (
        some (record {
          access_token = token;
          refresh_token = fresh.secret;
          session_expires_at = t.session_expires_at;
        }))

  unfoldable pub exchange_for :
      Fresh → RefreshToken → Option StoredCredential → Exec Vault (Option IssuedSession)
  exchange_for fresh t none = refuse_after (invalidate_all_for_person t.person_id now)
  exchange_for fresh t (some holder) =
      if not (person_active holder.person_status)
      then refuse_after (invalidate_all_for_person t.person_id now)
      else rotate fresh t

  unfoldable pub refresh_decided :
      Fresh → RefreshDecision → RefreshToken → Exec Vault (Option IssuedSession)
  refresh_decided fresh reject_and_invalidate_family t =
      refuse_after (invalidate_family t.sign_in_id now)
  refresh_decided fresh reject t = pure none
  refresh_decided fresh exchange t =
      gets (λ s. find_credential s t.person_id) >>= λ holder. exchange_for fresh t holder

  unfoldable pub refresh_found : Fresh → Option RefreshToken → Exec Vault (Option IssuedSession)
  refresh_found fresh none = pure none
  refresh_found fresh (some t) = refresh_decided fresh (decide_refresh (state_of t) now) t

  -- The work in the transaction.
  unfoldable pub refresh_work : Fresh → Text → Exec Vault (Option IssuedSession)
  refresh_work fresh token s = refresh_found fresh (find_by_digest s (c.digest token)) s

  -- `RefreshSessionUseCase.execute`
  unfoldable pub refresh : Fresh → Text → Exec Vault IssuedSession
  refresh fresh token = do
    outcome ← run_authenticating (refresh_work fresh token)
    lift (session_of outcome)

  -- `RedeemSetupTokenUseCase.execute`; `hashed` is what Argon2 makes of the password, with a salt of
  -- its own.
  unfoldable pub redeem : Text → Text → Text → Exec Vault (Unit {0})
  redeem token password hashed = do
    lift (assert_password_acceptable password)
    run_authenticating (do
      t ← asks (λ s. usable now (find_setup_token s (c.digest token)))
      modify (mark_setup_token_redeemed t.id now)
      modify (establish_password t.person_id hashed now)
      modify (invalidate_all_for_person t.person_id now))
