-- ===== src/Credential/Sessions/Admission.antt =====
-- Who is let in: `SignInUseCase` and `RefreshSessionUseCase`.
use cubeforge_api.Prelude.{
  true, false, Option, none, some, Text, ◌≡◌, ◌↔◌, refl, sym, ◌∙◌, arith, length, Date, nat_eq,
  trim,
}
use cubeforge_api.Errors.Keeps.{bind-ok}
use cubeforge_api.Access.Identifiers.{email_address}
use cubeforge_api.Credential.Tokens.{Crypto, issue_token, Claims}
use cubeforge_api.Errors.{Exec, Result, ok, lift, ◌>>=◌, asks}
use cubeforge_api.Credential.Sessions.{
  authenticated, Fresh, ok, parsed_address, sign_in, err, StoredCredential, sign_in_work,
  password_matches, find_by_email, lift, ◌>>=◌, asks, IssuedSession,
}
use cubeforge_api.Credential.Store.{
  Vault, run_authenticating, settle_vault, StoredPassword, StoredCredential, to_credential,
  find_by_email, digest_in,
}
use cubeforge_api.Access.Entities.{Person, person_active}
use cubeforge_api.Credential.Session.{secret, session_deadline}
use cubeforge_api.Access.Directory.{find_person_by_email}
use cubeforge_api.Prelude.Dict.{get}

-- A JSON web token is never blank.
abbrev pub IsSigning : Crypto → Type 0
IsSigning c = (claims : Claims) → nat_eq (length (trim (c.sign claims))) 0 ≡ false

abbrev pub Succeeds : {S A : Type 0} → Exec S A → S → Type 0
Succeeds {A = A} m s = (a : A) × ((m s).0 ≡ ok a)

-- What it takes to sign in.
pub record MaySignIn (c : Crypto) (s : Vault) (email password : Text) : Type 0 where
  pub address : Text
  pub parsed : email_address c.lower email ≡ ok address
  pub person : Person
  pub known : find_person_by_email s.identity address ≡ some person
  pub active : person_active person.status ≡ true
  pub stored : StoredPassword
  pub has_password : get s.credentials.passwords person.id ≡ some stored
  pub matches : c.verify password stored.digest ≡ true

parsed_address-ok : (r : Result Text) (a : Text) → parsed_address r ≡ ok a → r ≡ ok a
parsed_address-ok (ok b) a h = h
parsed_address-ok (err e) a h = absurd (ground arith)

record Holder (c : Crypto) (s : Vault) (o : Option Person) (password : Text) : Type 0 where
  person : Person
  known : o ≡ some person
  active : person_active person.status ≡ true
  stored : StoredPassword
  has_password : get s.credentials.passwords person.id ≡ some stored
  matches : c.verify password stored.digest ≡ true

bearer_of :
    (c : Crypto) (s : Vault) (password : Text) (p : Person) (o : Option StoredPassword)
    → get s.credentials.passwords p.id ≡ o
    → password_matches c password p.status (digest_in o) ≡ true
    → Holder c s (some p) password
bearer_of c s password p none e h = absurd (ground arith)
bearer_of c s password p (some stored) e h = record {
  person = p;
  known = refl;
  active = ground arith;
  stored = stored;
  has_password = e;
  matches = ground arith;
}

authenticated_sound :
    (c : Crypto) (s : Vault) (o : Option Person) (password : Text) (found : StoredCredential)
    → authenticated c password (to_credential s.credentials.passwords o) ≡ ok found
    → Holder c s o password
unfolding authenticated
authenticated_sound c s none password found h = absurd (ground arith)
authenticated_sound c s (some p) password found h =
    bearer_of c s password p (get s.credentials.passwords p.id) refl (ground (arith, h))

settle-result : {A : Type 0} (s : Vault) (r : Result A) (v : Vault) → (settle_vault s (r, v)).0 ≡ r
settle-result s (ok a) v = refl
settle-result s (err e) v = refl

pub run-result :
    {A : Type 0} (work : Exec Vault A) (s : Vault) → (run_authenticating work s).0 ≡ (work s).0
unfolding run_authenticating
run-result work s = settle-result s (work s).0 (work s).1

secret-ok : (t : Text) → nat_eq (length (trim t)) 0 ≡ false → secret t ≡ ok t
unfolding secret
secret-ok t h = rw h

pub issue-ok :
    (c : Crypto) (p : Text) (now : Date)
    → IsSigning c
    → (token : Text) × (issue_token c p now ≡ ok token)
unfolding issue_token
issue-ok c p now signs = (_, secret-ok _ (signs _))

module _ (c : Crypto) (now : Date) (fresh : Fresh) (sign_in_id email password : Text)
    (s : Vault) where
  sign_in_sound :
      Succeeds (sign_in c now fresh sign_in_id email password) s → MaySignIn c s email password
  unfolding sign_in sign_in_work find_by_email
  sign_in_sound (a, h) =
      let work = sign_in_work c now fresh sign_in_id email password in
      let one =
        bind-ok (lift (parsed_address (email_address c.lower email))) _ s a
          (sym (run-result work s) ∙ h) in
      let two =
        bind-ok (asks (λ v. authenticated c password (find_by_email v one.value))) _ s a one.rest in
      let holder = authenticated_sound c s _ password two.value two.first in
      record {
        address = one.value;
        parsed = parsed_address-ok _ one.value one.first;
        person = holder.person;
        known = holder.known;
        active = holder.active;
        stored = holder.stored;
        has_password = holder.has_password;
        matches = holder.matches;
      }

  sign_in_complete :
      IsSigning c
      → MaySignIn c s email password
      → Succeeds (sign_in c now fresh sign_in_id email password) s
  unfolding sign_in sign_in_work find_by_email authenticated ◌>>=◌
  sign_in_complete signs h =
      let (token, issued) = issue-ok c h.person.id now signs in
      let session : IssuedSession = record {
        access_token = token;
        refresh_token = fresh.secret;
        session_expires_at = session_deadline now;
      } in
      let work = sign_in_work c now fresh sign_in_id email password in
      let done : (work s).0 ≡ ok session =
        rw (h.parsed, h.known, h.has_password, h.active, h.matches, issued) in
      (session, run-result work s ∙ done)

  -- Where tokens are never blank, signing in succeeds exactly if the address parses, a person who is
  -- active has it, that person has a password, and the one presented matches it.
  pub sign_in_iff :
      IsSigning c
      → Succeeds (sign_in c now fresh sign_in_id email password) s ↔ MaySignIn c s email password
  sign_in_iff signs = (sign_in_sound, sign_in_complete signs)
