-- ===== src/Tests/Sessions.antt =====
-- Sessions, setup tokens and passwords: one person signs in, refreshes and redeems.
use cubeforge_api.Prelude.{
  ◌≤◌, true, false, none, some, [], ◌∷◌, Text, ◌==◌, ◌≡◌, ◌↔◌, refl, Date, trim, at, lit, All,
  eq_refl, trim_start, pos, trim_end, trim_keep, is_space,
}
use cubeforge_api.Tests.Inventory.{ann, stores, epoch}
use cubeforge_api.Credential.Tokens.{Crypto}
use cubeforge_api.Credential.Sessions.{Fresh, refresh, redeem, sign_out, sign_in, absent, usable}
use cubeforge_api.Credential.Store.{
  StoredPassword, SetupToken, RefreshToken, Vault, find_by_digest, find_setup_token,
  run_authenticating, mark_setup_token_redeemed,
}
use cubeforge_api.Prelude.Dict.{get, values}
use cubeforge_api.Credential.Store.Families.{live_in, token_id}
use cubeforge_api.Credential.Sessions.Admission.{Succeeds, MaySignIn, sign_in_iff, IsSigning}
use cubeforge_api.Credential.Session.{assert_password_acceptable}
use cubeforge_api.Access.Identifiers.{email_address}
use cubeforge_api.Access.Directory.{find_person_by_email}
use cubeforge_api.Credential.Sessions.Rotation.{tokens_of}
use cubeforge_api.Prelude.Dict.Indexed.{IsIndexed}
use cubeforge_api.Credential.Sessions.Sequences.{IsOf, Reach-live, next, here, refreshes, signs_out}
use cubeforge_api.Errors.{err, ◌>>=◌, ok}
use cubeforge_api.Credential.Sessions.Renewal.{MayRefresh, refresh_iff}
use cubeforge_api.Credential.Sessions.Redemption.{setup_id, redeem-sign_in}
use cubeforge_api.Credential.Sessions.Replay.{refresh-replayed}

-- Cryptography that leaves texts as they are.
abbrev pub crypto : Crypto
crypto = record {
  lower = λ t. t;
  verify = λ a b. a == b;
  digest = λ t. t;
  sign = λ claims. lit "jwt";
  decode = λ t. none;
  lifetime_seconds = 900;
}

signing : IsSigning crypto
unfolding trim trim_start trim_end trim_keep is_space
signing claims = refl

abbrev pub noon : Date
noon = at (pos 43_200_000)

abbrev pub fresh : Fresh
fresh = record { row_id = lit "r2"; secret = lit "two" }

abbrev password : Text
password = lit "correct horse"

abbrev ann_password : StoredPassword
ann_password = record { digest = password; updated_at = epoch }

abbrev pub setup : SetupToken
setup = record {
  id = lit "t1";
  person_id = lit "ann";
  secret_digest = lit "setup";
  expires_at = at (pos 86_400_000);
  redeemed_at = none;
}

abbrev first_token : RefreshToken
first_token = record {
  id = lit "r1";
  sign_in_id = lit "si1";
  person_id = lit "ann";
  secret_digest = lit "one";
  session_expires_at = at (pos 90_000_000);
  exchanged_at = none;
  invalidated_at = none;
}

abbrev pub vault_with : RefreshToken → Vault
vault_with t = record {
  identity = stores.identity;
  credentials = record {
    passwords = (lit "ann", ann_password) ∷ [];
    setup_tokens = (lit "t1", setup) ∷ [];
    refresh_tokens = (lit "r1", t) ∷ [];
    operators = [];
  };
  keys = [];
}

abbrev pub vault : Vault
vault = vault_with first_token

abbrev refreshed : Vault
refreshed = (refresh crypto noon fresh (lit "one") vault).1

abbrev left : Vault
left = (sign_out crypto noon (lit "two") false refreshed).1

row_is_new : get (tokens_of vault) (lit "r2") ≡ none
unfolding get ◌==◌
row_is_new = refl

indexed : IsIndexed token_id (tokens_of vault)
unfolding get ◌==◌
indexed = (refl, refl, tt)

own : All (IsOf (lit "si1") (lit "ann") (at (pos 90_000_000))) (values (tokens_of vault))
own = (λ e. (refl, refl), tt)

-- A refresh, and then a sign-out with the token that it gave.
Reach-live_example :
    (live_in (lit "si1") (tokens_of left) ≤ live_in (lit "si1") (tokens_of vault))
    × All (IsOf (lit "si1") (lit "ann") (at (pos 90_000_000))) (values (tokens_of left))
Reach-live_example =
    Reach-live (lit "si1") (lit "ann") (at (pos 90_000_000)) vault left indexed own (
      next (next here (refreshes crypto noon fresh (lit "one") row_is_new))
        (signs_out crypto noon (lit "two") false))

abbrev used_token : RefreshToken
used_token = record first_token { exchanged_at = some epoch }

used_is_found : find_by_digest (vault_with used_token) (lit "one") ≡ some used_token
unfolding find_by_digest ◌==◌
used_is_found = refl

refresh-replayed_example :
    ((refresh crypto noon fresh (lit "one") (vault_with used_token)).0 ≡ err absent)
    × (live_in
          (lit "si1")
          (tokens_of (refresh crypto noon fresh (lit "one") (vault_with used_token)).1)
        ≡ 0)
refresh-replayed_example =
    refresh-replayed crypto noon epoch fresh (lit "one") (vault_with used_token) used_token
      used_is_found refl refl

sign_in_iff_example :
    Succeeds (sign_in crypto noon fresh (lit "si2") (lit "ann@acme.test") password) vault
    ↔ MaySignIn crypto vault (lit "ann@acme.test") password
sign_in_iff_example =
    sign_in_iff crypto noon fresh (lit "si2") (lit "ann@acme.test") password vault signing

refresh_iff_example :
    Succeeds (refresh crypto noon fresh (lit "one")) vault
    ↔ MayRefresh crypto noon vault (lit "one")
refresh_iff_example = refresh_iff crypto noon fresh (lit "one") vault signing

abbrev pub new_password : Text
new_password = lit "battery staple"

abbrev pub redeemed : Vault
redeemed = (redeem crypto noon (lit "setup") new_password new_password vault).1

pub redeems_first :
    redeem crypto noon (lit "setup") new_password new_password vault ≡ (ok tt, redeemed)
unfolding redeem run_authenticating ◌>>=◌ assert_password_acceptable find_setup_token usable ◌==◌
    mark_setup_token_redeemed get trim trim_start trim_end trim_keep is_space
redeems_first = refl

pub setup_rows : IsIndexed setup_id vault.credentials.setup_tokens
unfolding get ◌==◌
setup_rows = (refl, refl, tt)

setup_is_found : find_setup_token vault (lit "setup") ≡ some setup
unfolding find_setup_token ◌==◌
setup_is_found = refl

address_parses : email_address (λ t. t) (lit "ann@acme.test") ≡ ok (lit "ann@acme.test")
unfolding email_address trim trim_start trim_end trim_keep is_space
address_parses = refl

ann_is_known : find_person_by_email stores.identity (lit "ann@acme.test") ≡ some ann
unfolding find_person_by_email ◌==◌
ann_is_known = refl

is_accepted : (new_password == new_password) ≡ true
is_accepted = eq_refl new_password

redeem-sign_in_example :
    Succeeds (sign_in crypto noon fresh (lit "si2") (lit "ann@acme.test") new_password) redeemed
    × (live_in (lit "si1") (tokens_of redeemed) ≡ 0)
redeem-sign_in_example =
    redeem-sign_in crypto noon noon (lit "setup") new_password new_password (lit "ann@acme.test")
      (lit "ann@acme.test") fresh (lit "si2") vault redeemed tt setup ann (lit "si1") signing
      redeems_first setup_is_found refl address_parses ann_is_known refl is_accepted (λ e. refl, tt)
