-- ===== src/Tests/Spent.antt =====
-- A setup token that is presented once more, after a sign-in and the redemption of another.
use cubeforge_api.Prelude.{
  none, lit, ◌≡◌, ◌==◌, refl, trim, trim_start, trim_end, trim_keep, is_space,
}
use cubeforge_api.Prelude.Dict.{get, put}
use cubeforge_api.Errors.{err, ok, ◌>>=◌}
use cubeforge_api.Credential.Session.{assert_password_acceptable}
use cubeforge_api.Credential.Store.{
  Vault, insert_setup_token, run_authenticating, find_setup_token, mark_setup_token_redeemed,
  establish_password, invalidate_all_for_person,
}
use cubeforge_api.Credential.Sessions.{absent, redeem, sign_in, usable}
use cubeforge_api.Credential.Sessions.Refusing.{
  redeem-Reach, next, here, signs_in, inserts, redeems,
}
use cubeforge_api.Tests.Sessions.{
  crypto, noon, setup, vault, fresh, new_password, redeemed, redeems_first, setup_rows,
}

abbrev issued : Vault
issued = insert_setup_token (lit "t2") (lit "ann") (lit "second") setup.expires_at redeemed

abbrev signed_in : Vault
signed_in = (sign_in crypto noon fresh (lit "later") (lit "ann@acme.test") new_password issued).1

abbrev redeemed_both : Vault
redeemed_both = (redeem crypto noon (lit "second") new_password new_password signed_in).1

acceptable : assert_password_acceptable (lit "another pass phrase") ≡ ok tt
unfolding assert_password_acceptable trim trim_start trim_end trim_keep is_space
acceptable = refl

is_new : get redeemed.credentials.setup_tokens (lit "t2") ≡ none
unfolding redeem run_authenticating ◌>>=◌ assert_password_acceptable find_setup_token usable ◌==◌
    mark_setup_token_redeemed get put trim trim_start trim_end trim_keep is_space establish_password
    invalidate_all_for_person
is_new = refl

redeem-Reach_example :
    (redeem crypto noon (lit "setup") (lit "another pass phrase") (lit "h") redeemed_both).0
    ≡ err absent
redeem-Reach_example =
    redeem-Reach crypto noon noon (lit "setup") new_password new_password
      (lit "another pass phrase") (lit "h") vault redeemed redeemed_both tt setup_rows redeems_first
      (next
        (next (next here (inserts (lit "t2") (lit "ann") (lit "second") setup.expires_at is_new))
          (signs_in crypto noon fresh (lit "later") (lit "ann@acme.test") new_password))
        (redeems crypto noon (lit "second") new_password new_password))
      acceptable
