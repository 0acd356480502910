-- ===== src/Credential/Sessions/Refusing.antt =====
-- A setup token that is spent, after sequences of requests to src/application/authentication and
-- src/application/credential, and of other work on the same stores.
use cubeforge_api.Prelude.{Bool, Text, ◌≡◌, sym, Date, none, some, refl, subst}
use cubeforge_api.Prelude.Dict.{get}
use cubeforge_api.Prelude.Dict.Indexed.{IsIndexed}
use cubeforge_api.Errors.{ok, err}
use cubeforge_api.Credential.Tokens.{Crypto}
use cubeforge_api.Credential.Session.{assert_password_acceptable}
use cubeforge_api.Credential.Store.{Vault, find_setup_token, insert_setup_token}
use cubeforge_api.Credential.Sessions.{Fresh, absent, usable, sign_in, refresh, sign_out, redeem}
use cubeforge_api.Credential.Sessions.Redemption.{
  setup_id, redeem_sound, find-redeemed, refused_redemption,
}
use cubeforge_api.Credential.Sessions.Spent.{
  setups_of, IsSpent, P, sign_in-P, refresh-P, sign_out-P, redeem-P, insert-P,
}

-- One request or insertion, with any cryptography, at any moment. A new setup token has an
-- identifier that is not in use.
pub data Step (s : Vault) : Vault → Type 0 where
  signs_in :
      (c : Crypto) (now : Date) (fresh : Fresh) (sign_in_id email password : Text)
      → Step s (sign_in c now fresh sign_in_id email password s).1
  refreshes :
      (c : Crypto) (now : Date) (fresh : Fresh) (token : Text)
      → Step s (refresh c now fresh token s).1
  signs_out :
      (c : Crypto) (now : Date) (token : Text) (everywhere : Bool)
      → Step s (sign_out c now token everywhere s).1
  redeems :
      (c : Crypto) (now : Date) (token password hashed : Text)
      → Step s (redeem c now token password hashed s).1
  inserts :
      (id person digest : Text) (expires_at : Date)
      → get (setups_of s) id ≡ none
      → Step s (insert_setup_token id person digest expires_at s)
  elsewhere : (v : Vault) → setups_of v ≡ setups_of s → Step s v

pub data Reach (s : Vault) : Vault → Type 0 where
  here : Reach s s
  next : {u v : Vault} → Reach s u → Step u v → Reach s v

Step-P : (digest : Text) {s v : Vault} → Step s v → P digest s → P digest v
Step-P digest (signs_in c now fresh sign_in_id email password) h =
    sign_in-P digest c now fresh sign_in_id email password _ h
Step-P digest (refreshes c now fresh token) h = refresh-P digest c now fresh token _ h
Step-P digest (signs_out c now token everywhere) h = sign_out-P digest c now token everywhere _ h
Step-P digest (redeems c now token password hashed) h =
    redeem-P digest c now token password hashed _ h
Step-P digest (inserts id person other expires_at new) h =
    insert-P digest id person other expires_at _ new h
Step-P digest (elsewhere v e) h = subst (IsSpent digest) (sym e) h

Reach-P : (digest : Text) {s v : Vault} → Reach s v → P digest s → P digest v
Reach-P digest here h = h
Reach-P digest (next r step) h = Step-P digest step (Reach-P digest r h)

spent-unusable :
    (digest : Text) (later : Date) (s : Vault)
    → P digest s
    → usable later (find_setup_token s digest) ≡ err absent
unfolding usable find_setup_token
spent-unusable digest later s h = rw (h.found, h.redeemed, usable) refl

-- In a table keyed by its rows' identifiers, a setup token that is redeemed is refused from then on:
-- after any sequence of sign-ins, refreshes, sign-outs, redemptions of any tokens, insertions of
-- setup tokens under new identifiers and work that leaves the setup tokens alone, at any moment and
-- with any password that is acceptable.
pub redeem-Reach :
    (c : Crypto) (now later : Date) (token password hashed password' hashed' : Text)
    (s s1 s2 : Vault) (x : Unit {0})
    → IsIndexed setup_id (setups_of s)
    → redeem c now token password hashed s ≡ (ok x, s1)
    → Reach s1 s2
    → assert_password_acceptable password' ≡ ok tt
    → (redeem c later token password' hashed' s2).0 ≡ err absent
unfolding find_setup_token
redeem-Reach c now later token password hashed password' hashed' s s1 s2 x indexed h r good =
    let done = redeem_sound c now token password hashed s s1 x h in
    let start : P (c.digest token) s1 = subst (P (c.digest token)) (sym done.after) (record {
      token = record done.setup { redeemed_at = some now };
      moment = now;
      found = find-redeemed c now token hashed s done.setup indexed done.found;
      redeemed = refl;
    }) in
    refused_redemption c later token password' hashed' s2 good
      (spent-unusable (c.digest token) later s2 (Reach-P (c.digest token) r start))
