-- ===== src/Credential/Sessions/Sequences.antt =====
-- Sequences of requests to src/application/authentication, and of other work on the same stores.
use cubeforge_api.Prelude.{ℕ, ◌≤◌, Bool, false, none, Text, ◌==◌, ◌≡◌, sym, arith, Date, subst, All}
use cubeforge_api.Credential.Store.Families.{live_in, token_id}
use cubeforge_api.Credential.Sessions.Rotation.{tokens_of, Steady, Keeps}
use cubeforge_api.Credential.Sessions.Steps.{sign_in-P, refresh-P, sign_out-P, redeem-P}
use cubeforge_api.Credential.Store.{Vault, RefreshToken}
use cubeforge_api.Credential.Tokens.{Crypto}
use cubeforge_api.Prelude.Dict.Indexed.{IsIndexed}
use cubeforge_api.Credential.Sessions.{Fresh, sign_in, refresh, sign_out, redeem}
use cubeforge_api.Prelude.Dict.{get, values}

-- One request, with any cryptography, at any moment. New rows have identifiers that are not in use,
-- and a sign-in has an identifier other than that of the family.
pub data Step (family : Text) (s : Vault) : Vault → Type 0 where
  signs_in :
      (c : Crypto) (now : Date) (fresh : Fresh) (sign_in_id email password : Text)
      → get (tokens_of s) fresh.row_id ≡ none
      → (sign_in_id == family) ≡ false
      → Step family s (sign_in c now fresh sign_in_id email password s).1
  refreshes :
      (c : Crypto) (now : Date) (fresh : Fresh) (token : Text)
      → get (tokens_of s) fresh.row_id ≡ none
      → Step family s (refresh c now fresh token s).1
  signs_out :
      (c : Crypto) (now : Date) (token : Text) (everywhere : Bool)
      → Step family s (sign_out c now token everywhere s).1
  redeems :
      (c : Crypto) (now : Date) (token password hashed : Text)
      → Step family s (redeem c now token password hashed s).1
  elsewhere : (v : Vault) → tokens_of v ≡ tokens_of s → Step family s v

pub data Reach (family : Text) (s : Vault) : Vault → Type 0 where
  here : Reach family s s
  next : {u v : Vault} → Reach family s u → Step family u v → Reach family s v

module _ (family person : Text) (deadline : Date) (bound : ℕ) where
  Step-Keeps :
      {s v : Vault}
      → Step family s v
      → Keeps family person deadline bound s
      → Keeps family person deadline bound v
  Step-Keeps (signs_in c now fresh sign_in_id email password new other) h =
      sign_in-P family person deadline bound c now fresh sign_in_id email password _ new other h
  Step-Keeps (refreshes c now fresh token new) h =
      refresh-P family person deadline bound c now fresh token _ new h
  Step-Keeps (signs_out c now token everywhere) h =
      sign_out-P family person deadline bound c now token everywhere _ h
  Step-Keeps (redeems c now token password hashed) h =
      redeem-P family person deadline bound c now token password hashed _ h
  Step-Keeps (elsewhere v e) h = subst (Steady family person deadline bound) (sym e) h

  Reach-Keeps :
      {s v : Vault}
      → Reach family s v
      → Keeps family person deadline bound s
      → Keeps family person deadline bound v
  Reach-Keeps here h = h
  Reach-Keeps (next r st) h = Step-Keeps st (Reach-Keeps r h)

-- What all the tokens of one sign-in share.
abbrev pub IsOf : Text → Text → Date → RefreshToken → Type 0
IsOf family person deadline t =
    t.sign_in_id ≡ family → (t.person_id ≡ person) × (t.session_expires_at ≡ deadline)

-- In a table keyed by its rows' identifiers, where all tokens of one sign-in are of one person and
-- end at one moment: through any sequence of sign-ins under other identifiers, refreshes, sign-outs,
-- redemptions and other work, the number of live tokens of that sign-in never grows, and all of its
-- tokens, the later ones included, are still of that person and end at that moment.
pub Reach-live :
    (family person : Text) (deadline : Date) (s v : Vault)
    → IsIndexed token_id (tokens_of s)
    → All (IsOf family person deadline) (values (tokens_of s))
    → Reach family s v
    → (live_in family (tokens_of v) ≤ live_in family (tokens_of s))
      × All (IsOf family person deadline) (values (tokens_of v))
Reach-live family person deadline s v indexed own r =
    let bound = live_in family (tokens_of s) in
    let start : Keeps family person deadline bound s = record {
      indexed = indexed;
      live = omega arith;
      own = own;
    } in
    let end = Reach-Keeps family person deadline bound r start in (end.live, end.own)
