-- ===== src/Credential/Issuing/Resolving.antt =====
-- A key that is issued or revoked, and what its secret resolves to.
use cubeforge_api.Prelude.{
  Bool, true, false, none, some, [], ◌∷◌, ◌++◌, Text, ◌≡◌, ap, ◌∙◌, arith, Date, All, find, eq_refl,
}
use cubeforge_api.Errors.Keeps.{bind-ok}
use cubeforge_api.Credential.Keys.{matches_digest, StoredApiKey, resolve, insert_key}
use cubeforge_api.Credential.Principal.{resolve_principal, api_key, resolve_api_key}
use cubeforge_api.Prelude.Dict.{put_new, Dict, get, values}
use cubeforge_api.Credential.Store.{Vault, run_authenticating}
use cubeforge_api.Credential.Issuing.{
  restoring_identity, Dict, insert_key, Result, Exec, Fresh, settle_identity_of, ok, Actor,
  issue_key_work, issue_api_key, err, required_role, IssuedApiKey, ◌>>=◌, with_keys, asks,
  key_roles, lift, label_of, modify,
}
use cubeforge_api.Access.Role.{RoleParseResult, Role, parsed, unparsed, parse_role}
use cubeforge_api.Credential.Tokens.{Crypto}
use cubeforge_api.Errors.{Result, Exec, ok, ◌>>=◌, asks, lift, modify}
use cubeforge_api.Credential.Sessions.{Fresh}
use cubeforge_api.Access.Authorize.{Actor, tenant_of, machine, authorize_in_tenant}
use cubeforge_api.Members.{required_role}

abbrev pub key_id : StoredApiKey → Text
key_id k = k.id

find-new :
    (p : StoredApiKey → Bool) (d : Dict StoredApiKey) (k : Text) (v : StoredApiKey)
    → All (λ u. p u ≡ false) (values d)
    → p v ≡ true
    → find p (values (d ++ (k, v) ∷ [])) ≡ some v
find-new p [] k v h e = rw e
find-new p ((i, w) ∷ d) k v (f, h) e = rw f (find-new p d k v h e)

resolve-insert_key :
    (d : Dict StoredApiKey) (tenant id label digest : Text) (role : Role) (now : Date)
    → get d id ≡ none
    → All (λ k. matches_digest digest k ≡ false) (values d)
    → resolve (insert_key tenant id label role digest now d) digest
      ≡ some (record { id = id; tenant_id = tenant; role = role })
unfolding resolve insert_key
resolve-insert_key d tenant id label digest role now fresh unused =
    let k : StoredApiKey = record {
      id = id;
      tenant_id = tenant;
      label = label;
      role = role;
      secret_digest = digest;
      created_at = now;
      last_used_at = none;
      revoked_at = none;
    } in
    rw (
      put_new d id k fresh,
      find-new (matches_digest digest) d id k unused (ground (arith, eq_refl digest)),
    )

settled_identity :
    {A : Type 0} (s : Vault) (r : Result A) (v s1 : Vault) (a : A)
    → settle_identity_of s (r, v) ≡ (ok a, s1)
    → (r ≡ ok a) × (v ≡ s1)
settled_identity s (ok b) v s1 a h = (ap (λ x. x.0) h, ap (λ x. x.1) h)
settled_identity s (err e) v s1 a h = absurd (ground arith)

pub restoring-ok :
    {A : Type 0} (work : Exec Vault A) (s s1 : Vault) (a : A)
    → restoring_identity work s ≡ (ok a, s1)
    → ((work s).0 ≡ ok a) × ((work s).1 ≡ s1)
unfolding restoring_identity
restoring-ok work s s1 a h = settled_identity s (work s).0 (work s).1 s1 a h

required_role-ok :
    (p : RoleParseResult) (r r' : Role) → p ≡ parsed r → required_role p ≡ ok r' → r' ≡ r
required_role-ok (parsed q) r r' e h = ground (arith, e, h)
required_role-ok (unparsed q) r r' e h = absurd (ground (arith, e))

module _ (c : Crypto) (now : Date) (fresh : Fresh) (actor : Actor) (label role_text tenant : Text)
    (role : Role) (s : Vault) where
  issue_key_work_sound :
      (issued : IssuedApiKey)
      → (issue_key_work c now fresh tenant actor label role_text s).0 ≡ ok issued
      → parse_role role_text ≡ parsed role
      → (trimmed : Text) × ((issue_key_work c now fresh tenant actor label role_text s).1
          ≡ with_keys (insert_key tenant fresh.row_id trimmed role (c.digest fresh.secret) now) s)
  unfolding issue_key_work
  issue_key_work_sound issued h e =
      let one =
        bind-ok (asks (λ v. authorize_in_tenant v.identity tenant actor key_roles)) _ s issued h in
      let two = bind-ok (lift (required_role (parse_role role_text))) _ s issued one.rest in
      let three = bind-ok (lift (label_of label)) _ s issued two.rest in
      let four =
        bind-ok
          (modify (
            with_keys
              (insert_key tenant fresh.row_id three.value two.value (c.digest fresh.secret) now)))
          _ s issued three.rest in
      let same : two.value ≡ role = required_role-ok _ role two.value e two.first in
      (
        three.value,
        one.same
            ∙ (two.same
                ∙ (three.same
                    ∙ (four.same
                        ∙ ap
                            (λ r.
                              with_keys
                                (insert_key tenant fresh.row_id three.value r
                                  (c.digest fresh.secret) now)
                                s)
                            same))),
      )

  resolved :
      (later : Date) (s1 : Vault)
      → resolve s1.keys (c.digest fresh.secret)
        ≡ some (record { id = fresh.row_id; tenant_id = tenant; role = role })
      → (resolve_principal c later (api_key fresh.secret) s1).0
        ≡ ok (some (machine fresh.row_id tenant role))
  unfolding resolve_principal resolve_api_key run_authenticating
  resolved later s1 h = rw h

  -- A key that is issued, with an identifier that is not in use and a secret whose digest no key
  -- that works has, resolves by its secret to a machine in the issuer's tenant with the role that
  -- was asked for.
  pub issue-resolve :
      (later : Date) (issued : IssuedApiKey) (s1 : Vault)
      → issue_api_key c now fresh actor label role_text s ≡ (ok issued, s1)
      → tenant_of actor ≡ ok tenant
      → parse_role role_text ≡ parsed role
      → get s.keys fresh.row_id ≡ none
      → All (λ k. matches_digest (c.digest fresh.secret) k ≡ false) (values s.keys)
      → (resolve_principal c later (api_key fresh.secret) s1).0
        ≡ ok (some (machine fresh.row_id tenant role))
  unfolding issue_api_key ◌>>=◌
  issue-resolve later issued s1 h here e new unused =
      let (done, after) =
        restoring-ok (issue_key_work c now fresh tenant actor label role_text) s s1 issued
          (rw here at h) in
      let (trimmed, keys) = issue_key_work_sound issued done e in
      resolved later s1 (
        rw (← after, keys)
          (resolve-insert_key s.keys tenant fresh.row_id trimmed (c.digest fresh.secret) role now
            new unused))
