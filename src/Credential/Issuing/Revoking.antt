-- ===== src/Credential/Issuing/Revoking.antt =====
-- A key that is revoked: src/application/api-key/revoke-api-key.use-case.ts.
use cubeforge_api.Prelude.{
  false, some, Text, ◌==◌, ◌≡◌, ◌≢◌, inl, inr, sym, ap, ◌∙◌, arith, Date, Bool-cases, Option-cases,
  is_none, find, eq_iff, subst,
}
use cubeforge_api.Errors.Keeps.{bind-ok}
use cubeforge_api.Credential.Keys.{
  matches_digest, revoked_in, in_scope, scoped, resolve, StoredApiKey, ResolvedApiKey, find_key,
  revoke_key, summarize,
}
use cubeforge_api.Credential.Issuing.Resolving.{key_id, restoring-ok}
use cubeforge_api.Prelude.Dict.Indexed.{IsIndexed, get_own, All-filter, find_sound, IsIndexed-put}
use cubeforge_api.Prelude.Dict.{Dict, get, values, get_self}
use cubeforge_api.Access.Authorize.{Actor, tenant_of, authorize_in_tenant}
use cubeforge_api.Credential.Store.{Vault}
use cubeforge_api.Credential.Issuing.{
  revoke_key_work, revoke_api_key, find_key, ◌>>=◌, revoke_key, ok, asks, key_roles, required,
}
use cubeforge_api.Errors.{◌>>=◌, ok, asks}
use cubeforge_api.Members.{required}

-- The row under this identifier, if there is one, is revoked.
abbrev RevokedAt : Dict StoredApiKey → Text → Type 0
RevokedAt d id = (k : StoredApiKey) → get d id ≡ some k → is_none k.revoked_at ≡ false

in_scope_sound :
    (d : Dict StoredApiKey) (tenant id : Text) (k : StoredApiKey)
    → IsIndexed key_id d
    → in_scope d tenant id ≡ some k
    → (get d k.id ≡ some k) × (k.id ≡ id)
unfolding scoped
in_scope_sound d tenant id k h e =
    let own = All-filter _ (λ u. u.tenant_id == tenant) (values d) (get_own key_id d h) in
    let (row, same) = find_sound (λ u. get d u.id ≡ some u) (λ u. u.id == id) _ k own e in
    (row, (eq_iff k.id id).0 same)

RevokedAt-revoked :
    (d : Dict StoredApiKey) (k : StoredApiKey) (now : Date)
    → get d k.id ≡ some k
    → RevokedAt (revoked_in (some k) now d) k.id
RevokedAt-revoked d k now row u h = elim (Bool-cases (is_none k.revoked_at)) [
  | inl e ↦
      let at_key = get_self d k.id (record k { revoked_at = some now }) in
      ground (arith, rw e at h, at_key)
  | inr e ↦ ground (arith, rw e at h, row, e)
]

IsIndexed-revoked :
    (d : Dict StoredApiKey) (k : StoredApiKey) (now : Date)
    → IsIndexed key_id d
    → IsIndexed key_id (revoked_in (some k) now d)
IsIndexed-revoked d k now h = elim (Bool-cases (is_none k.revoked_at)) [
  | inl e ↦ rw e (IsIndexed-put key_id d (record k { revoked_at = some now }) h)
  | inr e ↦ rw e h
]

-- A secret resolves to no key that is revoked.
resolve-other :
    (d : Dict StoredApiKey) (id digest : Text) (r : ResolvedApiKey)
    → IsIndexed key_id d
    → RevokedAt d id
    → resolve d digest ≡ some r
    → r.id ≢ id
unfolding resolve
resolve-other d id digest r indexed revoked h same =
    elim (Option-cases (find (matches_digest digest) (values d))) [
      | inl e ↦ absurd (ground (arith, rw e at h))
      | inr (k, e) ↦
          let (row, works) =
            find_sound (λ u. get d u.id ≡ some u) (matches_digest digest) (values d) k
              (get_own key_id d indexed) e in
          let is_r : k.id ≡ r.id = ground (arith, rw e at h) in
          let dead = revoked k (rw (← same, ← is_r) row) in ground (arith, works, dead)
    ]

module _ (now : Date) (actor : Actor) (tenant id : Text) (s : Vault) where
  record Withdrawn (s1 : Vault) : Type 0 where
    key : StoredApiKey
    found : in_scope s.keys tenant id ≡ some key
    after : s1.keys ≡ revoked_in (some key) now s.keys

  revoke_key_work_sound :
      (x : Unit {0})
      → (revoke_key_work now tenant actor id s).0 ≡ ok x
      → IsIndexed key_id s.keys
      → Withdrawn (revoke_key_work now tenant actor id s).1
  unfolding revoke_key_work find_key revoke_key summarize
  revoke_key_work_sound x h indexed =
      let one =
        bind-ok (asks (λ v. authorize_in_tenant v.identity tenant actor key_roles)) _ s x h in
      let two = bind-ok (asks (λ v. required (find_key v.keys tenant id))) _ s x one.rest in
      let after = one.same ∙ two.same in
      elim (Option-cases (in_scope s.keys tenant id)) [
        | inl e ↦ absurd (ground (arith, rw e at two.first))
        | inr (k, e) ↦
            let first = rw e at two.first in
            let same : two.value.id ≡ id =
              ground (arith, first, in_scope_sound s.keys tenant id k indexed e) in
            record { key = k; found = e; after = ap (λ v. v.keys) after ∙ rw (same, e) }
      ]

  -- Where the keys are under their own identifiers, after a revocation that succeeds no secret
  -- resolves to the key that was revoked.
  pub revoke-resolve :
      (s1 : Vault) (x : Unit {0}) (digest : Text) (r : ResolvedApiKey)
      → tenant_of actor ≡ ok tenant
      → IsIndexed key_id s.keys
      → revoke_api_key now actor id s ≡ (ok x, s1)
      → resolve s1.keys digest ≡ some r
      → r.id ≢ id
  unfolding revoke_api_key ◌>>=◌
  revoke-resolve s1 x digest r here indexed h resolves =
      let (done, after) =
        restoring-ok (revoke_key_work now tenant actor id) s s1 x (rw here at h) in
      let w = revoke_key_work_sound x done indexed in
      let (row, same) = in_scope_sound s.keys tenant id w.key indexed w.found in
      let keys = ap (λ v. v.keys) (sym after) ∙ w.after in
      resolve-other (revoked_in (some w.key) now s.keys) id digest r
        (IsIndexed-revoked s.keys w.key now indexed)
        (subst (RevokedAt (revoked_in (some w.key) now s.keys)) same
          (RevokedAt-revoked s.keys w.key now row))
        (subst (λ d. resolve d digest ≡ some r) keys resolves)
