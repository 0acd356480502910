-- ===== src/Credential/Sessions/Steps.antt =====
-- The use cases of src/application/authentication, and redeeming, on the tokens of one sign-in.
use cubeforge_api.Prelude.{
  ℕ, Bool, true, false, Option, none, some, Text, ◌==◌, ◌≡◌, inl, inr, refl, arith, Date,
  Bool-cases, Option-cases, All,
}
use cubeforge_api.Errors.{Result-cases}
use cubeforge_api.Errors.Keeps.{keep-asks, keep-bind, keep-lift}
use cubeforge_api.Prelude.Dict.Indexed.{find_sound, get_own}
use cubeforge_api.Credential.Sessions.Rotation.{
  Steady, Keeps, rotated, new_family, invalidated, run-keeps, tokens_of,
}
use cubeforge_api.Credential.Store.{
  find_by_digest, RefreshToken, Vault, invalidate_family, invalidate_all_for_person, mark_exchanged,
  insert_token, mark_setup_token_redeemed, StoredCredential, run_authenticating, establish_password,
  new_token, find_setup_token,
}
use cubeforge_api.Credential.Session.{
  decide_refresh, exchange, RefreshDecision, assert_password_acceptable,
  reject_and_invalidate_family, session_deadline, reject,
}
use cubeforge_api.Credential.Tokens.{Crypto, issue_token}
use cubeforge_api.Credential.Sessions.{
  rotate, state_of, mark_exchanged, insert_token, Fresh, exchange_for, refresh_decided,
  refresh_work, refresh, sign_out, redeem, sign_in, ◌>>=◌, mark_setup_token_redeemed, refresh_found,
  sign_in_work, issue_token, StoredCredential, run_authenticating, establish_password,
  person_active, asks, usable, find_setup_token, modify,
}
use cubeforge_api.Prelude.Dict.{get, values}
use cubeforge_api.Credential.Store.Families.{token_id, is_live}
use cubeforge_api.Errors.{◌>>=◌, asks, modify}
use cubeforge_api.Access.Entities.{person_active}

-- What a search finds satisfies what all rows satisfy.
pub find_by_digest_sound :
    (P : RefreshToken → Type 0) (s : Vault) (digest : Text) (t : RefreshToken)
    → All P (values (tokens_of s))
    → find_by_digest s digest ≡ some t
    → P t
unfolding find_by_digest
find_by_digest_sound P s digest t h e =
    (find_sound P (λ u. u.secret_digest == digest) (values (tokens_of s)) t h e).0

decide_exchange :
    (t : RefreshToken) (now : Date) → decide_refresh (state_of t) now ≡ exchange → is_live t ≡ true
unfolding decide_refresh
decide_exchange t now h = ground arith

module _ (family person : Text) (deadline : Date) (bound : ℕ) (c : Crypto) (now : Date) where
  abbrev P : Vault → Type 0
  P s = Keeps family person deadline bound s

  -- What the search for a presented token gives.
  record Presented (s : Vault) (t : RefreshToken) : Type 0 where
    row : get (tokens_of s) t.id ≡ some t
    same : t.sign_in_id ≡ family → (t.person_id ≡ person) × (t.session_expires_at ≡ deadline)

  presented :
      (s : Vault) (digest : Text) (t : RefreshToken)
      → P s
      → find_by_digest s digest ≡ some t
      → Presented s t
  presented s digest t h e = record {
    row =
        find_by_digest_sound (λ u. get (tokens_of s) u.id ≡ some u) s digest t
          (get_own token_id (tokens_of s) h.indexed) e;
    same = find_by_digest_sound _ s digest t h.own e;
  }

  invalidate_family-P : (f : Text) (s : Vault) → P s → P (invalidate_family f now s)
  unfolding invalidate_family
  invalidate_family-P f s h = invalidated family person deadline bound _ now (tokens_of s) h

  invalidate_all-P : (f : Text) (s : Vault) → P s → P (invalidate_all_for_person f now s)
  unfolding invalidate_all_for_person
  invalidate_all-P f s h = invalidated family person deadline bound _ now (tokens_of s) h

  rotate-P :
      (fresh : Fresh) (s : Vault) (t : RefreshToken)
      → get (tokens_of s) fresh.row_id ≡ none
      → is_live t ≡ true
      → Presented s t
      → P s
      → P (rotate c now fresh t s).1
  unfolding rotate mark_exchanged insert_token ◌>>=◌
  rotate-P fresh s t new live found h =
      let kept =
        rotated family person deadline bound (tokens_of s) t now fresh.row_id
          (c.digest fresh.secret) found.row live new found.same h in
      rw found.row (keep-lift P (issue_token c t.person_id now) _ _ kept λ _ _. kept)

  exchange_for-P :
      (fresh : Fresh) (s : Vault) (t : RefreshToken) (o : Option StoredCredential)
      → get (tokens_of s) fresh.row_id ≡ none
      → is_live t ≡ true
      → Presented s t
      → P s
      → P (exchange_for c now fresh t o s).1
  unfolding exchange_for
  exchange_for-P fresh s t none new live found h = invalidate_all-P t.person_id s h
  exchange_for-P fresh s t (some holder) new live found h =
      elim (Bool-cases (person_active holder.person_status)) [
        | inl e ↦ rw e (rotate-P fresh s t new live found h)
        | inr e ↦ rw e (invalidate_all-P t.person_id s h)
      ]

  refresh_decided-P :
      (fresh : Fresh) (s : Vault) (t : RefreshToken) (d : RefreshDecision)
      → get (tokens_of s) fresh.row_id ≡ none
      → decide_refresh (state_of t) now ≡ d
      → Presented s t
      → P s
      → P (refresh_decided c now fresh d t s).1
  unfolding refresh_decided ◌>>=◌
  refresh_decided-P fresh s t reject_and_invalidate_family new e found h =
      invalidate_family-P t.sign_in_id s h
  refresh_decided-P fresh s t reject new e found h = h
  refresh_decided-P fresh s t exchange new e found h =
      exchange_for-P fresh s t _ new (decide_exchange t now e) found h

  refresh_work-P :
      (fresh : Fresh) (token : Text) (s : Vault)
      → get (tokens_of s) fresh.row_id ≡ none
      → P s
      → P (refresh_work c now fresh token s).1
  unfolding refresh_work refresh_found
  refresh_work-P fresh token s new h = elim (Option-cases (find_by_digest s (c.digest token))) [
    | inl e ↦ rw e h
    | inr (t, e) ↦ rw e (refresh_decided-P fresh s t _ new refl (presented s _ t h e) h)
  ]

  pub refresh-P :
      (fresh : Fresh) (token : Text) (s : Vault)
      → get (tokens_of s) fresh.row_id ≡ none
      → P s
      → P (refresh c now fresh token s).1
  unfolding refresh
  refresh-P fresh token s new h =
      let h' =
        run-keeps (Steady family person deadline bound) (refresh_work c now fresh token) s h
          (refresh_work-P fresh token s new h) in
      keep-bind P (run_authenticating (refresh_work c now fresh token)) _ s (λ _ _. h') λ _ _. h'

  pub sign_out-P :
      (token : Text) (everywhere : Bool) (s : Vault) → P s → P (sign_out c now token everywhere s).1
  unfolding sign_out
  sign_out-P token everywhere s h =
      run-keeps (Steady family person deadline bound) _ s h
        (elim (Option-cases (find_by_digest s (c.digest token))) [
          | inl e ↦ rw e h
          | inr (t, e) ↦ rw e (elim (Bool-cases everywhere) [
            | inl b ↦ rw b (invalidate_all-P t.person_id s h)
            | inr b ↦ rw b (invalidate_family-P t.sign_in_id s h)
          ])
        ])

  redeem_work-P :
      (token hashed : Text) (s : Vault)
      → P s
      → P
          ((asks (λ v. usable now (find_setup_token v (c.digest token))) >>= λ t.
              modify (mark_setup_token_redeemed t.id now) >>= λ _.
              modify (establish_password t.person_id hashed now) >>= λ _.
              modify (invalidate_all_for_person t.person_id now))
            s).1
  unfolding mark_setup_token_redeemed establish_password ◌>>=◌
  redeem_work-P token hashed s h =
      elim (Result-cases (usable now (find_setup_token s (c.digest token)))) [
        | inl (t, e) ↦ rw e (invalidate_all-P t.person_id _ h)
        | inr (x, e) ↦ rw e h
      ]

  pub redeem-P :
      (token password hashed : Text) (s : Vault) → P s → P (redeem c now token password hashed s).1
  unfolding redeem
  redeem-P token password hashed s h =
      keep-lift P (assert_password_acceptable password) _ s h λ _ _.
        run-keeps (Steady family person deadline bound) _ s h (redeem_work-P token hashed s h)

  pub sign_in-P :
      (fresh : Fresh) (sign_in_id email password : Text) (s : Vault)
      → get (tokens_of s) fresh.row_id ≡ none
      → (sign_in_id == family) ≡ false
      → P s
      → P (sign_in c now fresh sign_in_id email password s).1
  unfolding sign_in sign_in_work insert_token
  sign_in-P fresh sign_in_id email password s new other h =
      run-keeps (Steady family person deadline bound) _ s h (
        keep-lift P _ _ s h λ address _. keep-asks P _ _ s h λ found _.
          let t =
            new_token fresh.row_id sign_in_id found.person_id (c.digest fresh.secret)
              (session_deadline now) in
          let h' = new_family family person deadline bound (tokens_of s) t new other h in
          keep-bind P _ _ s (λ _ _. h') λ _ _. keep-lift P _ _ _ h' λ _ _. h')
