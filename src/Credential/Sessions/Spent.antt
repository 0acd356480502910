-- ===== src/Credential/Sessions/Spent.antt =====
-- A setup token that is spent, under the requests to src/application/authentication and
-- src/application/credential.
use cubeforge_api.Prelude.{
  Bool, Option, none, some, [], ◌∷◌, Text, ◌==◌, ◌≡◌, ◌⊎◌, inl, inr, arith, Date, Bool-cases,
  Option-cases, find, refl,
}
use cubeforge_api.Prelude.Dict.{Dict, get, put, values}
use cubeforge_api.Errors.{Result, Exec, ok, err, Result-cases, asks, modify, ◌>>=◌}
use cubeforge_api.Errors.Keeps.{keep-asks, keep-bind, keep-lift}
use cubeforge_api.Credential.Tokens.{Crypto, issue_token}
use cubeforge_api.Credential.Session.{
  RefreshDecision, assert_password_acceptable, reject_and_invalidate_family, reject, exchange,
}
use cubeforge_api.Credential.Store.{
  SetupToken, RefreshToken, StoredCredential, Vault, find_setup_token, find_by_digest,
  run_authenticating, settle_vault, insert_setup_token, mark_setup_token_redeemed,
  establish_password, invalidate_all_for_person, redeemed_in, invalidate_family, mark_exchanged,
  insert_token,
}
use cubeforge_api.Credential.Sessions.{
  Fresh, usable, sign_in, refresh, refresh_work, refresh_found, refresh_decided, exchange_for,
  sign_out, redeem, rotate, sign_in_work, invalidate_family, mark_exchanged, insert_token,
}
use cubeforge_api.Access.Entities.{person_active}

abbrev pub setups_of : Vault → Dict SetupToken
setups_of s = s.credentials.setup_tokens

-- The token with a digest has been redeemed.
pub record IsSpent (digest : Text) (d : Dict SetupToken) : Type 0 where
  pub token : SetupToken
  pub moment : Date
  pub found : find (λ t. t.secret_digest == digest) (values d) ≡ some token
  pub redeemed : token.redeemed_at ≡ some moment

-- Another redemption rewrites a row where it stands, under the same digest.
redeemed_found :
    (p : SetupToken → Bool) (d : Dict SetupToken) (id : Text) (u v t : SetupToken)
    → get d id ≡ some u
    → p v ≡ p u
    → find p (values d) ≡ some t
    → (find p (values (put d id v)) ≡ some t) ⊎ (find p (values (put d id v)) ≡ some v)
unfolding get put
redeemed_found p [] id u v t row same h = absurd (ground (arith, h))
redeemed_found p ((j, w) ∷ d) id u v t row same h = elim (Bool-cases (j == id)) [
  | inl here ↦
      let own : w ≡ u = ground (arith, rw here at row) in
      elim (Bool-cases (p w)) [
        | inl e ↦ inr (ground (arith, here, same, own, e))
        | inr e ↦ inl (ground (arith, here, same, own, e, h))
      ]
  | inr other ↦ elim (Bool-cases (p w)) [
    | inl e ↦ inl (ground (arith, other, e, h))
    | inr e ↦
        rw (other, e)
          (redeemed_found p d id u v t (ground (arith, other, row)) same (ground (arith, e, h)))
  ]
]

-- A new row stands behind the others.
inserted_found :
    (p : SetupToken → Bool) (d : Dict SetupToken) (id : Text) (v t : SetupToken)
    → get d id ≡ none
    → find p (values d) ≡ some t
    → find p (values (put d id v)) ≡ some t
unfolding get put
inserted_found p [] id v t new h = absurd (ground (arith, h))
inserted_found p ((j, w) ∷ d) id v t new h = elim (Bool-cases (j == id)) [
  | inl here ↦ absurd (ground (arith, here, new))
  | inr other ↦ elim (Bool-cases (p w)) [
    | inl e ↦ ground (arith, other, e, h)
    | inr e ↦
        rw (other, e)
          (inserted_found p d id v t (ground (arith, other, new)) (ground (arith, e, h)))
  ]
]

module _ (digest : Text) where
  abbrev pub P : Vault → Type 0
  P s = IsSpent digest (setups_of s)

  redeemed-P :
      (id : Text) (moment : Date) (d : Dict SetupToken) (o : Option SetupToken)
      → get d id ≡ o
      → IsSpent digest d
      → IsSpent digest (redeemed_in o id moment d)
  redeemed-P id moment d none row h = h
  redeemed-P id moment d (some u) row h =
      let v : SetupToken = record u { redeemed_at = some moment } in
      elim (redeemed_found (λ t. t.secret_digest == digest) d id u v h.token row refl h.found) [
        | inl e ↦ record { token = h.token; moment = h.moment; found = e; redeemed = h.redeemed }
        | inr e ↦ record { token = v; moment = moment; found = e; redeemed = refl }
      ]

  settled-P :
      {A : Type 0} (s : Vault) (r : Result A) (v : Vault) → P s → P v → P (settle_vault s (r, v)).1
  settled-P s (ok a) v before after = after
  settled-P s (err e) v before after = before

  run-P :
      {A : Type 0} (work : Exec Vault A) (s : Vault)
      → P s
      → P (work s).1
      → P (run_authenticating work s).1
  unfolding run_authenticating
  run-P work s before after = settled-P s (work s).0 (work s).1 before after

  module _ (c : Crypto) (now : Date) where
    exchange_for-P :
        (fresh : Fresh) (s : Vault) (t : RefreshToken) (o : Option StoredCredential)
        → P s
        → P (exchange_for c now fresh t o s).1
    unfolding exchange_for rotate mark_exchanged insert_token invalidate_all_for_person ◌>>=◌
    exchange_for-P fresh s t none h = h
    exchange_for-P fresh s t (some holder) h =
        elim (Bool-cases (person_active holder.person_status)) [
          | inl e ↦ rw e (keep-lift P (issue_token c t.person_id now) _ _ h λ _ _. h)
          | inr e ↦ rw e h
        ]

    refresh_decided-P :
        (fresh : Fresh) (s : Vault) (t : RefreshToken) (d : RefreshDecision)
        → P s
        → P (refresh_decided c now fresh d t s).1
    unfolding refresh_decided invalidate_family ◌>>=◌
    refresh_decided-P fresh s t reject_and_invalidate_family h = h
    refresh_decided-P fresh s t reject h = h
    refresh_decided-P fresh s t exchange h = exchange_for-P fresh s t _ h

    refresh_work-P :
        (fresh : Fresh) (token : Text) (s : Vault) → P s → P (refresh_work c now fresh token s).1
    unfolding refresh_work refresh_found
    refresh_work-P fresh token s h = elim (Option-cases (find_by_digest s (c.digest token))) [
      | inl e ↦ rw e h
      | inr (t, e) ↦ rw e (refresh_decided-P fresh s t _ h)
    ]

    pub refresh-P :
        (fresh : Fresh) (token : Text) (s : Vault) → P s → P (refresh c now fresh token s).1
    unfolding refresh
    refresh-P fresh token s h =
        let h' = run-P (refresh_work c now fresh token) s h (refresh_work-P fresh token s h) in
        keep-bind P (run_authenticating (refresh_work c now fresh token)) _ s (λ _ _. h') λ _ _. h'

    pub sign_out-P :
        (token : Text) (everywhere : Bool) (s : Vault)
        → P s
        → P (sign_out c now token everywhere s).1
    unfolding sign_out invalidate_all_for_person invalidate_family
    sign_out-P token everywhere s h =
        run-P _ s h (elim (Option-cases (find_by_digest s (c.digest token))) [
          | inl e ↦ rw e h
          | inr (t, e) ↦ rw e (elim (Bool-cases everywhere) [ inl b ↦ rw b h | inr b ↦ rw b h ])
        ])

    pub sign_in-P :
        (fresh : Fresh) (sign_in_id email password : Text) (s : Vault)
        → P s
        → P (sign_in c now fresh sign_in_id email password s).1
    unfolding sign_in sign_in_work insert_token
    sign_in-P fresh sign_in_id email password s h = run-P _ s h (
        keep-lift P _ _ s h λ address _.
          keep-asks P _ _ s h
            λ found _. keep-bind P _ _ s (λ _ _. h) λ _ _. keep-lift P _ _ _ h λ _ _. h)

    redeem_work-P :
        (token hashed : Text) (s : Vault)
        → P s
        → P
            ((asks (λ v. usable now (find_setup_token v (c.digest token))) >>= λ t.
                modify (mark_setup_token_redeemed t.id now) >>= λ _.
                modify (establish_password t.person_id hashed now) >>= λ _.
                modify (invalidate_all_for_person t.person_id now))
              s).1
    unfolding mark_setup_token_redeemed establish_password invalidate_all_for_person ◌>>=◌
    redeem_work-P token hashed s h =
        elim (Result-cases (usable now (find_setup_token s (c.digest token)))) [
          | inl (t, e) ↦ rw e (redeemed-P t.id now (setups_of s) (get (setups_of s) t.id) refl h)
          | inr (x, e) ↦ rw e h
        ]

    pub redeem-P :
        (token password hashed : Text) (s : Vault)
        → P s
        → P (redeem c now token password hashed s).1
    unfolding redeem
    redeem-P token password hashed s h =
        keep-lift P (assert_password_acceptable password) _ s h
          λ _ _. run-P _ s h (redeem_work-P token hashed s h)

  pub insert-P :
      (id person other : Text) (expires_at : Date) (s : Vault)
      → get (setups_of s) id ≡ none
      → P s
      → P (insert_setup_token id person other expires_at s)
  unfolding insert_setup_token
  insert-P id person other expires_at s new h = record {
    token = h.token;
    moment = h.moment;
    found = inserted_found (λ t. t.secret_digest == digest) (setups_of s) id _ h.token new h.found;
    redeemed = h.redeemed;
  }
