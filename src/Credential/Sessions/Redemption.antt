-- ===== src/Credential/Sessions/Redemption.antt =====
-- A setup token that is redeemed: `RedeemSetupTokenUseCase`, and what follows it.
use cubeforge_api.Prelude.{
  Bool, true, false, Option, none, some, [], ◌∷◌, Text, ◌==◌, ◌≡◌, inl, inr, sym, ap, ◌∙◌, arith,
  Date, Bool-cases, find, eq_iff, refl, All, subst,
}
use cubeforge_api.Prelude.Dict.Indexed.{IsIndexed, get_own, find_sound}
use cubeforge_api.Credential.Store.{
  SetupToken, Vault, invalidate_all_for_person, find_setup_token, establish_password,
  run_authenticating, mark_setup_token_redeemed, StoredPassword, invalidate_where,
}
use cubeforge_api.Prelude.Dict.{put, Dict, values, get, get_self}
use cubeforge_api.Credential.Tokens.{Crypto}
use cubeforge_api.Credential.Sessions.{
  usable, redeem, establish_password, ok, run_authenticating, mark_setup_token_redeemed, ◌>>=◌,
  assert_password_acceptable, Fresh, err, absent, email_address, sign_in,
}
use cubeforge_api.Errors.{ok, ◌>>=◌, Result-cases, err}
use cubeforge_api.Credential.Session.{assert_password_acceptable}
use cubeforge_api.Access.Entities.{Person, person_active}
use cubeforge_api.Credential.Sessions.Rotation.{tokens_of}
use cubeforge_api.Credential.Sessions.Admission.{IsSigning, Succeeds, MaySignIn, sign_in_iff}
use cubeforge_api.Access.Identifiers.{email_address}
use cubeforge_api.Access.Directory.{find_person_by_email}
use cubeforge_api.Credential.Store.Families.{live_in, live-invalidated_person}

abbrev pub setup_id : SetupToken → Text
setup_id t = t.id

-- A row that is found is written over where it stands, and found there again.
find-put :
    (p : SetupToken → Bool) (d : Dict SetupToken) (t v : SetupToken)
    → IsIndexed setup_id d
    → find p (values d) ≡ some t
    → p v ≡ true
    → find p (values (put d t.id v)) ≡ some v
unfolding put
find-put p [] t v h e f = absurd (ground arith)
find-put p ((i, w) ∷ d) t v (own, fresh, h) e f = elim (Bool-cases (p w)) [
  | inl first ↦
      let same : w ≡ t = ground (arith, e, first) in
      let key : i ≡ t.id = own ∙ ap setup_id same in rw ((eq_iff i t.id).1 key, f)
  | inr later ↦
      let found : find p (values d) ≡ some t = ground (arith, e, later) in
      let row = find-row p d t h found in
      let other : (i == t.id) ≡ false = apart i t d fresh row in
      rw (other, later) (find-put p d t v h found f)
]
  where
    find-row :
        (p : SetupToken → Bool) (d : Dict SetupToken) (t : SetupToken)
        → IsIndexed setup_id d
        → find p (values d) ≡ some t
        → get d t.id ≡ some t
    find-row p d t h e =
        (find_sound (λ u. get d u.id ≡ some u) p (values d) t (get_own setup_id d h) e).0

    apart :
        (i : Text) (t : SetupToken) (d : Dict SetupToken)
        → get d i ≡ none
        → get d t.id ≡ some t
        → (i == t.id) ≡ false
    apart i t d fresh row = ground (arith, eq_iff i t.id, fresh, row)

-- The store after a redemption.
abbrev pub after_redeeming : Date → Text → SetupToken → Vault → Vault
after_redeeming now hashed t s =
    invalidate_all_for_person t.person_id now
      (establish_password t.person_id hashed now (mark_setup_token_redeemed t.id now s))

module _ (c : Crypto) (now : Date) (token password hashed : Text) (s s1 : Vault)
    (x : Unit {0}) where
  pub record Redeemed : Type 0 where
    pub setup : SetupToken
    pub found : find_setup_token s (c.digest token) ≡ some setup
    pub after : s1 ≡ after_redeeming now hashed setup s

  usable-some : (o : Option SetupToken) (t : SetupToken) → usable now o ≡ ok t → o ≡ some t
  unfolding usable
  usable-some none t h = absurd (ground arith)
  usable-some (some u) t h = ground (arith, h)

  pub redeem_sound : redeem c now token password hashed s ≡ (ok x, s1) → Redeemed
  unfolding redeem run_authenticating ◌>>=◌
  redeem_sound h = elim (Result-cases (assert_password_acceptable password)) [
    | inr (e, bad) ↦ absurd (ground (arith, rw bad at h))
    | inl (u, good) ↦ elim (Result-cases (usable now (find_setup_token s (c.digest token)))) [
      | inr (e, unusable) ↦ absurd (ground (arith, rw (good, unusable) at h))
      | inl (t, fit) ↦ record {
        setup = t;
        found = usable-some _ t fit;
        after = sym (ap (λ r. r.1) (rw (good, fit) at h));
      }
    ]
  ]

pub find-redeemed :
    (c : Crypto) (now : Date) (token hashed : Text) (s : Vault) (t : SetupToken)
    → IsIndexed setup_id s.credentials.setup_tokens
    → find_setup_token s (c.digest token) ≡ some t
    → find_setup_token (after_redeeming now hashed t s) (c.digest token)
      ≡ some (record t { redeemed_at = some now })
unfolding find_setup_token mark_setup_token_redeemed establish_password invalidate_all_for_person
find-redeemed c now token hashed s t h e =
    let matches : SetupToken → Bool = λ u. u.secret_digest == c.digest token in
    let (row, same) =
      find_sound (λ u. get s.credentials.setup_tokens u.id ≡ some u) matches
        (values s.credentials.setup_tokens) t (get_own setup_id s.credentials.setup_tokens h) e in
    rw row
      (find-put matches s.credentials.setup_tokens t (record t { redeemed_at = some now }) h e same)

pub refused_redemption :
    (c : Crypto) (now : Date) (token password hashed : Text) (s : Vault)
    → assert_password_acceptable password ≡ ok tt
    → usable now (find_setup_token s (c.digest token)) ≡ err absent
    → (redeem c now token password hashed s).0 ≡ err absent
unfolding redeem run_authenticating ◌>>=◌
refused_redemption c now token password hashed s good unusable = rw (good, unusable)

-- What holds of the store in which a person's redemption has been done.
pub record Established (c : Crypto) (person : Person) (hashed : Text) (s1 : Vault) : Type 0 where
  pub stored : StoredPassword
  pub has_password : get s1.credentials.passwords person.id ≡ some stored
  pub digest : stored.digest ≡ hashed

established :
    (c : Crypto) (now : Date) (hashed : Text) (s : Vault) (t : SetupToken) (person : Person)
    → t.person_id ≡ person.id
    → Established c person hashed (after_redeeming now hashed t s)
unfolding mark_setup_token_redeemed establish_password invalidate_all_for_person
established c now hashed s t person e = record {
  stored = record { digest = hashed; updated_at = now };
  has_password =
      rw e
        (get_self s.credentials.passwords person.id (record { digest = hashed; updated_at = now }));
  digest = refl;
}

identity-after_redeeming :
    (now : Date) (hashed : Text) (t : SetupToken) (s : Vault)
    → (after_redeeming now hashed t s).identity ≡ s.identity
unfolding mark_setup_token_redeemed establish_password invalidate_all_for_person
identity-after_redeeming now hashed t s = refl

tokens-after_redeeming :
    (now : Date) (hashed : Text) (t : SetupToken) (s : Vault)
    → tokens_of (after_redeeming now hashed t s)
      ≡ invalidate_where (λ u. u.person_id == t.person_id) now (tokens_of s)
unfolding mark_setup_token_redeemed establish_password invalidate_all_for_person
tokens-after_redeeming now hashed t s = refl

module _ (c : Crypto) (now later : Date) (token password hashed email address : Text)
    (fresh : Fresh) (sign_in_id : Text) (s s1 : Vault) (x : Unit {0}) (t : SetupToken)
    (person : Person) (family : Text) where
  -- A person who is active and redeems a setup token signs in with the new password at once, where
  -- Argon2 accepts the password against its digest and tokens are never blank; and an earlier
  -- sign-in all of whose tokens are that person's is left without a live token.
  pub redeem-sign_in :
      IsSigning c
      → redeem c now token password hashed s ≡ (ok x, s1)
      → find_setup_token s (c.digest token) ≡ some t
      → t.person_id ≡ person.id
      → email_address c.lower email ≡ ok address
      → find_person_by_email s.identity address ≡ some person
      → person_active person.status ≡ true
      → c.verify password hashed ≡ true
      → All (λ u. u.sign_in_id ≡ family → u.person_id ≡ person.id) (values (tokens_of s))
      → Succeeds (sign_in c later fresh sign_in_id email password) s1
        × (live_in family (tokens_of s1) ≡ 0)
  redeem-sign_in signs h found own parsed known active accepted all_own =
      let r = redeem_sound c now token password hashed s s1 x h in
      let same : r.setup ≡ t = cc (r.found, found) in
      let after : s1 ≡ after_redeeming now hashed t s =
        r.after ∙ ap (λ u. after_redeeming now hashed u s) same in
      let e = established c now hashed s t person own in
      let may : MaySignIn c (after_redeeming now hashed t s) email password = record {
        address = address;
        parsed = parsed;
        person = person;
        known = rw (identity-after_redeeming now hashed t s) known;
        active = active;
        stored = e.stored;
        has_password = e.has_password;
        matches = rw e.digest accepted;
      } in
      (
        subst (Succeeds (sign_in c later fresh sign_in_id email password)) (sym after)
            ((sign_in_iff c later fresh sign_in_id email password _ signs).1 may),
        rw (after, tokens-after_redeeming now hashed t s, own)
            (live-invalidated_person family person.id now (tokens_of s) all_own),
      )
