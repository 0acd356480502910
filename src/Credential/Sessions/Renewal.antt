-- ===== src/Credential/Sessions/Renewal.antt =====
-- Who may continue a session: `RefreshSessionUseCase`.
use cubeforge_api.Prelude.{
  true, false, Option, none, some, Text, ◌≡◌, ◌↔◌, inl, inr, refl, sym, ap, ◌∙◌, arith, Date,
  Bool-cases, not_after,
}
use cubeforge_api.Errors.Keeps.{bind-ok}
use cubeforge_api.Credential.Sessions.Admission.{IsSigning, Succeeds, run-result, issue-ok}
use cubeforge_api.Credential.Tokens.{Crypto}
use cubeforge_api.Errors.{Exec, ok, ◌>>=◌, lift}
use cubeforge_api.Credential.Session.{
  decide_refresh, exchange, RefreshDecision, reject_and_invalidate_family, reject,
}
use cubeforge_api.Credential.Store.{
  Vault, RefreshToken, find_by_digest, find_credential, run_authenticating, to_credential,
  invalidate_family, invalidate_all_for_person,
}
use cubeforge_api.Credential.Sessions.{
  Fresh, IssuedSession, state_of, refuse_after, exchange_for, refresh_decided, refresh_found,
  refresh, refresh_work, find_by_digest, session_of, not_after, ok, find_credential,
  run_authenticating, ◌>>=◌, rotate, lift, invalidate_family, invalidate_all_for_person,
}
use cubeforge_api.Access.Entities.{Person, person_active}
use cubeforge_api.Prelude.Dict.{get}

-- What it takes to exchange a refresh token.
pub record MayRefresh (c : Crypto) (now : Date) (s : Vault) (token : Text) : Type 0 where
  pub held : RefreshToken
  pub found : find_by_digest s (c.digest token) ≡ some held
  pub not_exchanged : held.exchanged_at ≡ none
  pub not_invalidated : held.invalidated_at ≡ none
  pub in_time : not_after held.session_expires_at now ≡ false
  pub person : Person
  pub known : get s.identity.people held.person_id ≡ some person
  pub active : person_active person.status ≡ true

-- A work whose outcome is a session.
abbrev Yields : Exec Vault (Option IssuedSession) → Vault → Type 0
Yields m s = (a : IssuedSession) × ((m s).0 ≡ ok (some a))

decide_sound :
    (t : RefreshToken) (now : Date)
    → decide_refresh (state_of t) now ≡ exchange
    → (t.exchanged_at ≡ none)
      × (t.invalidated_at ≡ none)
      × (not_after t.session_expires_at now ≡ false)
unfolding decide_refresh
decide_sound t now h = (ground arith, ground arith, ground arith)

module _ (c : Crypto) (now : Date) (fresh : Fresh) where
  refused-Yields : (f : Vault → Vault) (s : Vault) → Yields (refuse_after f) s → ⊥
  refused-Yields f s (a, h) = ground arith

  exchange_for_sound :
      (t : RefreshToken) (o : Option Person) (s : Vault)
      → Yields (exchange_for c now fresh t (to_credential s.credentials.passwords o)) s
      → (p : Person) × (o ≡ some p) × (person_active p.status ≡ true)
  unfolding exchange_for
  exchange_for_sound t none s y =
      absurd (refused-Yields (invalidate_all_for_person t.person_id now) s y)
  exchange_for_sound t (some p) s y = elim (Bool-cases (person_active p.status)) [
    | inl e ↦ (p, refl, e)
    | inr e ↦ absurd (refused-Yields (invalidate_all_for_person t.person_id now) s (rw e at y))
  ]

  decided_sound :
      (t : RefreshToken) (d : RefreshDecision) (s : Vault)
      → Yields (refresh_decided c now fresh d t) s
      → (d ≡ exchange)
        × Yields
            (exchange_for c now fresh t
              (to_credential s.credentials.passwords (get s.identity.people t.person_id)))
            s
  unfolding refresh_decided find_credential ◌>>=◌
  decided_sound t reject_and_invalidate_family s y =
      absurd (refused-Yields (invalidate_family t.sign_in_id now) s y)
  decided_sound t reject s (a, h) = absurd (ground arith)
  decided_sound t exchange s y = (refl, y)

  found_sound :
      (token : Text) (o : Option RefreshToken) (s : Vault)
      → find_by_digest s (c.digest token) ≡ o
      → Yields (refresh_found c now fresh o) s
      → MayRefresh c now s token
  unfolding refresh_found
  found_sound token none s e (a, h) = absurd (ground arith)
  found_sound token (some t) s e y =
      let (decision, z) = decided_sound t (decide_refresh (state_of t) now) s y in
      let (unused, valid, in_time) = decide_sound t now decision in
      let (p, known, active) = exchange_for_sound t _ s z in
      record {
        held = t;
        found = e;
        not_exchanged = unused;
        not_invalidated = valid;
        in_time = in_time;
        person = p;
        known = known;
        active = active;
      }

  session_of-some :
      (o : Option IssuedSession) (a : IssuedSession) → session_of o ≡ ok a → o ≡ some a
  session_of-some none a h = absurd (ground arith)
  session_of-some (some b) a h = ground (arith, h)

  refresh_sound :
      (token : Text) (s : Vault) → Succeeds (refresh c now fresh token) s → MayRefresh c now s token
  unfolding refresh refresh_work
  refresh_sound token s (a, h) =
      let work = refresh_work c now fresh token in
      let r = bind-ok (run_authenticating work) (λ o. lift (session_of o)) s a h in
      let yields : (work s).0 ≡ ok (some a) =
        sym (run-result work s) ∙ (r.first ∙ ap ok (session_of-some r.value a r.rest)) in
      found_sound token (find_by_digest s (c.digest token)) s refl (a, yields)

  refresh_work_complete :
      (token : Text) (s : Vault)
      → IsSigning c
      → MayRefresh c now s token
      → Yields (refresh_work c now fresh token) s
  unfolding refresh_work refresh_found refresh_decided decide_refresh find_credential exchange_for
      rotate ◌>>=◌
  refresh_work_complete token s signs h =
      let (issued, e) = issue-ok c h.held.person_id now signs in
      let session : IssuedSession = record {
        access_token = issued;
        refresh_token = fresh.secret;
        session_expires_at = h.held.session_expires_at;
      } in
      (session, rw (h.found, h.not_invalidated, h.not_exchanged, h.in_time, h.known, h.active, e))

  refresh_complete :
      (token : Text) (s : Vault)
      → IsSigning c
      → MayRefresh c now s token
      → Succeeds (refresh c now fresh token) s
  unfolding refresh ◌>>=◌
  refresh_complete token s signs h =
      let (session, yields) = refresh_work_complete token s signs h in
      (session, rw (run-result (refresh_work c now fresh token) s ∙ yields))

  -- Where tokens are never blank, a refresh succeeds exactly if its token is held, was neither
  -- exchanged nor invalidated, its session is not over, and its person is there and active.
  pub refresh_iff :
      (token : Text) (s : Vault)
      → IsSigning c
      → Succeeds (refresh c now fresh token) s ↔ MayRefresh c now s token
  refresh_iff token s signs = (refresh_sound token s, refresh_complete token s signs)
