-- ===== src/Credential/Sessions/Replay.antt =====
-- A refresh token that is presented again: `RefreshSessionUseCase`.
use cubeforge_api.Prelude.{none, some, Text, ◌≡◌, refl, Date}
use cubeforge_api.Credential.Store.Families.{live_in, live-invalidated}
use cubeforge_api.Credential.Sessions.Rotation.{tokens_of}
use cubeforge_api.Credential.Session.{decide_refresh, reject_and_invalidate_family}
use cubeforge_api.Credential.Sessions.{
  refresh, refresh_work, RefreshToken, state_of, refresh_found, refresh_decided, run_authenticating,
  invalidate_family, ◌>>=◌, Crypto, Fresh, Vault, find_by_digest, err, absent,
}
use cubeforge_api.Credential.Store.{
  RefreshToken, run_authenticating, invalidate_family, Vault, find_by_digest,
}
use cubeforge_api.Errors.{◌>>=◌, err}
use cubeforge_api.Credential.Tokens.{Crypto}

decide_replayed :
    (t : RefreshToken) (now moment : Date)
    → t.invalidated_at ≡ none
    → t.exchanged_at ≡ some moment
    → decide_refresh (state_of t) now ≡ reject_and_invalidate_family
unfolding decide_refresh
decide_replayed t now moment h e = rw (h, e)

-- A token that was exchanged and not invalidated, presented again at any moment, the deadline
-- passed or not: the request is refused, and the sign-in that it is of has no live token left.
pub refresh-replayed :
    (c : Crypto) (now moment : Date) (fresh : Fresh) (token : Text) (s : Vault) (t : RefreshToken)
    → find_by_digest s (c.digest token) ≡ some t
    → t.invalidated_at ≡ none
    → t.exchanged_at ≡ some moment
    → ((refresh c now fresh token s).0 ≡ err absent)
      × (live_in t.sign_in_id (tokens_of (refresh c now fresh token s).1) ≡ 0)
unfolding refresh refresh_work refresh_found refresh_decided run_authenticating invalidate_family
    ◌>>=◌
refresh-replayed c now moment fresh token s t found kept used =
    rw (found, decide_replayed t now moment kept used)
      (refl, live-invalidated t.sign_in_id now (tokens_of s))
