-- ===== src/Credential/Sessions/Rotation.antt =====
-- The families of refresh tokens under sequences of sign-ins, refreshes, sign-outs and redemptions.
use cubeforge_api.Prelude.{
  ℕ, ◌≤◌, Bool, true, false, none, some, Text, ◌==◌, ◌≡◌, arith, Date, All, eq_iff,
}
use cubeforge_api.Prelude.Dict.Sums.{sum-put, sum-put_new}
use cubeforge_api.Credential.Store.{
  Vault, run_authenticating, RefreshToken, invalidate_where, new_token, settle_vault,
}
use cubeforge_api.Prelude.Dict.{Dict, get, put, get-put, values}
use cubeforge_api.Credential.Store.Families.{
  live_weight, is_live, token_id, IsIndexed-invalidate_where, live_in, live-invalidate_where,
  All-invalidate_where,
}
use cubeforge_api.Errors.{Exec, Result, ok, err}
use cubeforge_api.Prelude.Dict.Indexed.{IsIndexed, IsIndexed-put, All-values-put}

abbrev pub tokens_of : Vault → Dict RefreshToken
tokens_of s = s.credentials.refresh_tokens

settled-keeps :
    {A : Type 0} (P : Dict RefreshToken → Type 0) (s : Vault) (r : Result A) (v : Vault)
    → P (tokens_of s)
    → P (tokens_of v)
    → P (tokens_of (settle_vault s (r, v)).1)
settled-keeps P s (ok a) v before after = after
settled-keeps P s (err e) v before after = before

-- A unit of work keeps what its work keeps of the refresh tokens.
pub run-keeps :
    {A : Type 0} (P : Dict RefreshToken → Type 0) (work : Exec Vault A) (s : Vault)
    → P (tokens_of s)
    → P (tokens_of (work s).1)
    → P (tokens_of (run_authenticating work s).1)
unfolding run_authenticating
run-keeps P work s before after = settled-keeps P s (work s).0 (work s).1 before after

-- The rows that a table keeps: they are keyed by their identifiers, and all of one sign-in are of
-- one person and end at one moment.
pub record Steady (family person : Text) (deadline : Date) (bound : ℕ) (d : Dict RefreshToken)
    : Type 0 where
  pub indexed : IsIndexed token_id d
  pub live : live_in family d ≤ bound
  pub own :
      All
        (λ t. t.sign_in_id ≡ family → (t.person_id ≡ person) × (t.session_expires_at ≡ deadline))
        (values d)

module _ (family person : Text) (deadline : Date) (bound : ℕ) where
  abbrev pub Keeps : Vault → Type 0
  Keeps s = Steady family person deadline bound (tokens_of s)

  pub invalidated :
      (matches : RefreshToken → Bool) (moment : Date) (d : Dict RefreshToken)
      → Steady family person deadline bound d
      → Steady family person deadline bound (invalidate_where matches moment d)
  invalidated matches moment d h = record {
    indexed = IsIndexed-invalidate_where matches moment d h.indexed;
    live = omega (arith, live-invalidate_where matches moment family d, h.live);
    own = All-invalidate_where matches moment _ d (λ t p. p) h.own;
  }

  -- A token of another sign-in.
  other-weight : (t : RefreshToken) → (t.sign_in_id == family) ≡ false → live_weight family t ≡ 0
  unfolding live_weight
  other-weight t h = ground (arith, h)

  pub new_family :
      (d : Dict RefreshToken) (t : RefreshToken)
      → get d t.id ≡ none
      → (t.sign_in_id == family) ≡ false
      → Steady family person deadline bound d
      → Steady family person deadline bound (put d t.id t)
  new_family d t fresh other h = record {
    indexed = IsIndexed-put token_id d t h.indexed;
    live =
        omega
          (arith, sum-put_new (live_weight family) d t.id t fresh, other-weight t other, h.live);
    own =
        All-values-put _ d t.id t
          (λ e. absurd (ground (arith, e, other, eq_iff t.sign_in_id family))) h.own;
  }

  exchanged-weight :
      (t : RefreshToken) (moment : Date)
      → live_weight family (record t { exchanged_at = some moment }) ≡ 0
  unfolding live_weight
  exchanged-weight t moment = ground arith

  successor-weight :
      (t : RefreshToken) (id digest : Text)
      → is_live t ≡ true
      → live_weight family (new_token id t.sign_in_id t.person_id digest t.session_expires_at)
        ≡ live_weight family t
  unfolding live_weight
  successor-weight t id digest h = ground (arith, h)

  -- A live token is exchanged for its successor.
  pub rotated :
      (d : Dict RefreshToken) (t : RefreshToken) (moment : Date) (id digest : Text)
      → get d t.id ≡ some t
      → is_live t ≡ true
      → get d id ≡ none
      → (t.sign_in_id ≡ family → (t.person_id ≡ person) × (t.session_expires_at ≡ deadline))
      → let d' = put d t.id (record t { exchanged_at = some moment }) in
        let u = new_token id t.sign_in_id t.person_id digest t.session_expires_at in
        Steady family person deadline bound d → Steady family person deadline bound (put d' id u)
  rotated d t moment id digest row live fresh same h =
      let old : RefreshToken = record t { exchanged_at = some moment } in
      let d' = put d t.id old in
      let u = new_token id t.sign_in_id t.person_id digest t.session_expires_at in
      let fresh' : get d' id ≡ none =
        ground (arith, get-put d t.id id old, row, fresh, eq_iff t.id id) in
      record {
        indexed = IsIndexed-put token_id d' u (IsIndexed-put token_id d old h.indexed);
        live = omega (
          arith,
          sum-put_new (live_weight family) d' id u fresh',
          sum-put (live_weight family) d t.id old t row,
          exchanged-weight t moment,
          successor-weight t id digest live,
          h.live,
        );
        own = All-values-put _ d' id u same (All-values-put _ d t.id old same h.own);
      }
