-- ===== src/Credential/Session.antt =====
-- src/domain/credential: sessions, setup tokens, passwords and secrets.
use cubeforge_api.Prelude.{
  ℕ, ◌+◌, Bool, ◌&&◌, Option, none, some, [], ◌∷◌, Text, if◌then◌else◌, length, Date, shift,
  not_after, leb, pos, ltb, nat_eq, ◌*◌, trim, lit,
}
use cubeforge_api.Errors.{Result, err, violation, thrown, validation, ok}

-- `SESSION_LIFETIME_DAYS`
abbrev pub session_lifetime_days : ℕ
session_lifetime_days = 14

unfoldable pub session_deadline : Date → Date
session_deadline signed_in_at =
    shift signed_in_at (pos (session_lifetime_days * 24 * 60 * 60 * 1000))

-- `SETUP_TOKEN_VALIDITY_HOURS`
abbrev pub setup_token_validity_hours : ℕ
setup_token_validity_hours = 24

unfoldable pub setup_token_deadline : Date → Date
setup_token_deadline issued_at = shift issued_at (pos (setup_token_validity_hours * 60 * 60 * 1000))

pub record RefreshTokenState : Type 0 where
  pub sign_in_id : Text
  pub exchanged_at : Option Date
  pub invalidated_at : Option Date
  pub session_expires_at : Date

pub data RefreshDecision : Type 0 where
  exchange reject reject_and_invalidate_family : RefreshDecision

-- The end of `decideRefresh`: the deadline.
abbrev pub decide_deadline : RefreshTokenState → Date → RefreshDecision
decide_deadline state now = if not_after state.session_expires_at now then reject else exchange

unfoldable pub decide_refresh : RefreshTokenState → Date → RefreshDecision
decide_refresh state now = elim state.invalidated_at [
  | some t ↦ reject
  | none ↦ elim state.exchanged_at [
    | some t ↦ reject_and_invalidate_family
    | none ↦ decide_deadline state now
  ]
]

-- `MINIMUM_PASSWORD_LENGTH`
abbrev pub minimum_password_length : ℕ
minimum_password_length = 12

abbrev is_high_surrogate : ℕ → Bool
is_high_surrogate c = leb 0xd800 c && leb c 0xdbff

abbrev is_low_surrogate : ℕ → Bool
is_low_surrogate c = leb 0xdc00 c && leb c 0xdfff

-- `[...text].length`: a high surrogate and the low one behind it are one character.
unfoldable pub characters : Text → ℕ
characters [] = 0
characters (c ∷ []) = 1
characters (c ∷ d ∷ t) =
    let pair = characters t in
    let single = characters (d ∷ t) in
    if is_high_surrogate c && is_low_surrogate d then pair + 1 else single + 1

unfoldable pub assert_password_acceptable : Text → Result (Unit {0})
unfolding characters
assert_password_acceptable password =
    if ltb (characters password) minimum_password_length
    then err (violation (validation (lit "password")))
    else ok tt

-- `requireNonBlank` of the secrets, which hands the value on as it is; the four kinds of secret
-- are made by it.
unfoldable pub secret : Text → Result Text
secret value = if nat_eq (length (trim value)) 0 then err thrown else ok value
