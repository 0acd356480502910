-- ===== src/Credential/Tokens.antt =====
-- src/adapters/crypto/access-token-issuer.ts, and what the use cases take from cryptography.
pub mod Lifetime
use cubeforge_api.Prelude.{
  ℕ, Bool, false, Option, none, some, Text, if◌then◌else◌, length, Date, ℤ, lit, leb_ℤ, pos, at,
  ◌/◌, invalid, nat_eq, negsuc, ◌+ℤ◌,
}
use cubeforge_api.Errors.{Result, ok, err}
use cubeforge_api.Credential.Session.{secret}
use cubeforge_api.Access.Identifiers.{tenant_id}

-- `AccessTokenClaims`; a time that is NaN is `none`.
pub record Claims : Type 0 where
  pub sub : Text
  pub iss : Text
  pub iat : Option ℤ
  pub exp : Option ℤ

-- `lower` is `toLowerCase`; `verify` is Argon2's, with false for a digest that cannot be read;
-- `digest` is SHA-256 in hexadecimal; `sign` and `decode` are those of the JSON web tokens, under
-- the configured secret, with `none` for a token that is refused.
pub record Crypto : Type 0 where
  pub lower : Text → Text
  pub verify : Text → Text → Bool
  pub digest : Text → Text
  pub sign : Claims → Text
  pub decode : Text → Option Claims
  pub lifetime_seconds : ℕ

-- `ISSUER`
abbrev pub issuer : Text
issuer = lit "cubeforge"

-- `Math.floor(ms / 1000)`
abbrev pub floor_seconds : ℤ → ℤ
floor_seconds (pos n) = pos (n / 1000)
floor_seconds (negsuc n) = negsuc (n / 1000)

abbrev pub seconds_of : Date → Option ℤ
seconds_of (at ms) = some (floor_seconds ms)
seconds_of invalid = none

abbrev pub later_by : ℕ → Option ℤ → Option ℤ
later_by n none = none
later_by n (some s) = some (s +ℤ pos n)

-- `JwtAccessTokenIssuer.issue`
unfoldable pub issue_token : Crypto → Text → Date → Result Text
issue_token c subject issued_at =
    let iat = seconds_of issued_at in
    secret (
      c.sign
        (record { sub = subject; iss = issuer; iat = iat; exp = later_by c.lifetime_seconds iat }))

abbrev pub expired : Option ℤ → Option ℤ → Bool
expired (some exp) (some now) = leb_ℤ exp now
expired _ _ = false

verified_subject : Option Claims → Date → Result (Option Text)
verified_subject none now = ok none
verified_subject (some claims) now =
    if expired claims.exp (seconds_of now)
    then ok none
    else if nat_eq (length claims.sub) 0
    then ok none
    else named_person (tenant_id claims.sub)
  where
    named_person : Result Text → Result (Option Text)
    named_person (ok p) = ok (some p)
    named_person (err e) = err e

-- `JwtAccessTokenIssuer.verify`; `personId` throws at a blank subject.
unfoldable pub verify_token : Crypto → Text → Date → Result (Option Text)
unfolding verified_subject
verify_token c token now = verified_subject (c.decode token) now
